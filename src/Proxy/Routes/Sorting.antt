-- ===== src/Proxy/Routes/Sorting.antt =====
-- The exchange sort of `buildRoutes` keeps the routes and puts the longer prefixes first.
use mathlib.Core.List.{Perm}
use mathlib.Core.List.Perm
use easy_docker_proxy.Base.{
  ℕ, zero, suc, ◌≤◌, ◌≡◌, refl, true, false, List, [], ◌∷◌, length, ltb, arith, Bool-cases, inl,
  inr, All, ap, sym, subst, In, head, tail, ◌↔◌,
}
use easy_docker_proxy.Proxy.Routes.{PathRoute, exchange, longest_first}

abbrev size : PathRoute → ℕ
size r = length r.prefix

-- No element is followed by a longer one.
pub data IsLongestFirst : List PathRoute → Type 0 where
  nil : IsLongestFirst []
  cons :
      {x : PathRoute} {xs : List PathRoute}
      → All (λ y. size y ≤ size x) xs
      → IsLongestFirst xs
      → IsLongestFirst (x ∷ xs)

module _ (x y : PathRoute) (ys : List PathRoute) where
  exchange_longer :
      ltb (size x) (size y) ≡ true
      → exchange x (y ∷ ys) ≡ ((exchange y ys).0, x ∷ (exchange y ys).1)
  unfolding exchange
  exchange_longer e = rw e

  exchange_shorter :
      ltb (size x) (size y) ≡ false
      → exchange x (y ∷ ys) ≡ ((exchange x ys).0, y ∷ (exchange x ys).1)
  unfolding exchange
  exchange_shorter e = rw e

-- What holds of a loop round in either case.
exchange_rule :
    (P : PathRoute → List PathRoute → PathRoute × List PathRoute → Type 0)
    → ((x : PathRoute) → P x [] (x, []))
    → ((x y : PathRoute) (ys : List PathRoute)
        → size x ≤ size y
        → P y ys (exchange y ys)
        → P x (y ∷ ys) ((exchange y ys).0, x ∷ (exchange y ys).1))
    → ((x y : PathRoute) (ys : List PathRoute)
        → size y ≤ size x
        → P x ys (exchange x ys)
        → P x (y ∷ ys) ((exchange x ys).0, y ∷ (exchange x ys).1))
    → (x : PathRoute) (ys : List PathRoute) → P x ys (exchange x ys)
exchange_rule P none swap stay x [] = unfold exchange in none x
exchange_rule P none swap stay x (y ∷ ys) = elim (Bool-cases (ltb (size x) (size y))) [
  | inl e ↦
      subst (P x (y ∷ ys)) (sym (exchange_longer x y ys e))
        (swap x y ys (ground arith) (exchange_rule P none swap stay y ys))
  | inr e ↦
      subst (P x (y ∷ ys)) (sym (exchange_shorter x y ys e))
        (stay x y ys (ground arith) (exchange_rule P none swap stay x ys))
]

exchange-perm :
    (x : PathRoute) (ys : List PathRoute) → Perm ((exchange x ys).0 ∷ (exchange x ys).1) (x ∷ ys)
exchange-perm =
    exchange_rule (λ x ys r. Perm (r.0 ∷ r.1) (x ∷ ys)) (λ x. Perm.refl (x ∷ []))
      (λ x y ys h p. Perm.trans (Perm.swap _ _ _) (Perm.cons x p))
      (λ x y ys h p. Perm.trans (Perm.swap _ _ _) (Perm.trans (Perm.cons y p) (Perm.swap _ _ _)))

exchange-length : (x : PathRoute) (ys : List PathRoute) → length (exchange x ys).1 ≡ length ys
exchange-length =
    exchange_rule (λ x ys r. length r.1 ≡ length ys) (λ x. refl) (λ x y ys h e. ap suc e)
      (λ x y ys h e. ap suc e)

abbrev Leads : PathRoute → PathRoute × List PathRoute → Type 0
Leads x r = (size x ≤ size r.0) × All (λ y. size y ≤ size r.0) r.1

exchange-Leads : (x : PathRoute) (ys : List PathRoute) → Leads x (exchange x ys)
exchange-Leads =
    exchange_rule (λ x ys r. Leads x r) (λ x. (omega arith, tt))
      (λ x y ys h l. (omega arith, (omega arith, l.1))) (λ x y ys h l. (l.0, (omega arith, l.1)))

-- The same elements, before and after.
Same : PathRoute → List PathRoute → PathRoute × List PathRoute → Type 0
Same x ys r = (a : PathRoute) → In a (r.0 ∷ r.1) ↔ In a (x ∷ ys)

In-swap : {a x y : PathRoute} {l : List PathRoute} → In a (x ∷ y ∷ l) → In a (y ∷ x ∷ l)
In-swap (head e) = tail (head e)
In-swap (tail (head e)) = head e
In-swap (tail (tail i)) = tail (tail i)

In-cons : {a x : PathRoute} {l m : List PathRoute} → (In a l → In a m) → In a (x ∷ l) → In a (x ∷ m)
In-cons f (head e) = head e
In-cons f (tail i) = tail (f i)

exchange-Same : (x : PathRoute) (ys : List PathRoute) → Same x ys (exchange x ys)
unfolding Same
exchange-Same =
    exchange_rule (λ x ys r. Same x ys r) (λ x a. (λ i. i, λ i. i))
      (λ x y ys h s a. (λ i. In-cons (s a).0 (In-swap i), λ i. In-swap (In-cons (s a).1 i)))
      (λ x y ys h s a.
        (λ i. In-swap (In-cons (s a).0 (In-swap i)), λ i. In-swap (In-cons (s a).1 (In-swap i))))

longest_first-perm : (n : ℕ) (xs : List PathRoute) → Perm (longest_first n xs) xs
unfolding longest_first
longest_first-perm n [] = Perm.refl []
longest_first-perm zero (x ∷ xs) = Perm.refl (x ∷ xs)
longest_first-perm (suc n) (x ∷ xs) =
    Perm.trans (Perm.cons _ (longest_first-perm n (exchange x xs).1)) (exchange-perm x xs)

pub longest_first-In :
    (n : ℕ) (xs : List PathRoute) (a : PathRoute) → In a (longest_first n xs) ↔ In a xs
unfolding longest_first Same
longest_first-In n [] a = (λ i. i, λ i. i)
longest_first-In zero (x ∷ xs) a = (λ i. i, λ i. i)
longest_first-In (suc n) (x ∷ xs) a =
    let ih = longest_first-In n (exchange x xs).1 a in
    let e = exchange-Same x xs a in (λ i. e.0 (In-cons ih.0 i), λ i. In-cons ih.1 (e.1 i))

All-In :
    (P : PathRoute → Type 0) (xs : List PathRoute) → ((a : PathRoute) → In a xs → P a) → All P xs
All-In P [] f = tt
All-In P (x ∷ xs) f = (f x (head refl), All-In P xs (λ a i. f a (tail i)))

pub In-All :
    (P : PathRoute → Type 0) {a : PathRoute} {xs : List PathRoute} → All P xs → In a xs → P a
In-All P h (head e) = subst P (sym e) h.0
In-All P h (tail i) = In-All P h.1 i

pub longest_first-IsLongestFirst :
    (n : ℕ) (xs : List PathRoute) → length xs ≤ n → IsLongestFirst (longest_first n xs)
unfolding longest_first
longest_first-IsLongestFirst n [] h = nil
longest_first-IsLongestFirst zero (x ∷ xs) h = absurd (omega arith)
longest_first-IsLongestFirst (suc n) (x ∷ xs) h =
    let r = exchange x xs in
    cons
      (All-In _ (longest_first n r.1) (λ a i.
        In-All (λ y. size y ≤ size r.0) (exchange-Leads x xs).1 ((longest_first-In n r.1 a).0 i)))
      (longest_first-IsLongestFirst n r.1 (omega (arith, exchange-length x xs)))

-- The exchange sort returns the same routes, none of them followed by one with a longer prefix.
pub longest_first_sorts :
    (xs : List PathRoute)
    → IsLongestFirst (longest_first (length xs) xs) × Perm (longest_first (length xs) xs) xs
longest_first_sorts xs =
    (longest_first-IsLongestFirst (length xs) xs (omega arith), longest_first-perm (length xs) xs)
