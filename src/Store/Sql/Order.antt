-- ===== src/Store/Sql/Order.antt =====
-- An ordered list, cut at a limit.
use easy_docker_proxy.Base.{
  ℕ, zero, suc, ◌≤◌, ◌≡◌, refl, true, false, List, [], ◌∷◌, ◌⊎◌, inl, inr, All, In, head, tail,
  take, length, Bool-cases, arith,
}
use easy_docker_proxy.Store.Sql.{is_ahead, insert_ordered, order_by}

-- What holds of each element and of those after it.
abbrev pub Pairs : {A : Type 0} → (A → A → Type 0) → List A → Type 0
Pairs R [] = Unit
Pairs R (x ∷ xs) = All (R x) xs × Pairs R xs

abbrev pub Ahead : {A : Type 0} → (A → ℕ) → (A → ℕ) → A → A → Type 0
Ahead f g x y = is_ahead f g x y ≡ true

-- The greatest of the rows, in order: as many as the limit lets through. One that is left out
-- comes after all of them.
pub record IsTop {A : Type 0} (f g : A → ℕ) (limit : ℕ) (rows out : List A) : Type 0 where
  pub ordered : Pairs (Ahead f g) out
  pub bounded : length out ≤ limit
  pub found : (x : A) → In x out → In x rows
  pub best :
      (x : A) → In x rows → In x out ⊎ ((length out ≡ limit) × ((y : A) → In y out → Ahead f g y x))

module _ {A : Type 0} (f g : A → ℕ) where
  Ahead-not : (x y : A) → is_ahead f g x y ≡ false → Ahead f g y x
  Ahead-not x y n = ground (arith, n)

  Ahead-trans : (x y z : A) → Ahead f g x y → Ahead f g y z → Ahead f g x z
  Ahead-trans x y z a b = ground (arith, a, b)

module _ {A : Type 0} (P : A → Type 0) where
  pub All-In : (xs : List A) → All P xs → (x : A) → In x xs → P x
  All-In (y ∷ ys) a x (head e) = rw e (a.0)
  All-In (y ∷ ys) a x (tail i) = All-In ys (a.1) x i
  All-In [] a x i = elim i [ ]

  All-mono : (Q : A → Type 0) (xs : List A) → ((x : A) → P x → Q x) → All P xs → All Q xs
  All-mono Q [] k a = _
  All-mono Q (x ∷ xs) k a = (k x (a.0), All-mono Q xs k (a.1))

module _ {A : Type 0} (f g : A → ℕ) where
  All-insert_ordered :
      (P : A → Type 0) (x : A) (xs : List A) → P x → All P xs → All P (insert_ordered f g x xs)
  unfolding insert_ordered
  All-insert_ordered P x [] p a = (p, _)
  All-insert_ordered P x (y ∷ ys) p a = elim (Bool-cases (is_ahead f g x y)) [
    | inl e ↦ rw e (p, a)
    | inr e ↦ rw e (a.0, All-insert_ordered P x ys p (a.1))
  ]

  Pairs-insert_ordered :
      (x : A) (xs : List A) → Pairs (Ahead f g) xs → Pairs (Ahead f g) (insert_ordered f g x xs)
  unfolding insert_ordered
  Pairs-insert_ordered x [] o = (_, _)
  Pairs-insert_ordered x (y ∷ ys) o = elim (Bool-cases (is_ahead f g x y)) [
    | inl e ↦
        rw e
          ((e, All-mono (Ahead f g y) (Ahead f g x) ys (λ z k. Ahead-trans f g x y z e k) (o.0)), o)
    | inr e ↦ rw e (
      All-insert_ordered (Ahead f g y) x ys (Ahead-not f g x y e) (o.0),
      Pairs-insert_ordered x ys (o.1),
    )
  ]

  pub Pairs-order_by : (xs : List A) → Pairs (Ahead f g) (order_by f g xs)
  unfolding order_by
  Pairs-order_by [] = _
  Pairs-order_by (x ∷ xs) = Pairs-insert_ordered x (order_by f g xs) (Pairs-order_by xs)

  -- Another relation that holds both ways survives the ordering.
  Pairs-insert :
      (R : A → A → Type 0) (x : A) (xs : List A)
      → ((a b : A) → R a b → R b a)
      → All (R x) xs
      → Pairs R xs
      → Pairs R (insert_ordered f g x xs)
  unfolding insert_ordered
  Pairs-insert R x [] s a o = (_, _)
  Pairs-insert R x (y ∷ ys) s a o = elim (Bool-cases (is_ahead f g x y)) [
    | inl e ↦ rw e (a, o)
    | inr e ↦
        rw e (All-insert_ordered (R y) x ys (s x y (a.0)) (o.0), Pairs-insert R x ys s (a.1) (o.1))
  ]

  pub All-order_by : (P : A → Type 0) (xs : List A) → All P xs → All P (order_by f g xs)
  unfolding order_by
  All-order_by P [] a = _
  All-order_by P (x ∷ xs) a =
      All-insert_ordered P x (order_by f g xs) (a.0) (All-order_by P xs (a.1))

  pub Pairs-reorder :
      (R : A → A → Type 0) (xs : List A)
      → ((a b : A) → R a b → R b a)
      → Pairs R xs
      → Pairs R (order_by f g xs)
  unfolding order_by
  Pairs-reorder R [] s o = _
  Pairs-reorder R (x ∷ xs) s o =
      Pairs-insert R x (order_by f g xs) s (All-order_by (R x) xs (o.0))
        (Pairs-reorder R xs s (o.1))

  moved_in :
      (a x y : A) (xs ys : List A) → (In a xs → In a (x ∷ ys)) → In a (y ∷ xs) → In a (x ∷ (y ∷ ys))
  moved_in a x y xs ys k (head e) = tail (head e)
  moved_in a x y xs ys k (tail j) = elim (k j) [ head e ↦ head e | tail i ↦ tail (tail i) ]

  moved_out :
      (a x y : A) (xs ys : List A) → (In a (x ∷ ys) → In a xs) → In a (x ∷ (y ∷ ys)) → In a (y ∷ xs)
  moved_out a x y xs ys k (head e) = tail (k (head e))
  moved_out a x y xs ys k (tail (head e)) = head e
  moved_out a x y xs ys k (tail (tail i)) = tail (k (tail i))

  In-insert_ordered : (a x : A) (xs : List A) → In a (insert_ordered f g x xs) → In a (x ∷ xs)
  unfolding insert_ordered
  In-insert_ordered a x [] i = i
  In-insert_ordered a x (y ∷ ys) i = elim (Bool-cases (is_ahead f g x y)) [
    | inl e ↦ rw e at i
    | inr e ↦ moved_in a x y (insert_ordered f g x ys) ys (In-insert_ordered a x ys) (rw e at i)
  ]

  insert_ordered-In : (a x : A) (xs : List A) → In a (x ∷ xs) → In a (insert_ordered f g x xs)
  unfolding insert_ordered
  insert_ordered-In a x [] i = i
  insert_ordered-In a x (y ∷ ys) i = elim (Bool-cases (is_ahead f g x y)) [
    | inl e ↦ rw e i
    | inr e ↦ rw e (moved_out a x y (insert_ordered f g x ys) ys (insert_ordered-In a x ys) i)
  ]

  In-order_by : (a : A) (xs : List A) → In a (order_by f g xs) → In a xs
  unfolding order_by
  In-order_by a [] i = i
  In-order_by a (x ∷ xs) i = elim (In-insert_ordered a x (order_by f g xs) i) [
    | head e ↦ head e
    | tail k ↦ tail (In-order_by a xs k)
  ]

  pub order_by-In : (a : A) (xs : List A) → In a xs → In a (order_by f g xs)
  unfolding order_by
  order_by-In a (x ∷ xs) (head e) = insert_ordered-In a x (order_by f g xs) (head e)
  order_by-In a (x ∷ xs) (tail i) =
      insert_ordered-In a x (order_by f g xs) (tail (order_by-In a xs i))
  order_by-In a [] i = elim i [ ]

module _ {A : Type 0} where
  pub All-take : (P : A → Type 0) (n : ℕ) (xs : List A) → All P xs → All P (take n xs)
  All-take P zero xs a = _
  All-take P (suc n) [] a = _
  All-take P (suc n) (x ∷ xs) a = (a.0, All-take P n xs (a.1))

  pub Pairs-take : (R : A → A → Type 0) (n : ℕ) (xs : List A) → Pairs R xs → Pairs R (take n xs)
  Pairs-take R zero xs o = _
  Pairs-take R (suc n) [] o = _
  Pairs-take R (suc n) (x ∷ xs) o = (All-take (R x) n xs (o.0), Pairs-take R n xs (o.1))

  length-take : (n : ℕ) (xs : List A) → length (take n xs) ≤ n
  length-take zero xs = omega arith
  length-take (suc n) [] = omega arith
  length-take (suc n) (x ∷ xs) = omega (arith, length-take n xs)

  In-take : (n : ℕ) (xs : List A) (a : A) → In a (take n xs) → In a xs
  In-take (suc n) (x ∷ xs) a (head e) = head e
  In-take (suc n) (x ∷ xs) a (tail i) = tail (In-take n xs a i)
  In-take (suc n) [] a i = elim i [ ]
  In-take zero xs a i = elim i [ ]

  -- What a limit leaves out comes after all that it lets through.
  left_out :
      (R : A → A → Type 0) (n : ℕ) (xs : List A) (a : A)
      → Pairs R xs
      → In a xs
      → In a (take n xs) ⊎ ((length (take n xs) ≡ n) × ((y : A) → In y (take n xs) → R y a))
  left_out R zero xs a o i = inr (refl, λ y j. elim j [ ])
  left_out R (suc n) (x ∷ xs) a o (head e) = inl (head e)
  left_out R (suc n) (x ∷ xs) a o (tail i) = elim (left_out R n xs a (o.1) i) [
    | inl j ↦ inl (tail j)
    | inr (e, k) ↦ inr (omega (arith, e), λ y. behind k y)
  ]
    where
      behind : ((y : A) → In y (take n xs) → R y a) → (y : A) → In y (x ∷ take n xs) → R y a
      behind k y (head e) = rw e (All-In (R x) xs (o.0) a i)
      behind k y (tail j) = k y j
  left_out R (suc n) [] a o i = elim i [ ]

pub take-IsTop :
    {A : Type 0} (f g : A → ℕ) (limit : ℕ) (rows : List A)
    → IsTop f g limit rows (take limit (order_by f g rows))
take-IsTop f g limit rows = record {
  ordered = Pairs-take (Ahead f g) limit (order_by f g rows) (Pairs-order_by f g rows);
  bounded = length-take limit (order_by f g rows);
  found = λ x i. In-order_by f g x rows (In-take limit (order_by f g rows) x i);
  best = λ x i.
      left_out (Ahead f g) limit (order_by f g rows) x (Pairs-order_by f g rows)
        (order_by-In f g x rows i);
}
