-- ===== src/Store/Sql/Totals.antt =====
-- The sums over the groups of a query are the sum over its rows.
use easy_docker_proxy.Base.{
  ℕ, ◌+◌, ◌≡◌, ◌≢◌, refl, sym, ap, ◌∙◌, ◌↔◌, Bool, true, false, ◌&&◌, List, [], ◌∷◌, if◌then◌else◌,
  All, In, head, tail, map, arith,
}
use easy_docker_proxy.Store.Sql.{order_by, insert_ordered, is_ahead}
use easy_docker_proxy.Store.Stats.Sums.{total}
use easy_docker_proxy.Store.Sql.Groups.{Once, All-imply, not_same}

abbrev pub sum_over : {K : Type 0} → (K → ℕ) → List K → ℕ
sum_over h [] = 0
sum_over h (k ∷ ks) = h k + sum_over h ks

module _ {K : Type 0} where
  sum_over-add :
      (h j : K → ℕ) (ks : List K) → sum_over (λ k. h k + j k) ks ≡ sum_over h ks + sum_over j ks
  sum_over-add h j [] = refl
  sum_over-add h j (k ∷ ks) = omega (arith, sum_over-add h j ks)

  sum_over-zero : (h : K → ℕ) (ks : List K) → All (λ k. h k ≡ 0) ks → sum_over h ks ≡ 0
  sum_over-zero h [] z = refl
  sum_over-zero h (k ∷ ks) z = omega (arith, z.0, sum_over-zero h ks (z.1))

  every : (P : K → Type 0) (ks : List K) → ((k : K) → P k) → All P ks
  every P [] h = _
  every P (k ∷ ks) h = (h k, every P ks h)

module _ {K : Type 0} (same : K → K → Bool) (exact : (a b : K) → (same a b ≡ true) ↔ (a ≡ b)) where
  -- A value that stands at one key.
  sum_over-one :
      (a : K) (v : ℕ) (ks : List K)
      → Once ks
      → In a ks
      → sum_over (λ k. if same a k then v else 0) ks ≡ v
  sum_over-one a v (k ∷ ks) o (head e) =
      let here : same a k ≡ true = (exact a k).1 e in
      let others : sum_over (λ k. if same a k then v else 0) ks ≡ 0 =
        sum_over-zero (λ k. if same a k then v else 0) ks
          (All-imply (λ j. k ≢ j) (λ j. (if same a j then v else 0) ≡ 0) ks
            (λ j n. rw (not_same same exact a j (λ q. n (sym e ∙ q))) refl) (o.0)) in
      rw here (omega (arith, others))
  sum_over-one a v (k ∷ ks) o (tail i) =
      let there : same a k ≡ false = not_same same exact a k (λ e. absurd (far e ks (o.0) i)) in
      rw there (omega (arith, sum_over-one a v ks (o.1) i))
    where
      far : a ≡ k → (js : List K) → All (λ j. k ≢ j) js → In a js → ⊥
      far e (j ∷ js) n (head q) = n.0 (sym e ∙ q)
      far e (j ∷ js) n (tail i) = far e js (n.1) i
      far e [] n i = elim i [ ]
  sum_over-one a v [] o i = elim i [ ]

  one_row :
      (b : Bool) (a : K) (v : ℕ) (ks : List K)
      → Once ks
      → (b ≡ true → In a ks)
      → sum_over (λ k. if b && same a k then v else 0) ks ≡ (if b then v else 0)
  one_row true a v ks o i = sum_over-one a v ks o (i refl)
  one_row false a v ks o i = sum_over-zero (λ k. 0) ks (every (λ k. 0 ≡ 0) ks (λ k. refl))

  -- The sums of the groups add up to the sum of the rows, if each row that counts has its key.
  pub sum_over-total :
      {R : Type 0} (f : R → ℕ) (key : R → K) (p : R → Bool) (rows : List R) (ks : List K)
      → Once ks
      → ((r : R) → In r rows → p r ≡ true → In (key r) ks)
      → sum_over (λ k. total f (λ r. p r && same (key r) k) rows) ks ≡ total f p rows
  sum_over-total f key p [] ks o c = sum_over-zero (λ k. 0) ks (every (λ k. 0 ≡ 0) ks (λ k. refl))
  sum_over-total f key p (r ∷ rows) ks o c =
      let add =
        sum_over-add (λ k. if p r && same (key r) k then f r else 0)
          (λ k. total f (λ r. p r && same (key r) k) rows) ks in
      let first = one_row (p r) (key r) (f r) ks o (c r (head refl)) in
      let rest = sum_over-total f key p rows ks o (λ x i. c x (tail i)) in
      omega (arith, add, first, rest)

sum_over-insert_ordered :
    {A : Type 0} (f g h : A → ℕ) (x : A) (xs : List A)
    → sum_over h (insert_ordered f g x xs) ≡ h x + sum_over h xs
unfolding insert_ordered
sum_over-insert_ordered f g h x [] = refl
sum_over-insert_ordered f g h x (y ∷ ys) =
    placed (is_ahead f g x y) (sum_over-insert_ordered f g h x ys)
  where
    placed :
        (b : Bool)
        → sum_over h (insert_ordered f g x ys) ≡ h x + sum_over h ys
        → sum_over h (if b then x ∷ (y ∷ ys) else y ∷ insert_ordered f g x ys)
          ≡ h x + (h y + sum_over h ys)
    placed true e = refl
    placed false e = omega (arith, e)

pub sum_over-order_by :
    {A : Type 0} (f g h : A → ℕ) (xs : List A) → sum_over h (order_by f g xs) ≡ sum_over h xs
unfolding order_by
sum_over-order_by f g h [] = refl
sum_over-order_by f g h (x ∷ xs) =
    omega (arith, sum_over-insert_ordered f g h x (order_by f g xs), sum_over-order_by f g h xs)

pub sum_over-map :
    {A B : Type 0} (h : B → ℕ) (r : A → B) (xs : List A)
    → sum_over h (map r xs) ≡ sum_over (λ x. h (r x)) xs
sum_over-map h r [] = refl
sum_over-map h r (x ∷ xs) = ap (λ n. h (r x) + n) (sum_over-map h r xs)

pub same_sum :
    {K : Type 0} (x y : K → ℕ) (ks : List K) → ((k : K) → x k ≡ y k) → sum_over x ks ≡ sum_over y ks
same_sum x y [] e = refl
same_sum x y (k ∷ ks) e = omega (arith, e k, same_sum x y ks e)
