-- ===== src/Store/Sql/Groups.antt =====
-- The keys of a query that groups: each once, each of a row.
use easy_docker_proxy.Base.{
  ◌≡◌, ◌≢◌, refl, sym, subst, ap, ◌∙◌, ◌↔◌, Bool, true, false, not, List, [], ◌∷◌, inl, inr, All,
  In, head, tail, map, select, Bool-cases, arith,
}
use easy_docker_proxy.Store.Sql.{distinct, group_by}
use easy_docker_proxy.Store.Sql.Order.{Pairs, All-In}

-- No key twice.
abbrev pub Once : {K : Type 0} → List K → Type 0
Once ks = Pairs (λ a b. a ≢ b) ks

module _ {A : Type 0} where
  In-select : (p : A → Bool) (xs : List A) (a : A) → In a (select p xs) → In a xs
  In-select p (x ∷ xs) a i = kept (p x) (In-select p xs a) i
    where
      kept :
          (b : Bool)
          → (In a (select p xs) → In a xs)
          → In a (elim b [ true ↦ x ∷ select p xs | false ↦ select p xs ])
          → In a (x ∷ xs)
      kept true k (head e) = head e
      kept true k (tail j) = tail (k j)
      kept false k j = tail (k j)
  In-select p [] a i = i

  select-In : (p : A → Bool) (xs : List A) (a : A) → In a xs → p a ≡ true → In a (select p xs)
  select-In p (x ∷ xs) a (head e) y = first (p x) (ap p (sym e) ∙ y)
    where
      first : (b : Bool) → b ≡ true → In a (elim b [ true ↦ x ∷ select p xs | false ↦ select p xs ])
      first true _ = head e
      first false n = absurd (ground (arith, n))
  select-In p (x ∷ xs) a (tail i) y = kept (p x) (select-In p xs a i y)
    where
      kept :
          (b : Bool)
          → In a (select p xs)
          → In a (elim b [ true ↦ x ∷ select p xs | false ↦ select p xs ])
      kept true j = tail j
      kept false j = j
  select-In p [] a i y = elim i [ ]

  pub All-select : (p : A → Bool) (P : A → Type 0) (xs : List A) → All P xs → All P (select p xs)
  All-select p P [] h = _
  All-select p P (x ∷ xs) h = kept (p x) (All-select p P xs (h.1))
    where
      kept :
          (b : Bool)
          → All P (select p xs)
          → All P (elim b [ true ↦ x ∷ select p xs | false ↦ select p xs ])
      kept true j = (h.0, j)
      kept false j = j

  pub Pairs-select :
      (p : A → Bool) (R : A → A → Type 0) (xs : List A) → Pairs R xs → Pairs R (select p xs)
  Pairs-select p R [] h = _
  Pairs-select p R (x ∷ xs) h = kept (p x) (All-select p (R x) xs (h.0)) (Pairs-select p R xs (h.1))
    where
      kept :
          (b : Bool)
          → All (R x) (select p xs)
          → Pairs R (select p xs)
          → Pairs R (elim b [ true ↦ x ∷ select p xs | false ↦ select p xs ])
      kept true a j = (a, j)
      kept false a j = j

  pub picked : (p : A → Bool) (xs : List A) → All (λ x. p x ≡ true) (select p xs)
  picked p [] = _
  picked p (x ∷ xs) = kept (p x) refl (picked p xs)
    where
      kept :
          (b : Bool)
          → p x ≡ b
          → All (λ x. p x ≡ true) (select p xs)
          → All (λ x. p x ≡ true) (elim b [ true ↦ x ∷ select p xs | false ↦ select p xs ])
      kept true e j = (e, j)
      kept false e j = j

  pub All-imply : (P Q : A → Type 0) (xs : List A) → ((x : A) → P x → Q x) → All P xs → All Q xs
  All-imply P Q [] k h = _
  All-imply P Q (x ∷ xs) k h = (k x (h.0), All-imply P Q xs k (h.1))

module _ {K : Type 0} (same : K → K → Bool) (exact : (a b : K) → (same a b ≡ true) ↔ (a ≡ b)) where
  pub not_same : (a b : K) → a ≢ b → same a b ≡ false
  not_same a b n = elim (Bool-cases (same a b)) [ inl y ↦ absurd (n ((exact a b).0 y)) | inr m ↦ m ]

  apart : (a b : K) → not (same a b) ≡ true → a ≢ b
  apart a b n e = let y = (exact a b).1 e in absurd (ground (arith, n, y))

  pub distinct-Once : (ks : List K) → Once (distinct same ks)
  unfolding distinct
  distinct-Once [] = _
  distinct-Once (k ∷ ks) =
      let p : K → Bool = λ j. not (same k j) in
      (
        All-imply (λ j. p j ≡ true) (λ j. k ≢ j) (select p (distinct same ks)) (apart k)
            (picked p (distinct same ks)),
        Pairs-select p (λ a b. a ≢ b) (distinct same ks) (distinct-Once ks),
      )

  pub In-distinct : (ks : List K) (a : K) → In a (distinct same ks) → In a ks
  unfolding distinct
  In-distinct (k ∷ ks) a (head e) = head e
  In-distinct (k ∷ ks) a (tail i) =
      tail (In-distinct ks a (In-select (λ j. not (same k j)) (distinct same ks) a i))
  In-distinct [] a i = i

  pub distinct-In : (ks : List K) (a : K) → In a ks → In a (distinct same ks)
  unfolding distinct
  distinct-In (k ∷ ks) a (head e) = head e
  distinct-In (k ∷ ks) a (tail i) = elim (Bool-cases (same k a)) [
    | inl y ↦ head (sym ((exact k a).0 y))
    | inr n ↦
        tail (select-In (λ j. not (same k j)) (distinct same ks) a (distinct-In ks a i) (rw n refl))
  ]
  distinct-In [] a i = elim i [ ]

module _ {R K : Type 0} where
  In-map : (key : R → K) (rows : List R) (r : R) → In r rows → In (key r) (map key rows)
  In-map key (x ∷ rows) r (head e) = head (ap key e)
  In-map key (x ∷ rows) r (tail i) = tail (In-map key rows r i)
  In-map key [] r i = elim i [ ]

  -- What is in a mapped list comes from the list.
  In-map_from :
      (key : R → K) (rows : List R) (k : K)
      → In k (map key rows)
      → (r : R) × In r rows × (k ≡ key r)
  In-map_from key (x ∷ rows) k (head e) = (x, head refl, e)
  In-map_from key (x ∷ rows) k (tail i) = let (r, j, e) = In-map_from key rows k i in (r, tail j, e)
  In-map_from key [] k i = elim i [ ]

select_picked : {R : Type 0} (p : R → Bool) (xs : List R) (r : R) → In r (select p xs) → p r ≡ true
select_picked p xs r i = All-In (λ x. p x ≡ true) (select p xs) (picked p xs) r i

module _ {R K G : Type 0} (same : K → K → Bool) (exact : (a b : K) → (same a b ≡ true) ↔ (a ≡ b))
    (key : R → K) (row : K → G) (p : R → Bool) where
  -- The keys of the groups.
  abbrev pub keys : List R → List K
  keys rows = distinct same (map key (select p rows))

  pub keys-Once : (rows : List R) → Once (keys rows)
  keys-Once rows = distinct-Once same exact (map key (select p rows))

  pub row-In-keys : (rows : List R) (r : R) → In r rows → p r ≡ true → In (key r) (keys rows)
  row-In-keys rows r i y =
      distinct-In same exact (map key (select p rows)) (key r)
        (In-map key (select p rows) r (select-In p rows r i y))

  -- A row that passes the test has its group, and each group is that of a key.
  pub group_by-In :
      (rows : List R) (r : R)
      → In r rows
      → p r ≡ true
      → In (row (key r)) (group_by same key row p rows)
  unfolding group_by
  group_by-In rows r i y = In-map row (keys rows) (key r) (row-In-keys rows r i y)

  pub group_by-made :
      (P : G → Type 0) (rows : List R)
      → ((k : K) → P (row k))
      → All P (group_by same key row p rows)
  unfolding group_by
  group_by-made P rows h = made (keys rows)
    where
      made : (ks : List K) → All P (map row ks)
      made [] = _
      made (k ∷ ks) = (h k, made ks)

  -- What holds of the groups of the rows that pass the test holds of all groups.
  pub group_by-From :
      (P : G → Type 0) (rows : List R)
      → ((r : R) → In r rows → p r ≡ true → P (row (key r)))
      → All P (group_by same key row p rows)
  unfolding group_by
  group_by-From P rows h = made (keys rows) (λ k i.
      let (r, j, e) =
        In-map_from key (select p rows) k (In-distinct same exact (map key (select p rows)) k i) in
      subst (λ x. P (row x)) (sym e) (h r (In-select p rows r j) (select_picked p rows r j)))
    where
      made : (ks : List K) → ((k : K) → In k ks → P (row k)) → All P (map row ks)
      made [] g = _
      made (k ∷ ks) g = (g k (head refl), made ks (λ j i. g j (tail i)))

  -- Groups have different keys.
  pub group_by-Once :
      (back : G → K) (rows : List R)
      → ((k : K) → back (row k) ≡ k)
      → Pairs (λ a b. back a ≢ back b) (group_by same key row p rows)
  unfolding group_by
  group_by-Once back rows h = mapped (keys rows) (keys-Once rows)
    where
      heads :
          (k : K) (ks : List K)
          → All (λ j. k ≢ j) ks
          → All (λ b. back (row k) ≢ back b) (map row ks)
      heads k [] n = _
      heads k (j ∷ ks) n = (λ e. n.0 (sym (h k) ∙ (e ∙ h j)), heads k ks (n.1))

      mapped : (ks : List K) → Once ks → Pairs (λ a b. back a ≢ back b) (map row ks)
      mapped [] o = _
      mapped (k ∷ ks) o = (heads k ks (o.0), mapped ks (o.1))
