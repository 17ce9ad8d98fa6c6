-- ===== src/Store/Stats/Sums.antt =====
-- Sums over the rows and over the events that a test on day, registry and repository picks.
use easy_docker_proxy.Base.{
  ℕ, ◌+◌, ◌≡◌, refl, Bool, true, false, List, [], ◌∷◌, ◌++◌, if◌then◌else◌, Str, str_eq_iff, any,
  any-witness, In, ap, ◌≤◌, ==_iff, select, Bool-cases, inl, inr, arith,
}
use easy_docker_proxy.Record.Event.{Event}
use easy_docker_proxy.Store.Stats.{DailyStat, same_key, merge, upsert_daily, day_of}

abbrev pub Pick : Type 0
Pick = ℕ → Str → Str → Bool

abbrev pub picks : Pick → DailyStat → Bool
picks p r = p r.day r.registry r.repository

abbrev pub picks_event : Pick → Event → Bool
picks_event p e = p (day_of e.ts) e.registry e.repository

abbrev pub total {ℓ} : {A : Type ℓ} → (A → ℕ) → (A → Bool) → List A → ℕ
total f p [] = 0
total f p (x ∷ xs) = (if p x then f x else 0) + total f p xs

pub total-append {ℓ} :
    {A : Type ℓ} (f : A → ℕ) (p : A → Bool) (xs ys : List A)
    → total f p (xs ++ ys) ≡ total f p xs + total f p ys
total-append f p [] ys = omega arith
total-append f p (x ∷ xs) ys = omega (arith, total-append f p xs ys)

keys_equal : (p : Pick) (r d : DailyStat) → same_key r d ≡ true → picks p r ≡ picks p d
keys_equal p r d y =
    let day : r.day ≡ d.day = (==_iff r.day d.day).0 (ground arith) in
    let reg : r.registry ≡ d.registry = (str_eq_iff r.registry d.registry).0 (ground arith) in
    let repo : r.repository ≡ d.repository =
      (str_eq_iff r.repository d.repository).0 (ground arith) in
    rw (day, reg, repo) refl

merged :
    (b c : Bool) (m x y rest : ℕ)
    → b ≡ c
    → m ≡ x + y
    → (if b then m else 0) + rest ≡ ((if b then x else 0) + rest) + (if c then y else 0)
merged true true m x y rest e k = omega (arith, k)
merged true false m x y rest e k = cc
merged false true m x y rest e k = cc
merged false false m x y rest e k = omega arith

-- One row of an upsert; `b` is the test on its key.
upserted :
    (f : DailyStat → ℕ) (p : Pick) (d r : DailyStat) (rows rest : List DailyStat) (b : Bool)
    → (b ≡ true → picks p r ≡ picks p d)
    → f (merge r d) ≡ f r + f d
    → total f (picks p) rest ≡ total f (picks p) rows + (if picks p d then f d else 0)
    → total f (picks p) (if b then merge r d ∷ rows else r ∷ rest)
      ≡ ((if picks p r then f r else 0) + total f (picks p) rows) + (if picks p d then f d else 0)
upserted f p d r rows rest true e add ih =
    merged (picks p r) (picks p d) (f (merge r d)) (f r) (f d) (total f (picks p) rows) (e refl) add
upserted f p d r rows rest false e add ih = omega (arith, ih)

-- An upsert adds what its row has, if the row is picked.
pub total-upsert_daily :
    (f : DailyStat → ℕ) (p : Pick) (d : DailyStat) (rows : List DailyStat)
    → ((r : DailyStat) → f (merge r d) ≡ f r + f d)
    → total f (picks p) (upsert_daily d rows)
      ≡ total f (picks p) rows + (if picks p d then f d else 0)
unfolding upsert_daily
total-upsert_daily f p d [] add = omega arith
total-upsert_daily f p d (r ∷ rows) add =
    upserted f p d r rows (upsert_daily d rows) (same_key r d) (keys_equal p r d) (add r)
      (total-upsert_daily f p d rows add)

selected {ℓ} :
    {A : Type ℓ} (f : A → ℕ) (p : A → Bool) (x : A) (xs ys : List A) (b : Bool)
    → (p x ≡ true → b ≡ true)
    → total f p ys ≡ total f p xs
    → total f p (elim b [ true ↦ x ∷ ys | false ↦ ys ]) ≡ (if p x then f x else 0) + total f p xs
selected f p x xs ys true k ih = omega (arith, ih)
selected f p x xs ys false k ih = elim (Bool-cases (p x)) [
  | inl y ↦ let never = k y in cc
  | inr n ↦ rw n (omega (arith, ih))
]

-- A deletion of rows that are not picked changes no sum.
pub total-select {ℓ} :
    {A : Type ℓ} (f : A → ℕ) (p q : A → Bool) (xs : List A)
    → ((x : A) → p x ≡ true → q x ≡ true)
    → total f p (select q xs) ≡ total f p xs
total-select f p q [] k = refl
total-select f p q (x ∷ xs) k =
    selected f p x xs (select q xs) (q x) (k x) (total-select f p q xs k)

pub none_picked {ℓ} :
    {A : Type ℓ} (f : A → ℕ) (p : A → Bool) (xs : List A) → any p xs ≡ false → total f p xs ≡ 0
none_picked f p [] n = refl
none_picked f p (x ∷ xs) n = elim (Bool-cases (p x)) [
  | inl y ↦ absurd (ground (arith, n, y))
  | inr m ↦
      let rest : any p xs ≡ false = ground (arith, n, m) in
      rw m (omega (arith, none_picked f p xs rest))
]

pub same_total {ℓ} :
    {A : Type ℓ} (f : A → ℕ) (p q : A → Bool) (xs : List A)
    → ((x : A) → p x ≡ q x)
    → total f p xs ≡ total f q xs
same_total f p q [] h = refl
same_total f p q (x ∷ xs) h =
    rw (h x) (ap (λ n. (if q x then f x else 0) + n) (same_total f p q xs h))

pub some_picked :
    {A : Type 0} (f : A → ℕ) (p : A → Bool) (xs : List A)
    → 1 ≤ total f p xs
    → (x : A) × In x xs × (p x ≡ true)
some_picked f p xs h = elim (Bool-cases (any p xs)) [
  | inl y ↦ any-witness p xs y
  | inr n ↦ absurd (omega (arith, h, none_picked f p xs n))
]
