-- ===== src/Store/Images/Charts.antt =====
-- `ImageAnalytics` against the events.
use easy_docker_proxy.Base.{
  ℕ, zero, suc, ◌+◌, ◌≤◌, ◌≡◌, ◌≢◌, refl, sym, ap, ap₂, ◌∙◌, Bool, true, false, ◌&&◌, List, [], ◌∷◌,
  some, if◌then◌else◌, Str, str_eq, str_eq_iff, map, select, All, leb, ◌==◌, ==_iff, Bool-cases,
  inl, inr, arith,
}
use easy_docker_proxy.Record.Event.{Event}
use easy_docker_proxy.Store.Sql.Order.{Pairs}
use easy_docker_proxy.Store.Sql.Groups.{Pairs-select, picked, All-imply}
use easy_docker_proxy.Store.Stats.{Tables, DailyStat, pulls_of, errors_of, day_of}
use easy_docker_proxy.Store.Stats.Sums.{Pick, picks, picks_event, total, same_total}
use easy_docker_proxy.Store.Stats.Agree.{Agree, From}
use easy_docker_proxy.Store.Stats.Exact.{Whole, parse_range-Whole}
use easy_docker_proxy.Store.Stats.Series.{DayPoint, Range, parse_range, days_from, zeros}
use easy_docker_proxy.Store.Stats.Queries.{in_days}
use easy_docker_proxy.Store.Stats.Unique.{IsUnique, Apart}
use easy_docker_proxy.Store.Images.{by_day, image_analytics}

-- The rows of the query.
abbrev pub of_image : Range → Str × Str → Pick
of_image g k day reg repo = str_eq reg k.0 && (str_eq repo k.1 && in_days g day)

abbrev pub of_image_day : Range → Str × Str → ℕ → Pick
of_image_day g k d day reg repo = of_image g k day reg repo && day == d

-- The events of an image on one day.
abbrev pub image_on : Str × Str → ℕ → Pick
image_on k d day reg repo = day == d && (str_eq reg k.0 && str_eq repo k.1)

-- What they add up to.
abbrev pub counted_image : Str × Str → List Event → ℕ → DayPoint
counted_image k es d =
    let p = picks_event (image_on k d) in
    record {
      day = d;
      pulls = total pulls_of p es;
      bytes_total = total (λ e. e.bytes) p es;
      errors = total errors_of p es;
    }

-- A day of the range is in the rows of the query.
of_image_day-image_on :
    (g : Range) (k : Str × Str) (d day : ℕ) (reg repo : Str)
    → g.from_day ≤ d
    → d ≤ g.to_day
    → of_image_day g k d day reg repo ≡ image_on k d day reg repo
of_image_day-image_on g k d day reg repo lo hi = elim (Bool-cases (day == d)) [
  | inl y ↦
      let a : leb g.from_day day ≡ true = ground (arith, lo, y) in
      let b : leb day g.to_day ≡ true = ground (arith, hi, y) in rw (y, a, b) (ground arith)
  | inr n ↦ rw n (ground arith)
]

abbrev at_day : ℕ → ℕ → ℕ → ℕ → DayPoint
at_day d a b c = record { day = d; pulls = a; bytes_total = b; errors = c }

same_day : {d f a b c x y z : ℕ} → d ≡ f → a ≡ x → b ≡ y → c ≡ z → at_day d a b c ≡ at_day f x y z
same_day h e f g = rw (h, e, f, g) refl

abbrev Days : List DailyStat → Type 0
Days = Pairs (λ a b. a.day ≢ b.day)

not_day : (d : ℕ) (r : DailyStat) → d ≢ r.day → (r.day == d) ≡ false
not_day d r n = elim (Bool-cases (r.day == d)) [
  | inl y ↦ absurd (n (sym ((==_iff r.day d).0 y)))
  | inr m ↦ m
]

by_day-others :
    (d : ℕ) (p : DayPoint) (rows : List DailyStat) → All (λ r. d ≢ r.day) rows → by_day d p rows ≡ p
unfolding by_day
by_day-others d p [] n = refl
by_day-others d p (r ∷ rows) n = rw (not_day d r (n.0)) (by_day-others d p rows (n.1))

total-others :
    (f : DailyStat → ℕ) (d : ℕ) (rows : List DailyStat)
    → All (λ r. d ≢ r.day) rows
    → total f (λ r. r.day == d) rows ≡ 0
total-others f d [] n = refl
total-others f d (r ∷ rows) n = rw (not_day d r (n.0)) (omega (arith, total-others f d rows (n.1)))

abbrev sums_at : ℕ → List DailyStat → DayPoint
sums_at d rows =
    at_day d (total (λ r. r.pulls) (λ r. r.day == d) rows)
      (total (λ r. r.bytes_total) (λ r. r.day == d) rows)
      (total (λ r. r.errors) (λ r. r.day == d) rows)

-- With one row a day at most, the last one is the only one.
by_day-sums_at :
    (d : ℕ) (rows : List DailyStat) → Days rows → by_day d (zeros d) rows ≡ sums_at d rows
unfolding by_day
by_day-sums_at d [] u = refl
by_day-sums_at d (r ∷ rows) u = elim (Bool-cases (r.day == d)) [
  | inl y ↦
      let e : r.day ≡ d = (==_iff r.day d).0 y in
      let n : All (λ x. d ≢ x.day) rows =
        All-imply (λ x. r.day ≢ x.day) (λ x. d ≢ x.day) rows (λ x n q. n (e ∙ q)) (u.0) in
      let none : (f : DailyStat → ℕ) → total f (λ x. x.day == d) rows ≡ 0 =
        λ f. total-others f d rows n in
      rw y (
        by_day-others d (at_day r.day r.pulls r.bytes_total r.errors) rows n
        ∙ same_day e (omega (arith, none (λ x. x.pulls))) (omega (arith, none (λ x. x.bytes_total)))
            (omega (arith, none (λ x. x.errors))))
  | inr m ↦
      rw m (by_day-sums_at d rows (u.1) ∙ same_day refl (omega arith) (omega arith) (omega arith))
]

total-select_and :
    {A : Type 0} (f : A → ℕ) (p q : A → Bool) (xs : List A)
    → total f p (select q xs) ≡ total f (λ x. q x && p x) xs
total-select_and f p q [] = refl
total-select_and f p q (x ∷ xs) = kept (q x) (total-select_and f p q xs)
  where
    kept :
        (b : Bool)
        → total f p (select q xs) ≡ total f (λ x. q x && p x) xs
        → total f p (elim b [ true ↦ x ∷ select q xs | false ↦ select q xs ])
          ≡ (if b && p x then f x else 0) + total f (λ x. q x && p x) xs
    kept true h = omega (arith, h)
    kept false h = omega (arith, h)

-- Rows of one image have different days.
days_differ :
    (g : Range) (k : Str × Str) (a b : DailyStat)
    → picks (of_image g k) a ≡ true
    → picks (of_image g k) b ≡ true
    → Apart a b
    → a.day ≢ b.day
days_differ g k a b y z n e =
    let ra : a.registry ≡ k.0 = (str_eq_iff a.registry (k.0)).0 (ground (arith, y)) in
    let rb : b.registry ≡ k.0 = (str_eq_iff b.registry (k.0)).0 (ground (arith, z)) in
    let pa : a.repository ≡ k.1 = (str_eq_iff a.repository (k.1)).0 (ground (arith, y)) in
    let pb : b.repository ≡ k.1 = (str_eq_iff b.repository (k.1)).0 (ground (arith, z)) in
    let reg = (str_eq_iff a.registry b.registry).1 (ra ∙ sym rb) in
    let repo = (str_eq_iff a.repository b.repository).1 (pa ∙ sym pb) in
    let day = (==_iff a.day b.day).1 e in absurd (ground (arith, reg, repo, day, n))

image_rows-Days :
    (g : Range) (k : Str × Str) (rows : List DailyStat)
    → All (λ r. picks (of_image g k) r ≡ true) rows
    → IsUnique rows
    → Days rows
image_rows-Days g k [] p u = _
image_rows-Days g k (r ∷ rows) p u = (heads rows (p.1) (u.0), image_rows-Days g k rows (p.1) (u.1))
  where
    heads :
        (xs : List DailyStat)
        → All (λ x. picks (of_image g k) x ≡ true) xs
        → All (Apart r) xs
        → All (λ x. r.day ≢ x.day) xs
    heads [] q n = _
    heads (x ∷ xs) q n = (days_differ g k r x (p.0) (q.0) (n.0), heads xs (q.1) (n.1))

module _ (d0 : ℕ) (t : Tables) (g : Range) (k : Str × Str) (a : Agree d0 t) (late : d0 ≤ g.from_day)
    (u : IsUnique t.daily) where
  of_image_day-From : (d : ℕ) → From d0 (of_image_day g k d)
  of_image_day-From d day reg repo y =
      let from : leb g.from_day day ≡ true = ground (arith, y) in ground (arith, from, late)

  module _ (d : ℕ) (lo : g.from_day ≤ d) (hi : d ≤ g.to_day) where
    on_day :
        (f : Event → ℕ)
        → total f (picks_event (of_image_day g k d)) t.events
          ≡ total f (picks_event (image_on k d)) t.events
    on_day f =
        same_total f (picks_event (of_image_day g k d)) (picks_event (image_on k d)) t.events
          (λ e. of_image_day-image_on g k d (day_of e.ts) e.registry e.repository lo hi)

    charted :
        by_day d (zeros d) (select (picks (of_image g k)) t.daily) ≡ counted_image k t.events d
    charted =
        let p = of_image g k in
        let own : List DailyStat = select (picks p) t.daily in
        let days : Days own =
          image_rows-Days g k own (picked (picks p) t.daily)
            (Pairs-select (picks p) Apart t.daily u) in
        let q = of_image_day g k d in
        let from = of_image_day-From d in
        let of_rows =
          λ (f : DailyStat → ℕ). total-select_and f (λ r. r.day == d) (picks p) t.daily in
        by_day-sums_at d own days
        ∙ same_day refl (of_rows (λ r. r.pulls) ∙ (a.pulls q from ∙ on_day pulls_of))
            (of_rows (λ r. r.bytes_total) ∙ (a.bytes q from ∙ on_day (λ e. e.bytes)))
            (of_rows (λ r. r.errors) ∙ (a.errors q from ∙ on_day errors_of))

  all_charted :
      (n d : ℕ)
      → g.from_day ≤ d
      → d + n ≤ suc g.to_day
      → map (λ x. by_day x (zeros x) (select (picks (of_image g k)) t.daily)) (days_from d n)
        ≡ map (counted_image k t.events) (days_from d n)
  all_charted zero d lo hi = refl
  all_charted (suc n) d lo hi =
      ap₂ (λ x xs. x ∷ xs) (charted d lo (omega (arith, hi)))
        (all_charted n (suc d) (omega (arith, lo)) (omega (arith, hi)))

-- On a day of at least a year after 1970, for a range that is accepted and whose days the daily
-- sums cover, and with one daily row at most for a day, registry and repository, the chart of an
-- image has a point for each day of the range, from the first one up to today, with the pulls,
-- bytes and errors of the image's events of that day; and the range has from 1 to 366 days.
pub image_analytics-Agree :
    (d0 : ℕ) (t : Tables) (now : ℕ) (registry repository range : Str) (g : Range)
    → Agree d0 t
    → IsUnique t.daily
    → 366 ≤ day_of now
    → parse_range range now ≡ some g
    → d0 ≤ g.from_day
    → (image_analytics t true now registry repository range
        ≡ some (map (counted_image (registry, repository) t.events) (days_from g.from_day g.days)))
      × (((g.to_day ≡ day_of now) × (g.from_day + g.days ≡ suc (day_of now)))
          × ((1 ≤ g.days) × (g.days ≤ 366)))
unfolding image_analytics
image_analytics-Agree d0 t now registry repository range g a u year e late =
    let w : Whole (day_of now) (some g) = rw e at (parse_range-Whole range now year) in
    (
      rw e (
          ap some (
            all_charted d0 t g (registry, repository) a late u g.days g.from_day (omega arith)
              (omega (arith, w.0.0, w.0.1)))),
      w,
    )
