-- ===== src/Store/Stats/Exact.antt =====
-- The chart against the events.
use easy_docker_proxy.Base.{
  ℕ, zero, suc, ◌+◌, ◌-◌, ◌≤◌, ◌≡◌, refl, sym, ap, ap₂, ◌∙◌, Bool, true, false, not, ◌&&◌, ◌||◌,
  List, ◌∷◌, Option, none, some, Str, is_empty, str_eq, trim_space, take, to_lower, has_suffix,
  codes, ◌⊎◌, any, map, leb, ◌==◌, length, Bool-cases, inl, inr, arith,
}
use easy_docker_proxy.Base.Int.{ℤ, pos, negsuc, ltb_ℤ}
use easy_docker_proxy.Http.{parse_int}
use easy_docker_proxy.Record.Event.{Event}
use easy_docker_proxy.Store.Stats.{Tables, DailyStat, pulls_of, errors_of, day_of}
use easy_docker_proxy.Store.Stats.Sums.{Pick, picks, picks_event, total, none_picked, same_total}
use easy_docker_proxy.Store.Stats.Agree.{Agree, From}
use easy_docker_proxy.Store.Stats.Series.{
  DayPoint, Range, range_of, or_week, parse_range, grouped, point, filled, days_from, timeseries,
}

-- The events of one day, of one registry or of all.
abbrev pub on : Str → ℕ → Pick
on registry d day reg repo = day == d && (is_empty registry || str_eq reg registry)

-- What the events of the day add up to.
abbrev pub counted : Str → ℕ → List Event → DayPoint
counted registry d es = record {
  day = d;
  pulls = total pulls_of (picks_event (on registry d)) es;
  bytes_total = total (λ e. e.bytes) (picks_event (on registry d)) es;
  errors = total errors_of (picks_event (on registry d)) es;
}

absorbed : (x c : Bool) → (x && (false && c)) ≡ (false && c)
absorbed true c = refl
absorbed false c = refl

-- A day of the range is grouped whole.
grouped-on :
    (g : Range) (registry : Str) (d day : ℕ) (reg repo : Str)
    → g.from_day ≤ d
    → d ≤ g.to_day
    → grouped g registry d day reg repo ≡ on registry d day reg repo
grouped-on g registry d day reg repo lo hi = elim (Bool-cases (day == d)) [
  | inl y ↦
      let a : leb g.from_day day ≡ true = ground (arith, lo, y) in
      let b : leb day g.to_day ≡ true = ground (arith, hi, y) in rw (a, b) refl
  | inr n ↦
      rw n (
        absorbed (leb g.from_day day && leb day g.to_day)
          (is_empty registry || str_eq reg registry))
]

abbrev day_point : ℕ → ℕ → ℕ → ℕ → DayPoint
day_point d a b c = record { day = d; pulls = a; bytes_total = b; errors = c }

same_point :
    (d : ℕ) {a b c x y z : ℕ} → a ≡ x → b ≡ y → c ≡ z → day_point d a b c ≡ day_point d x y z
same_point d e f g = rw (e, f, g) refl

filled-point : (p : Pick) (d : ℕ) (rows : List DailyStat) → filled p d rows ≡ point p d rows
unfolding filled
filled-point p d rows = elim (Bool-cases (any (picks p) rows)) [
  | inl y ↦ rw y refl
  | inr n ↦ rw n (
      same_point d (sym (none_picked (λ r. r.pulls) (picks p) rows n))
        (sym (none_picked (λ r. r.bytes_total) (picks p) rows n))
        (sym (none_picked (λ r. r.errors) (picks p) rows n)))
]

filled-counted :
    (d0 : ℕ) (t : Tables) (g : Range) (registry : Str) (d : ℕ)
    → Agree d0 t
    → d0 ≤ d
    → g.from_day ≤ d
    → d ≤ g.to_day
    → filled (grouped g registry d) d t.daily ≡ counted registry d t.events
filled-counted d0 t g registry d a late lo hi =
    filled-point (grouped g registry d) d t.daily
    ∙ same_point d (whole (λ r. r.pulls) ∙ a.pulls (on registry d) from)
        (whole (λ r. r.bytes_total) ∙ a.bytes (on registry d) from)
        (whole (λ r. r.errors) ∙ a.errors (on registry d) from)
  where
    whole :
        (f : DailyStat → ℕ)
        → total f (picks (grouped g registry d)) t.daily ≡ total f (picks (on registry d)) t.daily
    whole f =
        same_total f _ _ t.daily (λ r. grouped-on g registry d r.day r.registry r.repository lo hi)

    from : From d0 (on registry d)
    from day reg repo y = ground (arith, late, y)

all_counted :
    (d0 : ℕ) (t : Tables) (g : Range) (registry : Str) (n d : ℕ)
    → Agree d0 t
    → d0 ≤ d
    → g.from_day ≤ d
    → d + n ≤ suc g.to_day
    → map (λ x. filled (grouped g registry x) x t.daily) (days_from d n)
      ≡ map (λ x. counted registry x t.events) (days_from d n)
all_counted d0 t g registry zero d a late lo hi = refl
all_counted d0 t g registry (suc n) d a late lo hi =
    ap₂ (λ x xs. x ∷ xs) (filled-counted d0 t g registry d a late lo (omega (arith, hi)))
      (all_counted d0 t g registry n (suc d) a (omega (arith, late)) (omega (arith, lo))
        (omega (arith, hi)))

-- A range ends today and has as many days as it says, at least one and at most 366.
abbrev pub Whole : ℕ → Option Range → Type 0
Whole today none = Unit
Whole today (some g) =
    ((g.to_day ≡ today) × (g.from_day + g.days ≡ suc today)) × ((1 ≤ g.days) × (g.days ≤ 366))

range_of-Whole : (today : ℕ) (o : Option ℤ) → 366 ≤ today → Whole today (range_of today o)
range_of-Whole today none h = _
range_of-Whole today (some z) h = bounded z (Bool-cases (ltb_ℤ z (pos 1) || ltb_ℤ (pos 366) z))
  where
    bounded :
        (x : ℤ)
        → ((ltb_ℤ x (pos 1) || ltb_ℤ (pos 366) x) ≡ true)
          ⊎ ((ltb_ℤ x (pos 1) || ltb_ℤ (pos 366) x) ≡ false)
        → Whole today (range_of today (some x))
    bounded x (inl y) = rw y _
    bounded (negsuc n) (inr m) = absurd (ground (arith, m))
    bounded (pos n) (inr m) =
        let lo : 1 ≤ n = ground (arith, m) in
        let hi : n ≤ 366 = ground (arith, m) in rw m ((refl, omega (arith, h, lo, hi)), (lo, hi))

pub parse_range-Whole :
    (range : Str) (now : ℕ) → 366 ≤ day_of now → Whole (day_of now) (parse_range range now)
unfolding parse_range
parse_range-Whole range now h =
    let s = or_week (trim_space (to_lower range)) in
    elim (Bool-cases (not (has_suffix s (codes "d")))) [
      | inl y ↦ rw y _
      | inr n ↦ rw n (range_of-Whole (day_of now) (parse_int (take (length s - 1) s)) h)
    ]

-- On a day of at least a year after 1970, a range that is accepted is charted with one point for
-- each of its days, from the first one up to today, and each point has the pulls, bytes and errors
-- of the events of its day, and of the registry if one is named, as far back as the sums agree with
-- the events.
pub timeseries-Agree :
    (d0 : ℕ) (t : Tables) (now : ℕ) (range registry : Str) (g : Range)
    → Agree d0 t
    → 366 ≤ day_of now
    → parse_range range now ≡ some g
    → d0 ≤ g.from_day
    → (timeseries t true now range registry
        ≡ some (map (λ d. counted (trim_space registry) d t.events) (days_from g.from_day g.days)))
      × (((g.to_day ≡ day_of now) × (g.from_day + g.days ≡ suc (day_of now)))
          × ((1 ≤ g.days) × (g.days ≤ 366)))
unfolding timeseries
timeseries-Agree d0 t now range registry g a h e late =
    let w : Whole (day_of now) (some g) = rw e at (parse_range-Whole range now h) in
    (
      rw e (
          ap some (
            all_counted d0 t g (trim_space registry) g.days g.from_day a late (omega arith)
              (omega (arith, w.0.0, w.0.1)))),
      w,
    )
