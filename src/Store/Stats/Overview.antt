-- ===== src/Store/Stats/Overview.antt =====
-- `Summary` against the events, and its parts against each other.
use easy_docker_proxy.Base.{
  ℕ, suc, ◌+◌, ◌≤◌, ◌≡◌, refl, ap, ◌∙◌, Bool, true, false, ◌&&◌, List, [], ◌∷◌, Bool-cases, inl,
  inr, some, Str, str_eq, str_eq_iff, All, map, leb, ltb, arith,
}
use easy_docker_proxy.Record.Event.{Event}
use easy_docker_proxy.Store.Sql.{group_by}
use easy_docker_proxy.Store.Sql.Order.{All-order_by}
use easy_docker_proxy.Store.Sql.Groups.{keys, keys-Once, row-In-keys, group_by-made}
use easy_docker_proxy.Store.Sql.Totals.{
  sum_over, sum_over-total, sum_over-map, sum_over-order_by, same_sum,
}
use easy_docker_proxy.Store.Stats.{Tables, DailyStat, pulls_of, errors_of, day_of}
use easy_docker_proxy.Store.Stats.Sums.{Pick, picks, picks_event, total, same_total}
use easy_docker_proxy.Store.Stats.Agree.{Agree, From}
use easy_docker_proxy.Store.Stats.Exact.{on, Whole, parse_range-Whole}
use easy_docker_proxy.Store.Stats.Series.{Range, parse_range}
use easy_docker_proxy.Store.Stats.Queries.{
  Sums, Summary, overview_of, RegistryShare, Ratio, ratio, in_query, of_registry, share_row,
  share_rows, with_shares, registry_share, sum_daily, summary, today_only,
}

-- What the events that a test picks add up to.
abbrev pub event_sums : Pick → List Event → Sums
event_sums p es = record {
  pulls = total pulls_of (picks_event p) es;
  bytes_total = total (λ e. e.bytes) (picks_event p) es;
  errors = total errors_of (picks_event p) es;
}

-- From the first day up to the last one, both included.
abbrev pub within : Range → Pick
within g day reg repo = leb g.from_day day && leb day g.to_day

abbrev pub within_of : Range → Str → Pick
within_of g k day reg repo = within g day reg repo && str_eq reg k

event_sums-same :
    (p q : Pick) (es : List Event)
    → ((day : ℕ) (reg repo : Str) → p day reg repo ≡ q day reg repo)
    → event_sums p es ≡ event_sums q es
event_sums-same p q es h =
    let same : (e : Event) → picks_event p e ≡ picks_event q e =
      λ e. h (day_of e.ts) e.registry e.repository in
    rw
      (
        same_total pulls_of (picks_event p) (picks_event q) es same,
        same_total (λ e. e.bytes) (picks_event p) (picks_event q) es same,
        same_total errors_of (picks_event p) (picks_event q) es same,
      )
      refl

and_true : (b : Bool) → (b && true) ≡ b
and_true true = refl
and_true false = refl

in_query-within :
    (g : Range) (es : List Event) → event_sums (in_query g []) es ≡ event_sums (within g) es
in_query-within g es =
    event_sums-same (in_query g []) (within g) es
      (λ day reg repo. and_true (leb g.from_day day && leb day g.to_day))

in_query-on :
    (d : ℕ) (es : List Event) → event_sums (in_query (today_only d) []) es ≡ event_sums (on [] d) es
in_query-on d es =
    event_sums-same (in_query (today_only d) []) (on [] d) es (λ day reg repo. ground arith)

of_registry-within_of :
    (g : Range) (k : Str) (es : List Event)
    → event_sums (of_registry g k) es ≡ event_sums (within_of g k) es
of_registry-within_of g k es = event_sums-same (of_registry g k) (within_of g k) es (λ day reg repo.
    ap (λ b. b && str_eq reg k) (and_true (leb g.from_day day && leb day g.to_day)))

-- The groups of a measure add up to the rows of the range.
sum_over-rows :
    (f : DailyStat → ℕ) (h : RegistryShare → ℕ) (t : Tables) (g : Range)
    → ((k : Str) → h (share_row t g k) ≡ total f (picks (of_registry g k)) t.daily)
    → sum_over h (group_by str_eq (λ r. r.registry) (share_row t g) (picks (in_query g [])) t.daily)
      ≡ total f (picks (in_query g [])) t.daily
unfolding group_by
sum_over-rows f h t g e =
    let p : DailyStat → Bool = picks (in_query g []) in
    let key : DailyStat → Str = λ r. r.registry in
    let ks : List Str = keys str_eq str_eq_iff key (share_row t g) p t.daily in
    sum_over-map h (share_row t g) ks
    ∙ (same_sum (λ k. h (share_row t g k)) (λ k. total f (picks (of_registry g k)) t.daily) ks e
        ∙ sum_over-total str_eq str_eq_iff f key p t.daily ks
            (keys-Once str_eq str_eq_iff key (share_row t g) p t.daily)
            (row-In-keys str_eq str_eq_iff key (share_row t g) p t.daily))

sum_over-share_rows :
    (f : DailyStat → ℕ) (h : RegistryShare → ℕ) (t : Tables) (g : Range)
    → ((k : Str) → h (share_row t g k) ≡ total f (picks (of_registry g k)) t.daily)
    → sum_over h (share_rows t g) ≡ total f (picks (in_query g [])) t.daily
sum_over-share_rows f h t g e =
    sum_over-order_by (λ s. s.pulls) (λ s. s.bytes_total) h _ ∙ sum_over-rows f h t g e

-- Between 0 and 1.
abbrev pub IsFraction : Ratio → Type 0
IsFraction r = (r.num ≤ r.den) × (1 ≤ r.den)

abbrev pub sums_of : RegistryShare → Sums
sums_of r = record { pulls = r.pulls; bytes_total = r.bytes_total; errors = r.errors }

abbrev AreFractions : RegistryShare → Type 0
AreFractions r = IsFraction r.error_rate × (IsFraction r.pull_share × IsFraction r.bytes_share)

-- The registries share what the range has.
pub record AreShares (g : Range) (es : List Event) (s : Sums) (rs : List RegistryShare)
    : Type 0 where
  pub pulls : sum_over (λ r. r.pulls) rs ≡ s.pulls
  pub bytes : sum_over (λ r. r.bytes_total) rs ≡ s.bytes_total
  pub errors : sum_over (λ r. r.errors) rs ≡ s.errors
  pub own : All (λ r. sums_of r ≡ event_sums (within_of g r.registry) es) rs
  pub fractions : All AreFractions rs

pub record IsOverview (g : Range) (now : ℕ) (es : List Event) (s : Summary) : Type 0 where
  pub today : s.today ≡ event_sums (on [] (day_of now)) es
  pub in_range : s.in_range ≡ event_sums (within g) es
  pub rate : IsFraction s.error_rate
  pub shares : AreShares g es s.in_range s.by_registry
  pub first_day : s.from_day ≡ g.from_day
  pub last_day : (s.to_day ≡ g.to_day) × (g.to_day ≡ day_of now)
  pub days : (g.from_day + g.days ≡ suc (day_of now)) × (1 ≤ g.days) × (g.days ≤ 366)

ratio-IsFraction : (a b : ℕ) → a ≤ b → IsFraction (ratio a b)
ratio-IsFraction a b le = elim (Bool-cases (ltb 0 b)) [
  | inl y ↦ rw y (le, ground (arith, y))
  | inr n ↦ rw n (omega arith, omega arith)
]

errors_part : (a b : ℕ) → IsFraction (ratio b (a + b))
errors_part a b = ratio-IsFraction b (a + b) (omega arith)

abbrev three_sums : ℕ → ℕ → ℕ → Sums
three_sums a b c = record { pulls = a; bytes_total = b; errors = c }

same_sums : {a b c x y z : ℕ} → a ≡ x → b ≡ y → c ≡ z → three_sums a b c ≡ three_sums x y z
same_sums e f h = rw (e, f, h) refl

-- Sums of rows over a choice of days and registries are those of the events.
rows_as_events :
    (d0 : ℕ) (t : Tables) (p : Pick)
    → Agree d0 t
    → From d0 p
    → three_sums
        (total (λ r. r.pulls) (picks p) t.daily)
        (total (λ r. r.bytes_total) (picks p) t.daily)
        (total (λ r. r.errors) (picks p) t.daily)
      ≡ three_sums
          (total pulls_of (picks_event p) t.events)
          (total (λ e. e.bytes) (picks_event p) t.events)
          (total errors_of (picks_event p) t.events)
rows_as_events d0 t p a from = same_sums (a.pulls p from) (a.bytes p from) (a.errors p from)

in_query-From : (d0 : ℕ) (g : Range) → d0 ≤ g.from_day → From d0 (in_query g [])
in_query-From d0 g late day reg repo y =
    let from : leb g.from_day day ≡ true = ground (arith, y) in ground (arith, from, late)

of_registry-From : (d0 : ℕ) (g : Range) (k : Str) → d0 ≤ g.from_day → From d0 (of_registry g k)
of_registry-From d0 g k late day reg repo y =
    let from : leb g.from_day day ≡ true = ground (arith, y) in ground (arith, from, late)

sum_daily-event_sums :
    (d0 : ℕ) (t : Tables) (g : Range)
    → Agree d0 t
    → d0 ≤ g.from_day
    → sum_daily t g ≡ event_sums (in_query g []) t.events
unfolding sum_daily
sum_daily-event_sums d0 t g a late = rows_as_events d0 t (in_query g []) a (in_query-From d0 g late)

module _ (d0 : ℕ) (t : Tables) (g : Range) (a : Agree d0 t) (late : d0 ≤ g.from_day) where
  -- Before the shares are set, and with them.
  abbrev Own : RegistryShare → Type 0
  Own r = (sums_of r ≡ event_sums (within_of g r.registry) t.events) × IsFraction r.error_rate

  made : All Own (share_rows t g)
  made =
      All-order_by (λ s. s.pulls) (λ s. s.bytes_total) Own _
        (group_by-made str_eq str_eq_iff (λ r. r.registry) (share_row t g) (picks (in_query g []))
          Own t.daily
          (λ k. (
            rows_as_events d0 t (of_registry g k) a (of_registry-From d0 g k late)
                ∙ of_registry-within_of g k t.events,
            errors_part (share_row t g k).pulls (share_row t g k).errors,
          )))

  AreFractions-with_shares :
      (p b : ℕ) (rs : List RegistryShare)
      → sum_over (λ r. r.pulls) rs ≤ p
      → sum_over (λ r. r.bytes_total) rs ≤ b
      → All Own rs
      → All
          (λ r. sums_of r ≡ event_sums (within_of g r.registry) t.events)
          (map (with_shares p b) rs)
        × All AreFractions (map (with_shares p b) rs)
  AreFractions-with_shares p b [] u v o = (_, _)
  AreFractions-with_shares p b (r ∷ rs) u v o =
      let rest = AreFractions-with_shares p b rs (omega (arith, u)) (omega (arith, v)) (o.1) in
      (
        (o.0.0, rest.0),
        (
          (
            o.0.1,
            (
              ratio-IsFraction r.pulls p (omega (arith, u)),
              ratio-IsFraction r.bytes_total b (omega (arith, v)),
            ),
          ),
          rest.1,
        ),
      )

  registry_share-AreShares : AreShares g t.events (sum_daily t g) (registry_share t g)
  unfolding registry_share sum_daily
  registry_share-AreShares =
      let out = share_rows t g in
      let p = sum_over (λ s. s.pulls) out in
      let b = sum_over (λ s. s.bytes_total) out in
      let set = AreFractions-with_shares p b out (omega arith) (omega arith) made in
      record {
        pulls =
            sum_over-map (λ r. r.pulls) (with_shares p b) out
            ∙ sum_over-share_rows (λ r. r.pulls) (λ r. r.pulls) t g (λ k. refl);
        bytes =
            sum_over-map (λ r. r.bytes_total) (with_shares p b) out
            ∙ sum_over-share_rows (λ r. r.bytes_total) (λ r. r.bytes_total) t g (λ k. refl);
        errors =
            sum_over-map (λ r. r.errors) (with_shares p b) out
            ∙ sum_over-share_rows (λ r. r.errors) (λ r. r.errors) t g (λ k. refl);
        own = set.0;
        fractions = set.1;
      }

-- On a day of at least a year after 1970, for a range that is accepted, and where the daily sums
-- cover its days and today, the overview has the pulls, bytes and errors of today's events and of
-- those of the range, which ends today and has the number of days that it says, from 1 to 366; the
-- registries have those of their own events, and theirs add up to what the range has; and all
-- rates and shares are fractions between 0 and 1.
pub summary-IsOverview :
    (d0 : ℕ) (t : Tables) (now : ℕ) (range : Str) (g : Range)
    → Agree d0 t
    → 366 ≤ day_of now
    → parse_range range now ≡ some g
    → d0 ≤ g.from_day
    → d0 ≤ day_of now
    → (s : Summary) × (summary t true now range ≡ some s) × IsOverview g now t.events s
unfolding summary sum_daily
summary-IsOverview d0 t now range g a year e late today =
    let w : Whole (day_of now) (some g) = rw e at (parse_range-Whole range now year) in
    (
      overview_of t range now g,
      rw e refl,
      record {
        today =
            sum_daily-event_sums d0 t (today_only (day_of now)) a today
            ∙ in_query-on (day_of now) t.events;
        in_range = sum_daily-event_sums d0 t g a late ∙ in_query-within g t.events;
        rate = errors_part (sum_daily t g).pulls (sum_daily t g).errors;
        shares = registry_share-AreShares d0 t g a late;
        first_day = refl;
        last_day = (refl, w.0.0);
        days = (w.0.1, w.1.0, w.1.1);
      },
    )
