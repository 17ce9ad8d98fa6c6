-- ===== src/Store/Stats/Agree.antt =====
-- The daily sums against the events.
use easy_docker_proxy.Base.{
  ℕ, ◌+◌, ◌*◌, All, ◌≤◌, ◌≡◌, refl, sym, ap₂, ◌∙◌, Bool, true, false, not, List, [], ◌∷◌, ◌++◌,
  if◌then◌else◌, Str, ltb, arith,
}
use easy_docker_proxy.Record.Event.{Event, is_pull, is_error}
use easy_docker_proxy.Store.Stats.{
  Tables, stored, pulls_of, errors_of, daily_of, write_event, write_events, write_batch,
  purge_events, purge_daily, purge_clients, purge_expired, cutoff, DailyStat, merge, upsert_daily,
  day_of, seconds_of_day,
}
use easy_docker_proxy.Store.{Result, ok, err, database_failed}
use easy_docker_proxy.Store.Stats.Sums.{
  Pick, picks, picks_event, total, total-append, total-upsert_daily, total-select,
}

-- The test picks no day before `d`.
abbrev pub From : ℕ → Pick → Type 0
From d p = (day : ℕ) (registry repository : Str) → p day registry repository ≡ true → d ≤ day

-- From the day `d` on, the sums are those of the events that are kept.
pub record Agree (d : ℕ) (t : Tables) : Type 0 where
  pub pulls :
      (p : Pick)
      → From d p
      → total (λ r. r.pulls) (picks p) t.daily ≡ total pulls_of (picks_event p) t.events
  pub bytes :
      (p : Pick)
      → From d p
      → total (λ r. r.bytes_total) (picks p) t.daily ≡ total (λ e. e.bytes) (picks_event p) t.events
  pub errors :
      (p : Pick)
      → From d p
      → total (λ r. r.errors) (picks p) t.daily ≡ total errors_of (picks_event p) t.events

-- One measure of rows and events, at one write.
written :
    (f : DailyStat → ℕ) (g : Event → ℕ) (p : Pick) (e s : Event) (rows : List DailyStat)
    (es : List Event)
    → ((r : DailyStat) → f (merge r (daily_of e s)) ≡ f r + f (daily_of e s))
    → f (daily_of e s) ≡ g s
    → e.registry ≡ s.registry
    → total f (picks p) rows ≡ total g (picks_event p) es
    → total f (picks p) (upsert_daily (daily_of e s) rows) ≡ total g (picks_event p) (es ++ s ∷ [])
written f g p e s rows es add same reg h =
    let up = total-upsert_daily f p (daily_of e s) rows add in
    let app = total-append g (picks_event p) es (s ∷ []) in
    let one : (if picks p (daily_of e s) then f (daily_of e s) else 0)
        ≡ (if picks_event p s then g s else 0) =
      ap₂ (λ r n. if p (day_of s.ts) r s.repository then n else 0) reg same in
    omega (arith, up, app, one, h)

write_event-Agree : (d now : ℕ) (e : Event) (t : Tables) → Agree d t → Agree d (write_event now e t)
unfolding write_event stored pulls_of errors_of is_pull is_error
write_event-Agree d now e t a = record {
  pulls = λ p k.
      written (λ r. r.pulls) pulls_of p e (stored now e) t.daily t.events (λ r. refl) refl refl
        (a.pulls p k);
  bytes = λ p k.
      written (λ r. r.bytes_total) (λ x. x.bytes) p e (stored now e) t.daily t.events (λ r. refl)
        refl refl (a.bytes p k);
  errors = λ p k.
      written (λ r. r.errors) errors_of p e (stored now e) t.daily t.events (λ r. refl) refl refl
        (a.errors p k);
}

write_events-Agree :
    (d now : ℕ) (es : List Event) (t : Tables) → Agree d t → Agree d (write_events now es t)
unfolding write_events
write_events-Agree d now [] t a = a
write_events-Agree d now (e ∷ es) t a =
    write_events-Agree d now es (write_event now e t) (write_event-Agree d now e t a)

-- Rows and events of days before `d` are not picked.
purge_events-Agree :
    (d before : ℕ) (t : Tables)
    → before ≤ d * seconds_of_day
    → Agree d t
    → Agree d (purge_events before t)
purge_events-Agree d before t b a = record {
  pulls = λ p k. a.pulls p k ∙ sym (same pulls_of p k);
  bytes = λ p k. a.bytes p k ∙ sym (same (λ e. e.bytes) p k);
  errors = λ p k. a.errors p k ∙ sym (same errors_of p k);
}
  where
    late : (ts : ℕ) → d ≤ day_of ts → not (ltb ts before) ≡ true
    late ts h = let le : before ≤ ts = omega (arith, b, h) in ground (arith, le)

    same :
        (g : Event → ℕ) (p : Pick)
        → From d p
        → total g (picks_event p) (purge_events before t).events ≡ total g (picks_event p) t.events
    same g p k =
        total-select g (picks_event p) (λ e. not (ltb e.ts before)) t.events
          (λ e y. late e.ts (k (day_of e.ts) e.registry e.repository y))

purge_daily-Agree :
    (d before : ℕ) (t : Tables) → before ≤ d → Agree d t → Agree d (purge_daily before t)
purge_daily-Agree d before t b a = record {
  pulls = λ p k. same (λ r. r.pulls) p k ∙ a.pulls p k;
  bytes = λ p k. same (λ r. r.bytes_total) p k ∙ a.bytes p k;
  errors = λ p k. same (λ r. r.errors) p k ∙ a.errors p k;
}
  where
    late : (day : ℕ) → d ≤ day → not (ltb day before) ≡ true
    late day h = ground (arith, b, h)

    same :
        (f : DailyStat → ℕ) (p : Pick)
        → From d p
        → total f (picks p) (purge_daily before t).daily ≡ total f (picks p) t.daily
    same f p k =
        total-select f (picks p) (λ r. not (ltb r.day before)) t.daily
          (λ r y. late r.day (k r.day r.registry r.repository y))

Agree-both :
    (d : ℕ) (b : Bool) (x y : Tables × Result Unit)
    → Agree d x.0
    → Agree d y.0
    → Agree d (if b then x else y).0
Agree-both d true x y p q = p
Agree-both d false x y p q = q

write_batch-Agree :
    (d : ℕ) (t : Tables) (up : Bool) (now : ℕ) (es : List Event)
    → Agree d t
    → Agree d (write_batch t up now es).0
unfolding write_batch
write_batch-Agree d t up now [] a = a
write_batch-Agree d t up now (e ∷ es) a =
    Agree-both d (not up) (t, err database_failed) (write_events now (e ∷ es) t, ok _) a
      (write_events-Agree d now (e ∷ es) t a)

purge_expired-Agree :
    (event_days aggregate_days d : ℕ) (t : Tables) (now : ℕ) (up second_up third_up : Bool)
    → cutoff now event_days ≤ d * seconds_of_day
    → day_of (cutoff now aggregate_days) ≤ d
    → Agree d t
    → Agree d (purge_expired event_days aggregate_days t now up second_up third_up).0
unfolding purge_expired
purge_expired-Agree event_days aggregate_days d t now up second_up third_up b c a =
    let agg_day = day_of (cutoff now aggregate_days) in
    let t1 = purge_events (cutoff now event_days) t in
    let t2 = purge_daily agg_day t1 in
    let a1 = purge_events-Agree d (cutoff now event_days) t b a in
    let a2 = purge_daily-Agree d agg_day t1 c a1 in
    Agree-both d (not up) (t, err database_failed) _ a
      (Agree-both d (not second_up) (t1, err database_failed) _ a1
        (Agree-both d (not third_up) (t2, err database_failed) (purge_clients agg_day t2, ok _) a2
          (record { pulls = a2.pulls; bytes = a2.bytes; errors = a2.errors })))

-- What happens to the tables.
pub data Op : Type 0 where
  batch_op : Bool → ℕ → List Event → Op
  purge_op : ℕ → Bool → Bool → Bool → Op

abbrev pub apply : ℕ → ℕ → Tables → Op → Tables
apply event_days aggregate_days t (batch_op up now es) = (write_batch t up now es).0
apply event_days aggregate_days t (purge_op now up second_up third_up) =
    (purge_expired event_days aggregate_days t now up second_up third_up).0

abbrev pub apply_all : ℕ → ℕ → Tables → List Op → Tables
apply_all event_days aggregate_days t [] = t
apply_all event_days aggregate_days t (op ∷ ops) =
    apply_all event_days aggregate_days (apply event_days aggregate_days t op) ops

-- A purge removes nothing of the day `d` and of later days.
abbrev pub Spares : ℕ → ℕ → ℕ → Op → Type 0
Spares event_days aggregate_days d (batch_op up now es) = Unit
Spares event_days aggregate_days d (purge_op now up second_up third_up) =
    (cutoff now event_days ≤ d * seconds_of_day) × (day_of (cutoff now aggregate_days) ≤ d)

apply_all-Agree :
    (event_days aggregate_days d : ℕ) (t : Tables) (ops : List Op)
    → All (Spares event_days aggregate_days d) ops
    → Agree d t
    → Agree d (apply_all event_days aggregate_days t ops)
apply_all-Agree event_days aggregate_days d t [] s a = a
apply_all-Agree event_days aggregate_days d t (batch_op up now es ∷ ops) s a =
    apply_all-Agree event_days aggregate_days d (write_batch t up now es).0 ops (s.1)
      (write_batch-Agree d t up now es a)
apply_all-Agree event_days aggregate_days d t (purge_op now up second_up third_up ∷ ops) s a =
    apply_all-Agree event_days aggregate_days d
      (purge_expired event_days aggregate_days t now up second_up third_up).0 ops (s.1)
      (purge_expired-Agree event_days aggregate_days d t now up second_up third_up (s.0.0) (s.0.1)
        a)

abbrev pub no_tables : Tables
no_tables = record { events = []; daily = []; clients = [] }

-- After any sequence of batches and purges, the pulls, bytes and errors of the daily rows add up,
-- for every choice of days, registries and repositories, to those of the events that are kept, as
-- far back as no purge has reached.
pub sums-Agree :
    (event_days aggregate_days d : ℕ) (ops : List Op)
    → All (Spares event_days aggregate_days d) ops
    → Agree d (apply_all event_days aggregate_days no_tables ops)
sums-Agree event_days aggregate_days d ops s =
    apply_all-Agree event_days aggregate_days d no_tables ops s
      (record { pulls = λ p k. refl; bytes = λ p k. refl; errors = λ p k. refl })
