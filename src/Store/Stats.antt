-- ===== src/Store/Stats.antt =====
-- internal/store/store.go: the pull events with their daily sums, `WriteBatch` and `PurgeExpired`.
--
-- Times are seconds since 1970, a day is its number since then: the texts of days sort as the
-- numbers do; 0 stands for a time that is not set. The numbers of deleted rows, which are only
-- logged, are left out. A transaction is carried out as a whole or not at all. The sums are far from the
-- bounds of an INTEGER and are not cut off.
pub mod Sums
pub mod Agree
pub mod Series
pub mod Queries
pub mod Top
pub mod Overview
pub mod Recent
pub mod Unique
pub mod Exact
pub mod Tests
mod QueryTests
use easy_docker_proxy.Base.{
  ℕ, ◌+◌, ◌-◌, ◌*◌, ◌/◌, Bool, true, false, not, ◌&&◌, List, [], ◌∷◌, ◌++◌, if◌then◌else◌, Str,
  codes, is_empty, str_eq, ltb, ◌==◌, length, select,
}
use easy_docker_proxy.Store.{Result, ok, err, database_failed}
use easy_docker_proxy.Record.Event.{Event, is_manifest, is_pull, is_error}

pub record DailyStat : Type 0 where
  pub day : ℕ
  pub registry : Str
  pub repository : Str
  pub pulls : ℕ
  pub bytes_total : ℕ
  pub errors : ℕ

pub record ClientStat : Type 0 where
  pub day : ℕ
  pub client_ip : Str
  pub pulls : ℕ
  pub bytes_total : ℕ

pub record Tables : Type 0 where
  pub events : List Event
  pub daily : List DailyStat
  pub clients : List ClientStat

abbrev pub seconds_of_day : ℕ
seconds_of_day = 86400

abbrev pub day_of : ℕ → ℕ
day_of ts = ts / seconds_of_day

abbrev pub or_text : Str → Str → Str
or_text d s = if is_empty s then d else s

-- The row of an event.
unfoldable pub stored : ℕ → Event → Event
stored now e = record e {
  ts = if e.ts == 0 then now else e.ts;
  repository = or_text (codes "-") e.repository;
  client_ip = or_text (codes "unknown") e.client_ip;
}

unfoldable pub pulls_of : Event → ℕ
pulls_of e = if is_pull e then 1 else 0

-- A failed blob is no error of the day.
unfoldable pub errors_of : Event → ℕ
errors_of e = if is_manifest e.event_type && is_error e then 1 else 0

abbrev pub same_key : DailyStat → DailyStat → Bool
same_key r d = r.day == d.day && (str_eq r.registry d.registry && str_eq r.repository d.repository)

abbrev pub merge : DailyStat → DailyStat → DailyStat
merge r d = record r {
  pulls = r.pulls + d.pulls;
  bytes_total = r.bytes_total + d.bytes_total;
  errors = r.errors + d.errors;
}

unfoldable pub upsert_daily : DailyStat → List DailyStat → List DailyStat
upsert_daily d [] = d ∷ []
upsert_daily d (r ∷ rows) =
    let rest = upsert_daily d rows in if same_key r d then merge r d ∷ rows else r ∷ rest

abbrev pub merge_client : ClientStat → ClientStat → ClientStat
merge_client r d = record r {
  pulls = r.pulls + d.pulls;
  bytes_total = r.bytes_total + d.bytes_total;
}

unfoldable pub upsert_client : ClientStat → List ClientStat → List ClientStat
upsert_client d [] = d ∷ []
upsert_client d (r ∷ rows) =
    let rest = upsert_client d rows in
    if r.day == d.day && str_eq r.client_ip d.client_ip then merge_client r d ∷ rows else r ∷ rest

abbrev pub daily_of : Event → Event → DailyStat
daily_of e s = record {
  day = day_of s.ts;
  registry = e.registry;
  repository = s.repository;
  pulls = pulls_of e;
  bytes_total = e.bytes;
  errors = errors_of e;
}

abbrev pub client_of : Event → Event → ClientStat
client_of e s = record {
  day = day_of s.ts;
  client_ip = s.client_ip;
  pulls = pulls_of e;
  bytes_total = e.bytes;
}

-- The body of the loop over the batch.
unfoldable pub write_event : ℕ → Event → Tables → Tables
write_event now e t =
    let s = stored now e in
    record {
      events = t.events ++ s ∷ [];
      daily = upsert_daily (daily_of e s) t.daily;
      clients = upsert_client (client_of e s) t.clients;
    }

unfoldable pub write_events : ℕ → List Event → Tables → Tables
write_events now [] t = t
write_events now (e ∷ es) t = write_events now es (write_event now e t)

unfoldable pub write_batch : Tables → Bool → ℕ → List Event → Tables × Result Unit
write_batch t up now [] = (t, ok _)
write_batch t up now (e ∷ es) =
    if not up then (t, err database_failed) else (write_events now (e ∷ es) t, ok _)

abbrev pub cutoff : ℕ → ℕ → ℕ
cutoff now days = now - days * seconds_of_day

abbrev pub purge_events : ℕ → Tables → Tables
purge_events before t = record t { events = select (λ e. not (ltb e.ts before)) t.events }

abbrev pub purge_daily : ℕ → Tables → Tables
purge_daily before t = record t { daily = select (λ r. not (ltb r.day before)) t.daily }

abbrev pub purge_clients : ℕ → Tables → Tables
purge_clients before t = record t { clients = select (λ r. not (ltb r.day before)) t.clients }

-- Each of the three statements may fail, and the ones before it have been carried out.
unfoldable pub purge_expired : ℕ → ℕ → Tables → ℕ → Bool → Bool → Bool → Tables × Result Unit
purge_expired event_days aggregate_days t now up second_up third_up =
    let agg_day = day_of (cutoff now aggregate_days) in
    let t1 = purge_events (cutoff now event_days) t in
    let t2 = purge_daily agg_day t1 in
    if not up
    then (t, err database_failed)
    else if not second_up
    then (t1, err database_failed)
    else if not third_up
    then (t2, err database_failed)
    else (purge_clients agg_day t2, ok _)

unfoldable pub count_events : Tables → Bool → Result ℕ
count_events t up = if not up then err database_failed else ok (length t.events)
