-- ===== src/Metrics.antt =====
-- internal/metrics/metrics.go: the counters. They are uint64 and wrap around. The text that
-- `Handler` writes of them is not here.
use easy_docker_proxy.Base.{
  ℕ, suc, ◌+◌, ◌%◌, ◌^◌, ◌==◌, ◌&&◌, leb, ltb, Option, none, some, ◌++◌, ◌∷◌, if◌then◌else◌, Str,
  codes, is_empty, Dict, empty, insert,
}

pub record Collector : Type 0 where
  pub requests : Dict ℕ
  pub bytes_total : ℕ
  pub events_written : ℕ
  pub events_dropped : ℕ

abbrev pub new : Collector
new = record { requests = empty; bytes_total = 0; events_written = 0; events_dropped = 0 }

abbrev pub wrap : ℕ → ℕ
wrap n = n % 2 ^ 64

abbrev pub or_else : Str → Str → Str
or_else d s = if is_empty s then d else s

unfoldable pub key : Str → Str → Str
key registry cls = or_else (codes "unknown") registry ++ b'|' ∷ or_else (codes "other") cls

-- A counter that is not there yet is made at 0.
abbrev pub count : Option ℕ → ℕ
count none = 0
count (some n) = n

unfoldable pub inc_request : Collector → Str → Str → Collector
inc_request c registry cls =
    let k = key registry cls in
    record c { requests = insert k (wrap (suc (count (c.requests k)))) c.requests }

-- `n` is never negative in the program; 0 changes nothing either way.
unfoldable pub add_bytes : Collector → ℕ → Collector
add_bytes c n = record c { bytes_total = wrap (c.bytes_total + n) }

unfoldable pub set_event_stats : Collector → ℕ → ℕ → Collector
set_event_stats c written dropped = record c { events_written = written; events_dropped = dropped }

unfoldable pub inc_events_written : Collector → ℕ → Collector
inc_events_written c n = record c { events_written = wrap (c.events_written + n) }

unfoldable pub inc_events_dropped : Collector → ℕ → Collector
inc_events_dropped c n = record c { events_dropped = wrap (c.events_dropped + n) }

unfoldable pub class_from_status : ℕ → Str
class_from_status status =
    if leb 200 status && ltb status 400
    then codes "ok"
    else if status == 403
    then codes "denied"
    else if status == 429
    then codes "ratelimit"
    else if leb 400 status
    then codes "error"
    else codes "other"
