-- ===== src/Store/Stats/Recent.antt =====
-- The lists of recent events and errors.
use easy_docker_proxy.Base.{◌≤◌, ◌≡◌, refl, Bool, true, not, ◌||◌, List, some, select, arith}
use easy_docker_proxy.Base.Int.{ℤ}
use easy_docker_proxy.Store.Sql.{limited}
use easy_docker_proxy.Store.Sql.Order.{IsTop, take-IsTop}
use easy_docker_proxy.Store.Sql.Limits.{limited-bounds}
use easy_docker_proxy.Store.Stats.{Tables}
use easy_docker_proxy.Store.Stats.Queries.{EventRow, event_rows, has_failed, query_events}

-- The events that are asked for: all of them, or those that failed.
abbrev pub asked : Bool → Tables → List EventRow
asked errors_only t = select (λ r. not errors_only || has_failed r.event) (event_rows 1 t.events)

-- While the database works, the list has the newest of the events that are asked for, the later
-- row first where two have the same time: each is one of them, they are at most as many as the
-- limit, which is between 1 and 200, and one that is missing is older than all that are listed,
-- which then are as many as the limit.
pub query_events-IsTop :
    (t : Tables) (limit : ℤ) (errors_only : Bool)
    → (out : List EventRow) × (query_events t true limit errors_only ≡ some out)
      × IsTop (λ r. r.event.ts) (λ r. r.id) (limited 50 200 limit) (asked errors_only t) out
      × (1 ≤ limited 50 200 limit)
      × (limited 50 200 limit ≤ 200)
unfolding query_events
query_events-IsTop t limit errors_only =
    let bounds = limited-bounds 50 200 limit (omega arith) (omega arith) in
    (
      _,
      refl,
      take-IsTop (λ r. r.event.ts) (λ r. r.id) (limited 50 200 limit) (asked errors_only t),
      bounds.0,
      bounds.1,
    )
