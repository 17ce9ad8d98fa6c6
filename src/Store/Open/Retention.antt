-- ===== src/Store/Open/Retention.antt =====
-- A store that is open keeps what is of today.
use easy_docker_proxy.Base.{ℕ, ◌*◌, ◌≤◌, ◌≡◌, subst, Option, none, some, List, All, arith}
use easy_docker_proxy.Base.Int.{ℤ, pos, negsuc}
use easy_docker_proxy.Config.{StorageConfig}
use easy_docker_proxy.Store.Stats.{day_of, cutoff, seconds_of_day}
use easy_docker_proxy.Store.Stats.Agree.{
  Op, batch_op, purge_op, Spares, apply_all, no_tables, Agree, sums-Agree,
}
use easy_docker_proxy.Store.Open.{
  System, Opened, OpenError, OpenResult, opened, refused, days_or, finished, failure, open_store,
}

days_or-positive : (d : ℕ) (z : ℤ) → 1 ≤ d → 1 ≤ days_or d z
days_or-positive d (pos n) h = ground (arith, h)
days_or-positive d (negsuc n) h = ground (arith, h)

abbrev Keeps : OpenResult → Type 0
Keeps (opened o) = (1 ≤ o.event_days) × (1 ≤ o.aggregate_days)
Keeps (refused e) = Unit

finished-Keeps : (cfg : StorageConfig) (o : Option OpenError) → Keeps (finished cfg o)
finished-Keeps cfg (some e) = _
finished-Keeps cfg none = (
  days_or-positive 30 cfg.event_retention_days (omega arith),
  days_or-positive 365 cfg.aggregate_retention_days (omega arith),
)

open_store-Keeps : (s : System) (cfg : StorageConfig) → Keeps (open_store s cfg)
unfolding open_store
open_store-Keeps s cfg = finished-Keeps cfg (failure s cfg)

-- Every purge of the list runs on the day or before.
abbrev pub By : ℕ → Op → Type 0
By d (batch_op up now es) = Unit
By d (purge_op now up second_up third_up) = day_of now ≤ d

spares :
    (event_days aggregate_days d : ℕ) (op : Op)
    → 1 ≤ event_days
    → 1 ≤ aggregate_days
    → By d op
    → Spares event_days aggregate_days d op
spares event_days aggregate_days d (batch_op up now es) e a b = _
spares event_days aggregate_days d (purge_op now up second_up third_up) e a b =
    (kept, omega (arith, b))
  where
    kept : cutoff now event_days ≤ d * seconds_of_day
    kept = omega (arith, e, b)

all_spared :
    (event_days aggregate_days d : ℕ) (ops : List Op)
    → 1 ≤ event_days
    → 1 ≤ aggregate_days
    → All (By d) ops
    → All (Spares event_days aggregate_days d) ops
all_spared event_days aggregate_days d List.[] e a b = _
all_spared event_days aggregate_days d (List.◌∷◌ op ops) e a b = (
  spares event_days aggregate_days d op e a (b.0),
  all_spared event_days aggregate_days d ops e a (b.1),
)

-- Whatever retention is configured: after any batches, and purges on the day `d` or before, the
-- daily sums of a store that could be opened are those of its events from the day `d` on. So a
-- purge leaves the sums of its own day alone.
pub open_store-Agree :
    (s : System) (cfg : StorageConfig) (o : Opened) (d : ℕ) (ops : List Op)
    → open_store s cfg ≡ opened o
    → All (By d) ops
    → Agree d (apply_all o.event_days o.aggregate_days no_tables ops)
open_store-Agree s cfg o d ops e by =
    let k : Keeps (opened o) = subst Keeps e (open_store-Keeps s cfg) in
    sums-Agree o.event_days o.aggregate_days d ops
      (all_spared o.event_days o.aggregate_days d ops (k.0) (k.1) by)
