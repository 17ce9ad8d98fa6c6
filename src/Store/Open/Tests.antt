-- ===== src/Store/Open/Tests.antt =====
-- A store whose retention is not set.
use easy_docker_proxy.Base.{◌≡◌, refl, true, false, List, [], ◌∷◌, codes, trim_space, arith}
use easy_docker_proxy.Base.Int.{pos, negsuc}
use easy_docker_proxy.Config.{StorageConfig}
use easy_docker_proxy.Store.Stats.Tests.{pulled}
use easy_docker_proxy.Store.Stats.Agree.{Op, batch_op, purge_op, apply_all, no_tables, Agree}
use easy_docker_proxy.Store.Open.{
  System, opened, refused, driver_not_supported, ping_failed, open_store, failure, opened_with,
  ensure_dsn_dir,
}
use easy_docker_proxy.Store.Open.Retention.{open_store-Agree}

abbrev system : System
system = record {
  dir = λ path. codes "data";
  make_dir = λ dir. true;
  opens = λ dsn. true;
  pings = true;
  sets_pragma = true;
  migrates = true;
}

abbrev storage : StorageConfig
storage = record {
  driver = codes " SQLite";
  dsn = codes "file:data/x.db?a=b";
  event_retention_days = pos 0;
  aggregate_retention_days = negsuc 4;
}

opens :
    (open_store system storage ≡ opened (opened_with storage))
    × (open_store system (record storage { driver = codes "mysql" }) ≡ refused driver_not_supported)
    × (open_store (record system { pings = false }) storage ≡ refused ping_failed)
unfolding open_store failure ensure_dsn_dir trim_space
opens = (refl, refl, refl)

abbrev ops : List Op
ops = batch_op true 864060 (pulled ∷ []) ∷ purge_op 864080 true true true ∷ []

open_store-Agree_example : Agree 10 (apply_all 30 365 no_tables ops)
open_store-Agree_example =
    open_store-Agree system storage (opened_with storage) 10 ops (opens.0) (_, (omega arith, _))
