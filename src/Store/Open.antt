-- ===== src/Store/Open.antt =====
-- internal/store/store.go: `Open`, `ensureDSNDir` and `QueryDaily`. What the operating system and
-- the driver do is a parameter: whether a step succeeds, and `filepath.Dir`.
pub mod Retention
mod Tests
use easy_docker_proxy.Base.{
  ℕ, Bool, true, false, not, ◌&&◌, ◌||◌, List, [], ◌∷◌, Option, none, some, if◌then◌else◌, Str,
  codes, is_empty, str_eq, has_prefix, to_lower, trim_space, before, select, ◌==◌,
}
use easy_docker_proxy.Base.Int.{ℤ, pos, pos_part, ltb_ℤ}
use easy_docker_proxy.Http.{trim_prefix}
use easy_docker_proxy.Config.{StorageConfig}
use easy_docker_proxy.Store.Sql.{order_by}
use easy_docker_proxy.Store.Stats.{Tables, DailyStat}

pub record System : Type 0 where
  pub dir : Str → Str
  pub make_dir : Str → Bool
  pub opens : Str → Bool
  pub pings : Bool
  pub sets_pragma : Bool
  pub migrates : Bool

pub record Opened : Type 0 where
  pub dsn : Str
  pub event_days : ℕ
  pub aggregate_days : ℕ

pub data OpenError : Type 0 where
  driver_not_supported dir_failed open_failed ping_failed pragma_failed migrate_failed : OpenError

pub data OpenResult : Type 0 where
  opened : Opened → OpenResult
  refused : OpenError → OpenResult

abbrev or_text : Str → Str → Str
or_text d s = if is_empty s then d else s

abbrev pub path_of : Str → Str
path_of dsn = before b'?' (trim_prefix dsn (codes "file:"))

abbrev in_memory : Str → Bool
in_memory path = is_empty path || has_prefix path (codes ":memory:")

-- `ensureDSNDir`
unfoldable pub ensure_dsn_dir : System → Str → Bool
ensure_dsn_dir s dsn =
    let path = path_of dsn in
    let dir = s.dir path in
    if in_memory path
    then true
    else if str_eq dir (codes ".") || is_empty dir
    then true
    else s.make_dir dir

abbrev pub days_or : ℕ → ℤ → ℕ
days_or d z = if ltb_ℤ (pos 0) z then pos_part z else d

abbrev pub dsn_of : StorageConfig → Str
dsn_of cfg =
    or_text (codes "file:data/proxy.db?_pragma=busy_timeout(5000)&_pragma=journal_mode(WAL)")
      cfg.dsn

abbrev pub opened_with : StorageConfig → Opened
opened_with cfg = record {
  dsn = dsn_of cfg;
  event_days = days_or 30 cfg.event_retention_days;
  aggregate_days = days_or 365 cfg.aggregate_retention_days;
}

-- The first step that fails; a database that is open by then is closed again.
unfoldable pub failure : System → StorageConfig → Option OpenError
failure s cfg =
    let driver = or_text (codes "sqlite") (to_lower (trim_space cfg.driver)) in
    if not (str_eq driver (codes "sqlite"))
    then some driver_not_supported
    else if not (ensure_dsn_dir s (dsn_of cfg))
    then some dir_failed
    else if not (s.opens (dsn_of cfg))
    then some open_failed
    else if not s.pings
    then some ping_failed
    else if not s.sets_pragma
    then some pragma_failed
    else if not s.migrates
    then some migrate_failed
    else none

abbrev pub finished : StorageConfig → Option OpenError → OpenResult
finished cfg (some e) = refused e
finished cfg none = opened (opened_with cfg)

-- `Open`
unfoldable pub open_store : System → StorageConfig → OpenResult
open_store s cfg = finished cfg (failure s cfg)

unfoldable pub query_daily : Tables → Bool → ℕ → Str → Option (List DailyStat)
query_daily t up day registry =
    let rows =
      select (λ r. r.day == day && (is_empty registry || str_eq r.registry registry)) t.daily in
    if not up then none else some (order_by (λ r. r.pulls) (λ r. r.bytes_total) rows)
