-- ===== src/Config/Load.antt =====
-- internal/config/config.go: `ExpandEnv`, `Normalize` and `Load`. The file, the environment
-- (`os.LookupEnv`) and yaml.Unmarshal are parameters.
pub mod Defaults
pub mod Placeholders
pub mod Safe
pub mod Again
pub mod Tests
use easy_docker_proxy.Base.{
  ℕ, zero, suc, ◌+◌, ◌-◌, Bool, true, false, not, ◌&&◌, ◌||◌, List, [], ◌∷◌, ◌++◌, Option, none,
  some, if◌then◌else◌, Str, codes, is_empty, str_eq, length, map, cut, leb, ◌==◌,
}
use easy_docker_proxy.Base.Int.{ℤ, pos, ltb_ℤ}
use easy_docker_proxy.Config.{
  AuthType, AccessControlMode, PullAuthMode, RegistryConfig, ServerConfig, AccessControl,
  RateLimitConfig, StorageConfig, PullAuthConfig, UpstreamAllowlist, Config, is_enabled,
}
use easy_docker_proxy.Config.Validate.{Url, Error, Result, validate, default_upstream_hosts}
use easy_docker_proxy.Config.Validate

abbrev pub is_letter : ℕ → Bool
is_letter c = (leb b'A' c && leb c b'Z') || (leb b'a' c && leb c b'z') || c == b'_'

abbrev pub is_name_byte : ℕ → Bool
is_name_byte c = is_letter c || (leb b'0' c && leb c b'9')

-- The longest run of bytes of a name, and what follows it.
abbrev pub span_name : Str → Str × Str
span_name [] = ([], [])
span_name (c ∷ s) =
    let rest : Str × Str = span_name s in
    if is_name_byte c then (c ∷ rest.0, rest.1) else ([], c ∷ s)

-- A placeholder: its name, its default and how many bytes it has.
pub record Placeholder : Type 0 where
  pub name : Str
  pub default : Str
  pub bytes : ℕ

-- The end of a placeholder that begins with `${` and `name`.
abbrev closing : Str → Str × Option Str → Option Placeholder
closing name (d, none) = none
closing name (d, some rest) =
    some (record { name = name; default = d; bytes = length name + length d + 5 })

abbrev pub ending : Str → Str → Option Placeholder
ending name [] = none
ending name (c ∷ s) =
    if c == b'}'
    then some (record { name = name; default = []; bytes = length name + 3 })
    else if c == b':'
    then with_default s
    else none
  where
    with_default : Str → Option Placeholder
    with_default [] = none
    with_default (c ∷ s) = if c == b'-' then closing name (cut b'}' s) else none

abbrev pub starts_name : Str → Bool
starts_name [] = false
starts_name (c ∷ s) = is_letter c

-- `envPattern` at the front of a text.
unfoldable pub placeholder : Str → Option Placeholder
placeholder [] = none
placeholder (c ∷ []) = none
placeholder (c ∷ (x ∷ s)) =
    let parts = span_name s in
    if c == b'$' && (x == b'{' && starts_name s) then ending parts.0 parts.1 else none

abbrev nonempty_or : Str → Str → Str
nonempty_or v d = if not (is_empty v) then v else d

abbrev pub value_of : (Str → Option Str) → Str → Str → Str
value_of lookup name d = by (lookup name)
  where
    by : Option Str → Str
    by none = d
    by (some v) = nonempty_or v d

abbrev pub expanded : (Str → Option Str) → ℕ → (ℕ → Str) → Option Placeholder → Str
expanded lookup c rest none = c ∷ rest 0
expanded lookup c rest (some p) = value_of lookup p.name p.default ++ rest (p.bytes - 1)

-- `skip` bytes belong to a placeholder that has been replaced.
unfoldable pub expand : (Str → Option Str) → ℕ → Str → Str
expand lookup skip [] = []
expand lookup (suc skip) (c ∷ s) = expand lookup skip s
expand lookup zero (c ∷ s) = expanded lookup c (λ skip. expand lookup skip s) (placeholder (c ∷ s))

abbrev pub expand_env : (Str → Option Str) → Str → Str
expand_env lookup s = expand lookup 0 s

abbrev pub or_str : Str → Str → Str
or_str s d = if is_empty s then d else s

abbrev pub is_zero : ℤ → Bool
is_zero (pos zero) = true
is_zero _ = false

abbrev pub or_number : ℤ → ℤ → ℤ
or_number z d = if is_zero z then d else z

abbrev pub or_positive : ℤ → ℤ → ℤ
or_positive z d = if ltb_ℤ (pos 0) z then z else d

abbrev pub or_off : AccessControlMode → AccessControlMode
or_off AccessControlMode.unset = AccessControlMode.off
or_off m = m

abbrev pub pull_or_off : PullAuthMode → PullAuthMode
pull_or_off PullAuthMode.unset = PullAuthMode.off
pull_or_off m = m

abbrev pub or_token : AuthType → AuthType
or_token AuthType.unset = AuthType.token
or_token t = t

abbrev pub or_true : Option Bool → Option Bool
or_true none = some true
or_true (some b) = some b

abbrev pub hosts_or_default : Bool → List Str → List Str
hosts_or_default enabled [] = if enabled then default_upstream_hosts else []
hosts_or_default enabled (h ∷ hosts) = h ∷ hosts

abbrev pub normalize_registry : RegistryConfig → RegistryConfig
normalize_registry r = record r {
  auth = record r.auth { type = or_token r.auth.type };
  token_cache_ttl = or_positive r.token_cache_ttl (pos 3600);
  enabled = or_true r.enabled;
}

abbrev pub normalize_server : ServerConfig → ServerConfig
normalize_server s = record s {
  listen = or_str s.listen (codes ":5000");
  admin_listen = or_str s.admin_listen (codes "127.0.0.1:5001");
  read_timeout = or_number s.read_timeout (pos 60);
  idle_timeout = or_number s.idle_timeout (pos 120);
}

abbrev pub normalize_storage : StorageConfig → StorageConfig
normalize_storage s = record {
  driver = or_str s.driver (codes "sqlite");
  dsn =
      or_str s.dsn
        (codes "file:data/proxy.db?_pragma=busy_timeout(5000)&_pragma=journal_mode(WAL)");
  event_retention_days = or_positive s.event_retention_days (pos 30);
  aggregate_retention_days = or_positive s.aggregate_retention_days (pos 365);
}

abbrev pub normalize_allowlist : UpstreamAllowlist → UpstreamAllowlist
normalize_allowlist a = record {
  enabled = or_true a.enabled;
  hosts = hosts_or_default (is_enabled (or_true a.enabled)) a.hosts;
}

-- The thousandths of 20 are 20000.
unfoldable pub normalize : Config → Config
normalize cfg = record cfg {
  server = normalize_server cfg.server;
  log_level = or_str cfg.log_level (codes "normal");
  access_control = record cfg.access_control { mode = or_off cfg.access_control.mode };
  rate_limit = record cfg.rate_limit {
    per_ip_rps = or_positive cfg.rate_limit.per_ip_rps (pos 20000);
    per_ip_burst = or_positive cfg.rate_limit.per_ip_burst (pos 40);
  };
  token_env = or_str cfg.token_env (codes "PROXY_ADMIN_TOKEN");
  storage = normalize_storage cfg.storage;
  pull_auth = record {
    mode = pull_or_off cfg.pull_auth.mode;
    realm = or_str cfg.pull_auth.realm (codes "easy-docker-proxy");
  };
  upstream_allowlist = normalize_allowlist cfg.upstream_allowlist;
  registries = map normalize_registry cfg.registries;
}

pub data LoadResult : Type 0 where
  loaded : Config → LoadResult
  read_failed parse_failed : LoadResult
  rejected : Error → LoadResult

abbrev pub checked : Result Config → LoadResult
checked (Validate.ok cfg) = loaded cfg
checked (Validate.err e) = rejected e

-- The environment of `Validate` has "" for a variable that is not set.
abbrev pub getenv : (Str → Option Str) → Str → Str
getenv lookup name = value_of lookup name []

abbrev pub parsed : (Str → Option Url) → (Str → Option Str) → Option Config → LoadResult
parsed parse lookup none = parse_failed
parsed parse lookup (some cfg) = checked (validate parse (getenv lookup) (normalize cfg))

-- `some text` is what the file has, if it can be read.
unfoldable pub load :
    (Str → Option Url) → (Str → Option Str) → (Str → Option Config) → Option Str → LoadResult
load parse lookup unmarshal none = read_failed
load parse lookup unmarshal (some text) = parsed parse lookup (unmarshal (expand_env lookup text))
