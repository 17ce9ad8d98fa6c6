-- ===== src/Config.antt =====
-- internal/config/config.go: the configuration structs. A string type with declared constants is
-- a data type with one constructor for each constant, one for "" and one for any other text; a
-- `*bool` is an `Option Bool`. `per_ip_rps`, a float64, is counted in thousandths.
pub mod Validate
pub mod Load
pub mod Realm
pub mod Copy
use easy_docker_proxy.Base.{Bool, true, List, Option, none, some, Str}
use easy_docker_proxy.Base.Int.{ℤ}

pub data AuthType : Type 0 where
  unset token anonymous basic : AuthType
  invalid : Str → AuthType

pub record AuthConfig : Type 0 where
  pub type : AuthType
  pub username : Str
  pub password : Str

pub record RegistryConfig : Type 0 where
  pub name : Str
  pub hosts : List Str
  pub path_prefixes : List Str
  pub upstream : Str
  pub auth : AuthConfig
  pub insecure_skip_verify : Bool
  pub token_cache_ttl : ℤ
  pub enabled : Option Bool

-- `IsEnabled`, of a registry and of the allowlist: nil means enabled.
abbrev pub is_enabled : Option Bool → Bool
is_enabled none = true
is_enabled (some b) = b

pub data AccessControlMode : Type 0 where
  unset off whitelist blacklist : AccessControlMode
  invalid : Str → AccessControlMode

pub record AccessControl : Type 0 where
  pub mode : AccessControlMode
  pub whitelist : List Str
  pub blacklist : List Str

pub record RateLimitConfig : Type 0 where
  pub enabled : Bool
  pub per_ip_rps : ℤ
  pub per_ip_burst : ℤ

pub data PullAuthMode : Type 0 where
  unset off optional required : PullAuthMode
  invalid : Str → PullAuthMode

pub record PullAuthConfig : Type 0 where
  pub mode : PullAuthMode
  pub realm : Str

pub record UpstreamAllowlist : Type 0 where
  pub enabled : Option Bool
  pub hosts : List Str

pub record ServerConfig : Type 0 where
  pub listen : Str
  pub admin_listen : Str
  pub read_timeout : ℤ
  pub write_timeout : ℤ
  pub idle_timeout : ℤ

pub record StorageConfig : Type 0 where
  pub driver : Str
  pub dsn : Str
  pub event_retention_days : ℤ
  pub aggregate_retention_days : ℤ

-- `default_name` is the field `Default`, and `metrics_enabled` the one field of `Metrics`.
pub record Config : Type 0 where
  pub server : ServerConfig
  pub default_name : Str
  pub log_level : Str
  pub trusted_proxies : List Str
  pub access_control : AccessControl
  pub rate_limit : RateLimitConfig
  pub storage : StorageConfig
  pub token_env : Str
  pub metrics_enabled : Bool
  pub pull_auth : PullAuthConfig
  pub upstream_allowlist : UpstreamAllowlist
  pub registries : List RegistryConfig
  pub allow_insecure_upstream : Bool
