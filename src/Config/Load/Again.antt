-- ===== src/Config/Load/Again.antt =====
-- `Normalize` a second time changes nothing.
use easy_docker_proxy.Base.{◌≡◌, refl, ap₂, List, [], ◌∷◌, map, codes, arith}
use easy_docker_proxy.Base.Int.{pos}
use easy_docker_proxy.Config.{
  RegistryConfig, ServerConfig, StorageConfig, UpstreamAllowlist, Config, is_enabled,
}
use easy_docker_proxy.Config.Load.{
  or_true, normalize_registry, normalize_server, normalize_storage, normalize_allowlist, normalize,
}
use easy_docker_proxy.Config.Load.Defaults.{
  or_str-or_str, or_number-or_number, or_positive-or_positive, or_off-or_off,
  pull_or_off-pull_or_off, or_token-or_token, or_true-or_true, hosts_or_default-hosts_or_default,
}

registry_again :
    (r : RegistryConfig) → normalize_registry (normalize_registry r) ≡ normalize_registry r
registry_again r =
    rw
      (
        or_token-or_token r.auth.type,
        or_positive-or_positive r.token_cache_ttl (pos 3600) (ground arith),
        or_true-or_true r.enabled,
      )
      refl

registries_again :
    (rs : List RegistryConfig)
    → map normalize_registry (map normalize_registry rs) ≡ map normalize_registry rs
registries_again [] = refl
registries_again (r ∷ rs) = ap₂ (λ x xs. x ∷ xs) (registry_again r) (registries_again rs)

server_again : (s : ServerConfig) → normalize_server (normalize_server s) ≡ normalize_server s
server_again s =
    rw
      (
        or_str-or_str s.listen (codes ":5000"),
        or_str-or_str s.admin_listen (codes "127.0.0.1:5001"),
        or_number-or_number s.read_timeout (pos 60),
        or_number-or_number s.idle_timeout (pos 120),
      )
      refl

storage_again : (s : StorageConfig) → normalize_storage (normalize_storage s) ≡ normalize_storage s
storage_again s =
    rw
      (
        or_str-or_str s.driver (codes "sqlite"),
        or_str-or_str s.dsn
            (codes "file:data/proxy.db?_pragma=busy_timeout(5000)&_pragma=journal_mode(WAL)"),
        or_positive-or_positive s.event_retention_days (pos 30) (ground arith),
        or_positive-or_positive s.aggregate_retention_days (pos 365) (ground arith),
      )
      refl

allowlist_again :
    (a : UpstreamAllowlist) → normalize_allowlist (normalize_allowlist a) ≡ normalize_allowlist a
allowlist_again a =
    rw
      (
        or_true-or_true a.enabled,
        hosts_or_default-hosts_or_default (is_enabled (or_true a.enabled)) a.hosts,
      )
      refl

-- `Normalize` is done once and for all: a second run leaves every field as it is.
pub normalize-normalize : (c : Config) → normalize (normalize c) ≡ normalize c
unfolding normalize
normalize-normalize c =
    rw
      (
        server_again c.server,
        or_str-or_str c.log_level (codes "normal"),
        or_off-or_off c.access_control.mode,
        or_positive-or_positive c.rate_limit.per_ip_rps (pos 20000) (ground arith),
        or_positive-or_positive c.rate_limit.per_ip_burst (pos 40) (ground arith),
        or_str-or_str c.token_env (codes "PROXY_ADMIN_TOKEN"),
        storage_again c.storage,
        pull_or_off-pull_or_off c.pull_auth.mode,
        or_str-or_str c.pull_auth.realm (codes "easy-docker-proxy"),
        allowlist_again c.upstream_allowlist,
        registries_again c.registries,
      )
      refl
