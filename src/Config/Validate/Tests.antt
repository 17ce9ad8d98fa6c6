-- ===== src/Config/Validate/Tests.antt =====
-- Validation at concrete configurations; the URL parser takes "https" for granted.
use easy_docker_proxy.Base.{
  ◌≡◌, refl, Str, codes, some, none, true, false, [], ◌∷◌, List, Option, trim_space, trim_slashes,
}
use easy_docker_proxy.Base.Int.{pos}
use easy_docker_proxy.Config.{Config, RegistryConfig, anonymous}
use easy_docker_proxy.Config
use easy_docker_proxy.Net.Parse.{parse_ip, parse_cidr}
use easy_docker_proxy.Proxy.Request.{split_host_port}
use easy_docker_proxy.Config.Validate.{
  Url, err, prefix_taken, host_not_allowed, admin_token_required, validate, check_registries,
  check_registry, claim_prefixes, validate_upstream_host, validate_access_control, check_ip_or_cidr,
  is_loopback_addr,
}
use easy_docker_proxy.Config.Validate.Prefixes.{Distinct, all_prefixes, validate-Distinct}

abbrev parse : Str → Option Url
parse s = some (record { scheme = codes "https"; host = s; hostname = s })

abbrev pub env : Str → Str
env name = []

abbrev pub registry : Str → Str → List Str → RegistryConfig
registry name upstream prefixes = record {
  name = name;
  hosts = [];
  path_prefixes = prefixes;
  upstream = upstream;
  auth = record { type = anonymous; username = []; password = [] };
  insecure_skip_verify = false;
  token_cache_ttl = pos 0;
  enabled = some true;
}

abbrev pub config : Str → List RegistryConfig → Config
config listen regs = record {
  server = record {
    listen = [];
    admin_listen = listen;
    read_timeout = pos 0;
    write_timeout = pos 0;
    idle_timeout = pos 0;
  };
  default_name = [];
  log_level = codes "normal";
  trusted_proxies = codes "10.0.0.0/8" ∷ [];
  access_control = record { mode = Config.AccessControlMode.off; whitelist = []; blacklist = [] };
  rate_limit = record { enabled = false; per_ip_rps = pos 0; per_ip_burst = pos 0 };
  storage = record {
    driver = [];
    dsn = [];
    event_retention_days = pos 0;
    aggregate_retention_days = pos 0;
  };
  token_env = [];
  metrics_enabled = false;
  pull_auth = record { mode = Config.PullAuthMode.off; realm = [] };
  upstream_allowlist = record { enabled = none; hosts = [] };
  registries = regs;
  allow_insecure_upstream = false;
}

abbrev ghcr : Str → RegistryConfig
ghcr prefix = registry (codes "ghcr") (codes "ghcr.io") (prefix ∷ [])

abbrev quay : Str → RegistryConfig
quay prefix = registry (codes "quay") (codes "quay.io") (prefix ∷ [])

abbrev loopback : Str
loopback = codes "127.0.0.1:5001"

verdicts :
    (validate parse env (config loopback (ghcr (codes " /GHCR.io/") ∷ quay (codes "ghcr.io") ∷ []))
      ≡ err prefix_taken)
    × (validate parse env (config (codes ":5001") (ghcr (codes "ghcr.io") ∷ []))
        ≡ err admin_token_required)
    × (validate parse env
          (config loopback (registry (codes "x") (codes "10.0.0.1") (codes "x" ∷ []) ∷ []))
        ≡ err host_not_allowed)
unfolding validate check_registries check_registry claim_prefixes validate_upstream_host
    validate_access_control check_ip_or_cidr is_loopback_addr trim_space trim_slashes parse_ip
    parse_cidr split_host_port
verdicts = (refl, refl, refl)

validate-Distinct_example : Distinct (
    all_prefixes
      (config loopback (ghcr (codes "ghcr.io") ∷ quay (codes "quay.io") ∷ [])).registries)
unfolding validate check_registries check_registry claim_prefixes validate_upstream_host
    validate_access_control check_ip_or_cidr is_loopback_addr trim_space trim_slashes parse_ip
    parse_cidr split_host_port
validate-Distinct_example =
    validate-Distinct parse env
      (config loopback (ghcr (codes " /GHCR.io/") ∷ quay (codes "quay.io") ∷ []))
      (config loopback (ghcr (codes "ghcr.io") ∷ quay (codes "quay.io") ∷ [])) refl
