-- ===== src/Config/Validate.antt =====
-- internal/config/config.go: `Validate`. `net/url` and the environment are parameters: what
-- `url.Parse` answers, if it does, and the value of a variable.
--
-- `Validate` stores each path prefix as it cleaned it up; the registries that it leaves behind are
-- the answer here.
pub mod Prefixes
pub mod Tests
use easy_docker_proxy.Base.{
  ℕ, Bool, true, false, not, ◌&&◌, ◌||◌, List, [], ◌∷◌, Option, none, some, if◌then◌else◌, any, Str,
  codes, is_empty, str_eq, has_prefix, to_lower, equal_fold, trim_space, trim_slashes, Dict, empty,
  insert, cut, ◌/◌, ◌^◌, ◌==◌,
}
use easy_docker_proxy.Net.{Ip, v4, v6}
use easy_docker_proxy.Acl.{uncomment}
use easy_docker_proxy.Proxy.Request.{split_host_port}
use easy_docker_proxy.Net.Parse.{parse_ip, parse_cidr}
use easy_docker_proxy.Config.{
  AuthType, token, anonymous, basic, AccessControlMode, whitelist, AccessControl, PullAuthMode,
  UpstreamAllowlist, RegistryConfig, Config, is_enabled,
}

pub data Error : Type 0 where
  no_registry mode_invalid whitelist_empty rule_empty rule_invalid name_missing name_duplicate :
      Error
  nothing_to_match prefix_empty prefix_taken upstream_missing upstream_invalid https_required :
      Error
  scheme_unsupported host_missing host_empty host_not_allowed auth_type_invalid default_unknown :
      Error
  admin_token_required log_level_invalid pull_auth_invalid : Error

pub data Result (A : Type 0) : Type 0 where
  ok : A → Result A
  err : Error → Result A

-- `Scheme`, `Host` and `Hostname()`.
pub record Url : Type 0 where
  pub scheme : Str
  pub host : Str
  pub hostname : Str

-- Nothing is wrong, or the error.
abbrev pub guard : Bool → Error → Option Error
guard true e = none
guard false e = some e

infixr 30 ◌then_check◌
abbrev pub ◌then_check◌ : Option Error → Option Error → Option Error
none then_check b = b
some e then_check b = some e

abbrev pub default_upstream_hosts : List Str
default_upstream_hosts =
    codes "registry-1.docker.io"
    ∷ codes "registry.docker.io"
    ∷ codes "auth.docker.io"
    ∷ codes "ghcr.io"
    ∷ codes "gcr.io"
    ∷ codes "k8s.gcr.io"
    ∷ codes "registry.k8s.io"
    ∷ codes "quay.io"
    ∷ codes "mcr.microsoft.com"
    ∷ codes "nvcr.io"
    ∷ codes "docker.elastic.co"
    ∷ codes "public.ecr.aws"
    ∷ []

abbrev pub or_hosts : List Str → List Str
or_hosts [] = default_upstream_hosts
or_hosts (h ∷ hosts) = h ∷ hosts

unfoldable pub validate_upstream_host : UpstreamAllowlist → Str → Option Error
validate_upstream_host a host =
    let h = to_lower (trim_space host) in
    if not (is_enabled a.enabled)
    then none
    else if is_empty h
    then some host_empty
    else guard (any (λ x. equal_fold (trim_space x) h) (or_hosts a.hosts)) host_not_allowed

abbrev pub clean_path_prefix : Str → Str
clean_path_prefix p = trim_slashes (to_lower (trim_space p))

abbrev pub is_set {ℓ} : {A : Type ℓ} → Option A → Bool
is_set none = false
is_set (some _) = true

abbrev pub with_prefix : Str → Result (Dict Str × List Str) → Result (Dict Str × List Str)
with_prefix p (ok (owners, ps)) = ok (owners, p ∷ ps)
with_prefix p (err e) = err e

-- The loop over the path prefixes of the registry `name`: who owns which, and the prefixes stored.
unfoldable pub claim_prefixes : Str → Dict Str → List Str → Result (Dict Str × List Str)
claim_prefixes name owners [] = ok (owners, [])
claim_prefixes name owners (raw ∷ ps) =
    let p = clean_path_prefix raw in
    let rest = claim_prefixes name (insert p name owners) ps in
    if is_empty p
    then err prefix_empty
    else if is_set (owners p)
    then err prefix_taken
    else with_prefix p rest

unfoldable pub check_ip_or_cidr : Str → Option Error
check_ip_or_cidr raw =
    let e = trim_space raw in
    let bare = uncomment e (cut b'#' e) in
    if is_empty e
    then some rule_empty
    else if is_empty bare
    then none
    else guard (is_set (parse_cidr bare) || is_set (parse_ip bare)) rule_invalid

-- The first error in a list of rules.
abbrev pub check_rules : List Str → Option Error
check_rules [] = none
check_rules (raw ∷ rules) = check_ip_or_cidr raw then_check check_rules rules

abbrev pub valid_mode : AccessControlMode → Bool
valid_mode (AccessControlMode.invalid s) = false
valid_mode _ = true

abbrev is_whitelist : AccessControlMode → Bool
is_whitelist whitelist = true
is_whitelist _ = false

abbrev no_rules : List Str → Bool
no_rules [] = true
no_rules (_ ∷ _) = false

unfoldable pub validate_access_control : AccessControl → Option Error
validate_access_control ac =
    guard (valid_mode ac.mode) mode_invalid
    then_check guard (not (is_whitelist ac.mode && no_rules ac.whitelist)) whitelist_empty
    then_check check_rules ac.whitelist
    then_check check_rules ac.blacklist

abbrev pub valid_auth : AuthType → Bool
valid_auth token = true
valid_auth anonymous = true
valid_auth basic = true
valid_auth _ = false

abbrev pub check_scheme : Bool → Str → Option Error
check_scheme insecure scheme =
    if str_eq scheme (codes "https")
    then none
    else if str_eq scheme (codes "http")
    then guard insecure https_required
    else some scheme_unsupported

abbrev pub check_url : Config → Option Url → Option Error
check_url cfg none = some upstream_invalid
check_url cfg (some u) =
    check_scheme cfg.allow_insecure_upstream (to_lower u.scheme)
    then_check guard (not (is_empty u.host)) host_missing
    then_check validate_upstream_host cfg.upstream_allowlist u.hostname

-- The checks of one registry before the loop over its path prefixes, and those after it.
abbrev pub check_before : Dict Bool → RegistryConfig → Option Error
check_before names r =
    guard (not (is_empty r.name)) name_missing
    then_check guard (not (is_set (names r.name))) name_duplicate
    then_check guard (not (no_rules r.hosts && no_rules r.path_prefixes)) nothing_to_match

abbrev pub check_after : (Str → Option Url) → Config → RegistryConfig → Option Error
check_after parse cfg r =
    guard (not (is_empty r.upstream)) upstream_missing
    then_check check_url cfg (parse r.upstream)
    then_check guard (valid_auth r.auth.type) auth_type_invalid

abbrev pub unless : {A : Type 0} → Option Error → Result A → Result A
unless none x = x
unless (some e) x = err e

abbrev pub stored :
    RegistryConfig
    → Option Error
    → Result (Dict Str × List Str)
    → Result (Dict Str × RegistryConfig)
stored r later (err e) = err e
stored r later (ok (owners, ps)) = unless later (ok (owners, record r { path_prefixes = ps }))

unfoldable pub check_registry :
    (Str → Option Url)
    → Config
    → Dict Bool
    → Dict Str
    → RegistryConfig
    → Result (Dict Str × RegistryConfig)
check_registry parse cfg names owners r =
    unless (check_before names r)
      (stored r (check_after parse cfg r) (claim_prefixes r.name owners r.path_prefixes))

abbrev pub with_registry :
    RegistryConfig
    → Result (Dict Bool × List RegistryConfig)
    → Result (Dict Bool × List RegistryConfig)
with_registry r (ok (names, regs)) = ok (names, r ∷ regs)
with_registry r (err e) = err e

-- What follows the check of one registry; `rest` is the loop over those after it.
abbrev pub next_registries :
    Result (Dict Str × RegistryConfig)
    → (Dict Str → Result (Dict Bool × List RegistryConfig))
    → Result (Dict Bool × List RegistryConfig)
next_registries (err e) rest = err e
next_registries (ok x) rest = with_registry x.1 (rest x.0)

-- The loop over the registries: the names, and the registries stored.
unfoldable pub check_registries :
    (Str → Option Url)
    → Config
    → Dict Bool
    → Dict Str
    → List RegistryConfig
    → Result (Dict Bool × List RegistryConfig)
check_registries parse cfg names owners [] = ok (names, [])
check_registries parse cfg names owners (r ∷ regs) =
    next_registries (check_registry parse cfg names owners r)
      (λ later. check_registries parse cfg (insert r.name true names) later regs)

abbrev is_loopback : Ip → Bool
is_loopback (v4 x) = x / 2 ^ 24 == 127
is_loopback (v6 x) = x == 1

abbrev loopback_host : Str → Option Ip → Bool
loopback_host host (some ip) = is_loopback ip
loopback_host host none = equal_fold host (codes "localhost")

abbrev loopback_text : Str → Bool
loopback_text host =
    if is_empty host || str_eq host (codes "0.0.0.0") || str_eq host (codes "::")
    then false
    else loopback_host host (parse_ip host)

abbrev loopback_split : Str → Option Str → Bool
loopback_split addr (some host) = loopback_text host
loopback_split addr none = if has_prefix addr (codes ":") then false else loopback_text addr

unfoldable pub is_loopback_addr : Str → Bool
is_loopback_addr addr = loopback_split addr (split_host_port addr)

abbrev pub valid_level : Str → Bool
valid_level s = str_eq s (codes "quiet") || str_eq s (codes "normal") || str_eq s (codes "debug")

abbrev pub valid_pull_mode : PullAuthMode → Bool
valid_pull_mode PullAuthMode.off = true
valid_pull_mode PullAuthMode.optional = true
valid_pull_mode PullAuthMode.required = true
valid_pull_mode _ = false

abbrev or_token_env : Str → Str
or_token_env s = if is_empty s then codes "PROXY_ADMIN_TOKEN" else s

-- What `Validate` checks once it knows the names of the registries.
abbrev pub check_rest : (Str → Str) → Config → Dict Bool → Option Error
check_rest env cfg names =
    guard (is_empty cfg.default_name || is_set (names cfg.default_name)) default_unknown
    then_check guard
        (is_loopback_addr cfg.server.admin_listen
          || not (is_empty (trim_space (env (or_token_env cfg.token_env)))))
        admin_token_required
    then_check guard (valid_level cfg.log_level) log_level_invalid
    then_check guard (valid_pull_mode cfg.pull_auth.mode) pull_auth_invalid

abbrev pub finish : (Str → Str) → Config → Result (Dict Bool × List RegistryConfig) → Result Config
finish env cfg (err e) = err e
finish env cfg (ok (names, regs)) =
    unless (check_rest env cfg names) (ok (record cfg { registries = regs }))

abbrev pub no_registries : List RegistryConfig → Bool
no_registries [] = true
no_registries (_ ∷ _) = false

unfoldable pub validate : (Str → Option Url) → (Str → Str) → Config → Result Config
validate parse env cfg =
    unless
      (guard (not (no_registries cfg.registries)) no_registry
        then_check validate_access_control cfg.access_control
        then_check check_rules cfg.trusted_proxies)
      (finish env cfg (check_registries parse cfg empty empty cfg.registries))
