-- ===== src/Config/Realm.antt =====
-- internal/config/config.go: `CheckTokenRealm`. `url.Parse` is a parameter, as in Validate; the
-- configuration may be nil.
pub mod Accepted
use easy_docker_proxy.Base.{
  Bool, true, false, not, ◌&&◌, ◌||◌, Option, none, some, if◌then◌else◌, Str, codes, is_empty,
  str_eq, to_lower, equal_fold, trim_space,
}
use easy_docker_proxy.Config.{Config}
use easy_docker_proxy.Config.Validate.{
  Error, Url, check_scheme, guard, ◌then_check◌, validate_upstream_host, upstream_invalid,
  host_missing,
}

abbrev pub allows_http : Option Config → Bool
allows_http none = false
allows_http (some cfg) = cfg.allow_insecure_upstream

abbrev pub host_of : Url → Str
host_of u = to_lower (trim_space u.hostname)

-- `validateUpstreamHost` with a nil configuration has nothing to refuse.
abbrev pub allowed_host : Option Config → Str → Option Error
allowed_host none host = none
allowed_host (some cfg) host = validate_upstream_host cfg.upstream_allowlist host

-- The host of the registry's own upstream, if that parses.
abbrev pub is_host_of : Option Url → Str → Bool
is_host_of none host = false
is_host_of (some u) host = equal_fold (trim_space u.hostname) host

abbrev pub own_host : (Str → Option Url) → Str → Str → Bool
own_host parse upstream host = not (is_empty upstream) && is_host_of (parse upstream) host

abbrev pub check_realm_url : (Str → Option Url) → Option Config → Str → Option Url → Option Error
check_realm_url parse cfg upstream none = some upstream_invalid
check_realm_url parse cfg upstream (some u) =
    guard (not (is_empty u.host)) upstream_invalid
    then_check check_scheme (allows_http cfg) (to_lower u.scheme)
    then_check guard (not (is_empty (host_of u))) host_missing
    then_check (if own_host parse upstream (host_of u) then none else allowed_host cfg (host_of u))

unfoldable pub check_token_realm : (Str → Option Url) → Option Config → Str → Str → Option Error
check_token_realm parse cfg realm upstream = check_realm_url parse cfg upstream (parse realm)
