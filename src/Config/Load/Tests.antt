-- ===== src/Config/Load/Tests.antt =====
-- A file with a placeholder, and what is loaded from it.
use easy_docker_proxy.Base.{
  ◌≡◌, Bool, sym, ap, refl, [], ◌∷◌, ◌++◌, Option, none, some, true, false, Str, codes, str_eq,
  if◌then◌else◌, trim_space, trim_slashes,
}
use easy_docker_proxy.Base.Int.{pos}
use easy_docker_proxy.Config.{Config}
use easy_docker_proxy.Net.Parse.{parse_ip, parse_cidr}
use easy_docker_proxy.Proxy.Request.{split_host_port}
use easy_docker_proxy.Config.Validate.{
  Url, validate, check_registries, check_registry, claim_prefixes, validate_upstream_host,
  validate_access_control, check_ip_or_cidr, is_loopback_addr,
}
use easy_docker_proxy.Config.Validate.Tests.{config, registry}
use easy_docker_proxy.Config.Load.{loaded, expand, placeholder, expand_env, normalize, load}
use easy_docker_proxy.Config.Load.Defaults.{IsComplete, normalize-IsComplete}
use easy_docker_proxy.Config.Load.Placeholders.{IsValue, expand_env-placeholder}

abbrev pub lookup : Str → Option Str
lookup name =
    if str_eq name (codes "HOST")
    then some (codes "ghcr.io")
    else if str_eq name (codes "BLANK")
    then some []
    else none

placeholders :
    (expand_env lookup (codes "a ${HOST} ${BLANK:-b} ${NONE} $HOST ${1} ${HOST")
      ≡ codes "a ghcr.io b  $HOST ${1} ${HOST")
    × (expand_env lookup (codes "${HOST:-x}${NONE:-}$${HOST}") ≡ codes "ghcr.io$ghcr.io")
unfolding expand placeholder
placeholders = (refl, refl)

expand_env-placeholder_example :
    (v : Str) × IsValue (lookup (codes "NONE")) (codes "quay.io") v
    × (expand_env lookup (
          codes "url: "
          ++ (b'$'
              ∷ (b'{'
                  ∷ (codes "NONE" ++ (b':' ∷ (b'-' ∷ (codes "quay.io" ++ (b'}' ∷ codes "/"))))))))
        ≡ codes "url: " ++ (v ++ expand_env lookup (codes "/")))
expand_env-placeholder_example =
    expand_env-placeholder lookup (codes "url: ") (codes "NONE") (codes "quay.io") (codes "/") refl
      refl refl

abbrev pub parse : Str → Option Url
parse s = some (record { scheme = codes "HTTPS"; host = s; hostname = s })

abbrev pub file : Config
file = config [] (registry (codes "gh") (codes "ghcr.io") (codes "GHCR.io/" ∷ []) ∷ [])

abbrev pub unmarshal : Str → Option Config
unmarshal s = if str_eq s (codes "ghcr.io") then some file else none

abbrev pub result : Config
result = record (normalize file) {
  registries =
      record (registry (codes "gh") (codes "ghcr.io") (codes "ghcr.io" ∷ [])) {
        token_cache_ttl = pos 3600;
      }
      ∷ [];
}

pub loads : load parse lookup unmarshal (some (codes "${HOST}")) ≡ loaded result
unfolding load expand placeholder normalize validate check_registries check_registry claim_prefixes
    validate_upstream_host validate_access_control check_ip_or_cidr is_loopback_addr split_host_port
    parse_ip parse_cidr trim_space trim_slashes
loads = refl

normalize-IsComplete_example : IsComplete (normalize file)
normalize-IsComplete_example = normalize-IsComplete file

abbrev insecure : Option Config → Bool
insecure none = false
insecure (some c) = c.allow_insecure_upstream

pub secure : (s : Str) (c : Config) → unmarshal s ≡ some c → c.allow_insecure_upstream ≡ false
secure s c e = at (str_eq s (codes "ghcr.io")) e
  where
    at : (b : Bool) → (if b then some file else none) ≡ some c → c.allow_insecure_upstream ≡ false
    at true e = sym (ap insecure e)
    at false e = sym (ap insecure e)
