-- ===== src/Proxy/Redirects/Tests.antt =====
-- A registry whose layers are on another host.
use easy_docker_proxy.Base.{◌≡◌, refl, Str, codes, [], ◌∷◌, List, Option, some, trim_space}
use easy_docker_proxy.Config.Validate.Tests.{config}
use easy_docker_proxy.Net.{Ip, v4, contains}
use easy_docker_proxy.Net.Parse.{parse_ip}
use easy_docker_proxy.Proxy.Request.{Header}
use easy_docker_proxy.Proxy.Redirects.{
  Link, followed, not_public, ip4, redirect_policy, target_verdict, redirect_host_configured,
  require_public_redirect_host, is_public_redirect_ip, canonical_authority,
}

abbrev origin : Link
origin = record { scheme = codes "https"; hostname = codes "registry"; port = [] }

abbrev layers : Link
layers = record { scheme = codes "https"; hostname = codes "cdn"; port = codes "443" }

abbrev addresses : List Ip → Str → Option (List Ip)
addresses ips host = some ips

abbrev bearer : Header
bearer = (codes "Authorization", codes "Bearer t") ∷ []

verdicts :
    (redirect_policy
        (some origin)
        (config [] [])
        (addresses (v4 (ip4 8 8 8 8) ∷ []))
        (origin ∷ [])
        layers
        bearer
      ≡ ([], followed))
    × (redirect_policy
          (some origin)
          (config [] [])
          (addresses (v4 (ip4 10 0 0 8) ∷ []))
          (origin ∷ [])
          layers
          bearer
        ≡ ([], not_public))
unfolding redirect_policy target_verdict redirect_host_configured require_public_redirect_host
    is_public_redirect_ip canonical_authority contains parse_ip trim_space
verdicts = (refl, refl)
