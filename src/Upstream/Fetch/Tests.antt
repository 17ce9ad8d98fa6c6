-- ===== src/Upstream/Fetch/Tests.antt =====
-- A realm that redirects once, and then again and again.
use easy_docker_proxy.Base.{
  ℕ, ◌≤◌, ◌≡◌, refl, ◌⊎◌, List, [], ◌∷◌, Option, some, false, All, Str, arith, codes, str_eq,
  if◌then◌else◌, trim_space, length,
}
use easy_docker_proxy.Base.Int.{pos}
use easy_docker_proxy.Config.{Config, RegistryConfig}
use easy_docker_proxy.Config.Validate.{validate_upstream_host}
use easy_docker_proxy.Config.Validate.Tests.{config, registry}
use easy_docker_proxy.Config.Realm.{check_token_realm}
use easy_docker_proxy.Upstream.Tokens.{Cache, new_cache, get_token, token_key, is_valid}
use easy_docker_proxy.Upstream.Fetch.{Web, replied, moved, follow, fetch_token}
use easy_docker_proxy.Upstream.Fetch.Asked.{MayAsk, fetch_token-MayAsk}

abbrev hub : RegistryConfig
hub = registry (codes "hub") (codes "registry-1.docker.io") []

abbrev settings : Config
settings = config [] (hub ∷ [])

-- A URL is its host here, and a query adds nothing.
abbrev web : Web
web = record {
  parse = λ s. some (record { scheme = codes "https"; host = s; hostname = s });
  with_query = λ realm service scope. realm;
  answer = λ url.
      if str_eq url (codes "auth.docker.io")
      then moved (codes "quay.io")
      else if str_eq url (codes "quay.io")
      then replied 200
          (some (record { token = codes "t"; access_token = []; expires_in = pos 300 }))
      else moved (codes "auth.evil.io");
}

asks :
    ((fetch_token web 3 new_cache 0 0 (codes "auth.docker.io") [] (codes "s") hub (some settings)).1
      ≡ codes "auth.docker.io" ∷ codes "quay.io" ∷ [])
    × ((fetch_token web 3 new_cache 0 0 (codes "ghcr.io") [] (codes "s") hub (some settings)).1
        ≡ codes "ghcr.io" ∷ [])
    × ((fetch_token web 3 new_cache 0 0 (codes "evil.io") [] (codes "s") hub (some settings)).1
        ≡ [])
unfolding fetch_token follow get_token check_token_realm validate_upstream_host trim_space
asks = (refl, refl, refl)

abbrev fetched : ℕ → (Cache × Option Str) × List Str
fetched rounds =
    fetch_token web rounds new_cache 0 0 (codes "auth.docker.io") [] (codes "s") hub (some settings)

fetch_token-MayAsk_example :
    All (MayAsk web (some settings) hub.upstream) (fetched 5).1
    × (length (fetched 5).1 ≤ 3)
    × ((is_valid 0 (new_cache.items (token_key hub (codes "auth.docker.io") [] (codes "s")))
          ≡ false)
        ⊎ ((fetched 5).1 ≡ []))
    × (fetched 6 ≡ fetched 5)
fetch_token-MayAsk_example =
    fetch_token-MayAsk web 5 new_cache 0 0 (codes "auth.docker.io") [] (codes "s") hub
      (some settings) (λ realm service scope. refl) (omega arith)
