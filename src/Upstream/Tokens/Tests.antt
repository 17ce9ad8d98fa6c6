-- ===== src/Upstream/Tokens/Tests.antt =====
-- The token cache at concrete replies.
use easy_docker_proxy.Base.{◌+◌, ◌*◌, ◌≡◌, refl, true, false, [], codes, some}
use easy_docker_proxy.Base.Int.{ℤ, pos}
use easy_docker_proxy.Config.{RegistryConfig, token}
use easy_docker_proxy.Upstream.Tokens.{
  Cache, Reply, new_cache, peek, invalidate_scope, get_token, second,
}

abbrev hub : RegistryConfig
hub = record {
  name = codes "hub";
  hosts = [];
  path_prefixes = [];
  upstream = codes "https://registry-1.docker.io";
  auth = record { type = token; username = []; password = [] };
  insecure_skip_verify = false;
  token_cache_ttl = pos 0;
  enabled = some true;
}

abbrev reply : ℤ → Reply
reply n = record { token = []; access_token = codes "tok"; expires_in = n }

abbrev after_fetch : ℤ → Cache
after_fetch n =
    (get_token new_cache true 0 5 (codes "r") (codes "s") (codes "pull") hub (some (reply n))).0

peeks :
    (peek (after_fetch (pos 300)) 6 (codes "hub") (codes "pull") ≡ codes "tok")
    × (peek (after_fetch (pos 300)) (5 + 240 * second) (codes "hub") (codes "pull") ≡ [])
    × (peek (after_fetch (pos 1)) 5 (codes "hub") (codes "pull") ≡ [])
    × (peek
          (invalidate_scope (after_fetch (pos 300)) (codes "hub") (codes "pull"))
          6
          (codes "hub")
          (codes "pull")
        ≡ [])
unfolding peek get_token invalidate_scope
peeks = (refl, refl, refl, refl)
