-- ===== src/Upstream/Challenge/Tests.antt =====
-- Challenges as registries write them.
use easy_docker_proxy.Base.{◌≡◌, refl, codes, [], ◌++◌, trim_space}
use easy_docker_proxy.Upstream.Challenge.{Challenge, nothing, commit, parse_bearer_challenge}
use easy_docker_proxy.Upstream.Challenge.RoundTrip.{fields, parse_bearer_challenge-fields}

abbrev hub : Challenge
hub = record {
  realm = codes "https://auth.docker.io/token";
  service = codes "registry.docker.io";
  scope = codes "repository:library/alpine:pull,push";
}

others :
    (parse_bearer_challenge (codes "Basic realm=\"x\"") ≡ nothing)
    × (parse_bearer_challenge (codes "bearer Realm = \"https://a/t\" , error=\"x\"")
        ≡ record { realm = codes "https://a/t"; service = []; scope = [] })
unfolding parse_bearer_challenge commit trim_space
others = (refl, refl)

parse_bearer_challenge-fields_example : parse_bearer_challenge (codes "Bearer " ++ fields hub) ≡ hub
unfolding trim_space
parse_bearer_challenge-fields_example =
    parse_bearer_challenge-fields hub (record { unquoted = refl; trimmed = refl })
      (record { unquoted = refl; trimmed = refl }) (record { unquoted = refl; trimmed = refl })
