-- ===== src/Proxy/Path/Tests.antt =====
-- Paths at concrete inputs.
use easy_docker_proxy.Base.{codes, ◌≡◌, refl, some, none, false, [], trim_slashes, ◌↔◌}
use easy_docker_proxy.Record.Event.{manifest, tags}
use easy_docker_proxy.Proxy.Path.Submatch.{RefPath, find_ref_iff}
use easy_docker_proxy.Proxy.Path.Strip.{manifests, strip-Recorded}
use easy_docker_proxy.Proxy.Path.{
  find_ref, find_tags, classify_path, extract_repo, strip_repo_path_prefix, single_joining_slash,
  is_registry_path,
}

classes :
    (classify_path (codes "/v2/library/nginx/manifests/latest")
      ≡ some (record { event_type = manifest; repo = codes "library/nginx"; ref = codes "latest" }))
    × (classify_path (codes "/v2/a/tags/list")
        ≡ some (record { event_type = tags; repo = codes "a"; ref = [] }))
    × (classify_path (codes "/v2/a/manifests/") ≡ none)
    × (classify_path (codes "/v2//manifests/x") ≡ none)
    × (classify_path (codes "/v2/a/b/manifests/manifests/x")
        ≡ some (record { event_type = manifest; repo = codes "a/b/manifests"; ref = codes "x" }))
    × (extract_repo (codes "/v2/o/r/blobs/sha256:1") ≡ codes "o/r")
    × (is_registry_path (codes "/v2/") ≡ false)
unfolding classify_path find_ref find_tags extract_repo is_registry_path
classes = (refl, refl, refl, refl, refl, refl, refl)

stripped :
    (strip_repo_path_prefix (codes "/v2/ghcr.io/owner/app/manifests/v1") (codes "ghcr.io")
      ≡ codes "/v2/owner/app/manifests/v1")
    × (strip_repo_path_prefix (codes "/v2/library/nginx/manifests/latest") (codes "ghcr.io")
        ≡ codes "/v2/library/nginx/manifests/latest")
    × (strip_repo_path_prefix (codes "/v2/GHCR.io") (codes "ghcr.io") ≡ codes "/v2")
    × (single_joining_slash (codes "/base/") (codes "/v2/a") ≡ codes "/base/v2/a")
    × (single_joining_slash (codes "") (codes "v2") ≡ codes "/v2")
unfolding strip_repo_path_prefix single_joining_slash trim_slashes
stripped = (refl, refl, refl, refl, refl)

abbrev scoped :
    RefPath
      (codes "manifests")
      (codes "/v2/ghcr.io/owner/app/manifests/v1")
      (codes "ghcr.io/owner/app")
      (codes "v1")
scoped = record { splits = refl; named = refl; given = refl; one_segment = refl }

find_ref_iff_example :
    (find_ref (codes "manifests") (codes "/v2/a/manifests/v1") ≡ some (codes "a", codes "v1"))
    ↔ RefPath (codes "manifests") (codes "/v2/a/manifests/v1") (codes "a") (codes "v1")
find_ref_iff_example =
    find_ref_iff (codes "manifests") (codes "/v2/a/manifests/v1") (codes "a") (codes "v1")

strip-Recorded_example :
    let stripped =
      strip_repo_path_prefix (codes "/v2/ghcr.io/owner/app/manifests/v1") (codes "ghcr.io") in
    (stripped ≡ codes "/v2/owner/app/manifests/v1")
    × (classify_path stripped
        ≡ some (record { event_type = manifest; repo = codes "owner/app"; ref = codes "v1" }))
    × (extract_repo stripped ≡ codes "owner/app")
unfolding trim_slashes
strip-Recorded_example =
    strip-Recorded (codes "ghcr.io") (codes "ghcr.io") (codes "/v2/ghcr.io/owner/app/manifests/v1")
      (codes "owner/app") (codes "v1") manifests (refl, refl) refl refl scoped
