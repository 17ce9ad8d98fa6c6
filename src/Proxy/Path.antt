-- ===== src/Proxy/Path.antt =====
-- internal/proxy/proxy.go: what the proxy reads off a request path.
--
-- The four regular expressions are functions on bytes: `^/v2/(.+)/word/([^/]+)$` can only split at
-- the last slash of the path, `.` is any byte but a newline.
pub mod Submatch
pub mod Registry
pub mod Strip
mod Tests
use mathlib.Core.List.{reverse}
use easy_docker_proxy.Base.{
  ℕ, ◌+◌, Bool, true, false, not, ◌&&◌, ◌||◌, List, [], ◌∷◌, ◌++◌, Option, none, some, ◌==◌, any,
  if◌then◌else◌, Str, String, codes, is_empty, str_eq, has_prefix, has_suffix, to_lower,
  trim_slashes, cut, length, drop,
}
use easy_docker_proxy.Record.Event.{EventType, manifest, blob, tags, referrers}

-- What follows `t` in `s`, if `s` begins with `t`.
abbrev pub strip_prefix : Str → Str → Option Str
strip_prefix s [] = some s
strip_prefix [] (b ∷ t) = none
strip_prefix (a ∷ s) (b ∷ t) = if a == b then strip_prefix s t else none

-- A match of `(.+)`.
abbrev pub is_name : Str → Bool
is_name s = not (is_empty s) && not (any (λ c. c == b'\n') s)

abbrev pub named : Option Str → Option Str
named none = none
named (some r) = if is_name (reverse r) then some (reverse r) else none

-- The submatch `(.+)` in front of `tail`, all reversed but the result.
abbrev pub name_before : Str → Option Str → Option Str
name_before tail none = none
name_before tail (some s) = named (strip_prefix s tail)

abbrev pub slashed : Str → Str
slashed word = b'/' ∷ word

abbrev pub with_ref : Str → Option Str → Option (Str × Str)
with_ref ref none = none
with_ref ref (some name) = some (name, reverse ref)

-- The submatches of `^/v2/(.+)/word/([^/]+)$`; the last argument is what follows "/v2/".
abbrev pub ref_match : Str → Str × Option Str → Option (Str × Str)
ref_match word (ref, front) =
    if is_empty ref then none else with_ref ref (name_before (reverse (slashed word)) front)

abbrev pub ref_in : Str → Option Str → Option (Str × Str)
ref_in word none = none
ref_in word (some rest) = ref_match word (cut b'/' (reverse rest))

unfoldable pub find_ref : Str → Str → Option (Str × Str)
find_ref word path = ref_in word (strip_prefix path (codes "/v2/"))

abbrev pub tags_in : Option Str → Option Str
tags_in none = none
tags_in (some rest) = name_before (reverse (codes "/tags/list")) (some (reverse rest))

-- The submatch of `^/v2/(.+)/tags/list$`.
unfoldable pub find_tags : Str → Option Str
find_tags path = tags_in (strip_prefix path (codes "/v2/"))

abbrev pub is_some {ℓ} : {A : Type ℓ} → Option A → Bool
is_some none = false
is_some (some _) = true

unfoldable pub is_registry_path : Str → Bool
is_registry_path path =
    is_some (find_ref (codes "manifests") path)
    || is_some (find_ref (codes "blobs") path)
    || is_some (find_tags path)
    || is_some (find_ref (codes "referrers") path)

-- The first answer, as the loop and the ladder of `if`s give it.
infixr 30 ◌or_else◌
abbrev pub ◌or_else◌ {ℓ} : {A : Type ℓ} → Option A → Option A → Option A
none or_else b = b
some a or_else b = some a

abbrev first_of_pair : Option (Str × Str) → Option Str
first_of_pair none = none
first_of_pair (some p) = some p.0

abbrev or_empty : Option Str → Str
or_empty none = []
or_empty (some s) = s

unfoldable pub extract_repo : Str → Str
extract_repo path = or_empty (
    first_of_pair (find_ref (codes "manifests") path)
    or_else first_of_pair (find_ref (codes "blobs") path)
    or_else find_tags path
    or_else first_of_pair (find_ref (codes "referrers") path))

pub record Class : Type 0 where
  pub event_type : EventType
  pub repo : Str
  pub ref : Str

abbrev as_class : EventType → Option (Str × Str) → Option Class
as_class et none = none
as_class et (some (repo, ref)) = some (record { event_type = et; repo = repo; ref = ref })

abbrev as_tags : Option Str → Option Class
as_tags none = none
as_tags (some repo) = some (record { event_type = tags; repo = repo; ref = [] })

unfoldable pub classify_path : Str → Option Class
classify_path path =
    as_class manifest (find_ref (codes "manifests") path)
    or_else as_class blob (find_ref (codes "blobs") path)
    or_else as_tags (find_tags path)
    or_else as_class referrers (find_ref (codes "referrers") path)

-- The tests on what follows "/v2/".
abbrev pub strip_rest : Str → Str → Str → Str
strip_rest path pre rest =
    if str_eq (to_lower rest) pre
    then codes "/v2"
    else if has_prefix (to_lower rest) (pre ++ b'/' ∷ [])
    then codes "/v2/" ++ drop (length pre + 1) rest
    else path

unfoldable pub strip_repo_path_prefix : Str → Str → Str
strip_repo_path_prefix path prefix =
    if is_empty prefix
    then path
    else if not (has_prefix path (codes "/v2/"))
    then path
    else strip_rest path (to_lower (trim_slashes prefix)) (drop 4 path)

unfoldable pub single_joining_slash : Str → Str → Str
single_joining_slash a b =
    if has_suffix a (codes "/") && has_prefix b (codes "/")
    then a ++ drop 1 b
    else if not (has_suffix a (codes "/")) && not (has_prefix b (codes "/"))
    then a ++ b'/' ∷ b
    else a ++ b
