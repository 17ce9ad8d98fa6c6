-- ===== src/Proxy/Path/Registry.antt =====
-- Which paths are of the registry API.
use mathlib.Core.List.{reverse, reverse-append, reverse-reverse}
use easy_docker_proxy.Base.{
  ◌≡◌, refl, sym, ap, ◌∙◌, ◌↔◌, ◌⊎◌, ||_iff, true, ◌++◌, Option, none, some, Str, codes,
}
use easy_docker_proxy.Proxy.Path.{
  is_some, strip_prefix, is_name, named, tags_in, find_ref, find_tags, is_registry_path,
}
use easy_docker_proxy.Proxy.Path.Submatch.{
  RefPath, strip_prefix-append, eq_of_strip_prefix, named-eq_some, find_ref_iff,
}

tags_front :
    (rest name : Str) (o : Option Str)
    → strip_prefix (reverse rest) (reverse (codes "/tags/list")) ≡ o
    → named o ≡ some name
    → (rest ≡ name ++ codes "/tags/list") × (is_name name ≡ true)
tags_front rest name none e k = cc
tags_front rest name (some r) e k =
    let (turned, is) = named-eq_some r name k in
    let split : reverse rest ≡ reverse (codes "/tags/list") ++ r =
      eq_of_strip_prefix (reverse rest) (reverse (codes "/tags/list")) e in
    (
      sym (reverse-reverse rest)
          ∙ (ap reverse split
              ∙ (reverse-append (reverse (codes "/tags/list")) r
                  ∙ ap (λ t. t ++ codes "/tags/list") turned)),
      is,
    )

-- The submatch of `^/v2/(.+)/tags/list$`.
pub find_tags_iff :
    (path name : Str)
    → (find_tags path ≡ some name)
      ↔ ((path ≡ codes "/v2/" ++ (name ++ codes "/tags/list")) × (is_name name ≡ true))
unfolding find_tags
find_tags_iff path name = (there (strip_prefix path (codes "/v2/")) refl, back)
  where
    there :
        (o : Option Str)
        → strip_prefix path (codes "/v2/") ≡ o
        → tags_in o ≡ some name
        → (path ≡ codes "/v2/" ++ (name ++ codes "/tags/list")) × (is_name name ≡ true)
    there none e k = cc
    there (some rest) e k =
        let (split, is) = tags_front rest name _ refl k in
        (eq_of_strip_prefix path (codes "/v2/") e ∙ ap (λ t. codes "/v2/" ++ t) split, is)

    back :
        (path ≡ codes "/v2/" ++ (name ++ codes "/tags/list")) × (is_name name ≡ true)
        → tags_in (strip_prefix path (codes "/v2/")) ≡ some name
    back (e, is) =
        let front : strip_prefix path (codes "/v2/") ≡ some (name ++ codes "/tags/list") =
          ap (λ t. strip_prefix t (codes "/v2/")) e
          ∙ strip_prefix-append (codes "/v2/") (name ++ codes "/tags/list") in
        let turned : strip_prefix (reverse (name ++ codes "/tags/list"))
              (reverse (codes "/tags/list"))
            ≡ some (reverse name) =
          ap (λ t. strip_prefix t (reverse (codes "/tags/list")))
            (reverse-append name (codes "/tags/list"))
          ∙ strip_prefix-append (reverse (codes "/tags/list")) (reverse name) in
        let name_again : is_name (reverse (reverse name)) ≡ true =
          ap is_name (reverse-reverse name) ∙ is in
        ap tags_in front
        ∙ (ap named turned ∙ rw name_again (ap (λ t. some t) (reverse-reverse name)))

is_some-witness : {A : Type 0} (o : Option A) → is_some o ≡ true → (a : A) × (o ≡ some a)
is_some-witness none y = cc
is_some-witness (some a) y = (a, refl)

-- The path is of the registry API, with a name.
abbrev pub IsRegistryPath : Str → Type 0
IsRegistryPath path =
    ((((name : Str) × (ref : Str) × RefPath (codes "manifests") path name ref)
        ⊎ ((name : Str) × (ref : Str) × RefPath (codes "blobs") path name ref))
      ⊎ ((name : Str) × (path ≡ codes "/v2/" ++ (name ++ codes "/tags/list"))
          × (is_name name ≡ true)))
    ⊎ ((name : Str) × (ref : Str) × RefPath (codes "referrers") path name ref)

ref_iff :
    (word path : Str)
    → (is_some (find_ref word path) ≡ true)
      ↔ ((name : Str) × (ref : Str) × RefPath word path name ref)
ref_iff word path = (
  λ y.
      let ((name, ref), e) = is_some-witness (find_ref word path) y in
      (name, ref, (find_ref_iff word path name ref).0 e),
  λ w. let (name, ref, k) = w in rw ((find_ref_iff word path name ref).1 k) refl,
)

tags_iff :
    (path : Str)
    → (is_some (find_tags path) ≡ true) ↔ (
        (name : Str) × (path ≡ codes "/v2/" ++ (name ++ codes "/tags/list"))
        × (is_name name ≡ true))
tags_iff path = (
  λ y.
      let (name, e) = is_some-witness (find_tags path) y in
      let (split, is) = (find_tags_iff path name).0 e in (name, split, is),
  λ w. let (name, split, is) = w in rw ((find_tags_iff path name).1 (split, is)) refl,
)

-- `isRegistryPath` takes just these.
pub is_registry_path_iff : (path : Str) → (is_registry_path path ≡ true) ↔ IsRegistryPath path
unfolding is_registry_path
is_registry_path_iff path =
    ||_iff _ _
      (||_iff _ _ (||_iff _ _ (ref_iff (codes "manifests") path) (ref_iff (codes "blobs") path))
        (tags_iff path))
      (ref_iff (codes "referrers") path)
