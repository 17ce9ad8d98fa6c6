-- ===== src/Proxy/Path/Strip.antt =====
-- A path under a prefix, once the prefix is stripped, is read as the same path without it.
use mathlib.Core.List.{reverse, append_assoc}
use easy_docker_proxy.Base.{
  ℕ, ◌+◌, ◌≡◌, refl, sym, ap, ◌∙◌, true, false, [], ◌∷◌, ◌++◌, none, some, Str, codes, is_empty,
  arith, Bool-cases, inl, inr, str_eq, has_prefix, to_lower, trim_slashes, length, drop,
  drop-append, length-append, length-to_lower, to_lower-append, has_prefix-append,
}
use easy_docker_proxy.Record.Event.{EventType, manifest, blob}
use easy_docker_proxy.Proxy.Path.{
  is_name, slashed, find_ref, classify_path, extract_repo, strip_repo_path_prefix,
}
use easy_docker_proxy.Proxy.Path.Submatch.{RefPath, find_ref-split, find_ref-RefPath}

str_eq_longer : (p t : Str) (c : ℕ) → str_eq (p ++ c ∷ t) p ≡ false
str_eq_longer [] t c = refl
str_eq_longer (a ∷ p) t c = ground (arith, str_eq_longer p t c)

drop_longer : (p t : Str) (c : ℕ) → drop (length p + 1) (p ++ c ∷ t) ≡ t
drop_longer p t c =
    ap (λ n. drop n (p ++ c ∷ t)) (sym (length-append p (c ∷ [])))
    ∙ ap (drop (length (p ++ c ∷ []))) (sym (append_assoc p (c ∷ []) t))
    ∙ drop-append (p ++ c ∷ []) t

-- A prefix as `buildRoutes` stores it.
abbrev pub IsKey : Str → Type 0
IsKey pre = (is_empty pre ≡ false) × (to_lower (trim_slashes pre) ≡ pre)

-- Under "/v2/" a first part that is the prefix, in any case, and its slash are taken away.
pub strip-prefix :
    (pre part tail : Str)
    → IsKey pre
    → to_lower part ≡ pre
    → strip_repo_path_prefix (codes "/v2/" ++ (part ++ b'/' ∷ tail)) pre ≡ codes "/v2/" ++ tail
unfolding strip_repo_path_prefix
strip-prefix pre part tail key same =
    let path = codes "/v2/" ++ (part ++ b'/' ∷ tail) in
    let lowered : to_lower (part ++ b'/' ∷ tail) ≡ pre ++ b'/' ∷ to_lower tail =
      to_lower-append part (b'/' ∷ tail) ∙ ap (λ t. t ++ b'/' ∷ to_lower tail) same in
    let longer : str_eq (to_lower (part ++ b'/' ∷ tail)) pre ≡ false =
      ap (λ t. str_eq t pre) lowered ∙ str_eq_longer pre (to_lower tail) b'/' in
    let begins : has_prefix (to_lower (part ++ b'/' ∷ tail)) (pre ++ b'/' ∷ []) ≡ true =
      ap (λ t. has_prefix t (pre ++ b'/' ∷ []))
        (lowered ∙ sym (append_assoc pre (b'/' ∷ []) (to_lower tail)))
      ∙ has_prefix-append (pre ++ b'/' ∷ []) (to_lower tail) in
    let width : length pre ≡ length part = ap length (sym same) ∙ length-to_lower part in
    rw (key.0, key.1) (rw (longer, begins) (rw (width, drop_longer part tail b'/')))

-- The requests that are recorded, with the word of their pattern.
pub data Recorded : EventType → Str → Type 0 where
  manifests : Recorded manifest (codes "manifests")
  blobs : Recorded blob (codes "blobs")

no_manifest :
    (path name ref : Str)
    → RefPath (codes "blobs") path name ref
    → find_ref (codes "manifests") path ≡ none
no_manifest path name ref h =
    find_ref-split (codes "manifests") (codes "blobs") path name ref h
    ∙ (elim (Bool-cases (is_empty (reverse ref))) [ inl e ↦ rw e | inr e ↦ rw e ])

pub classify_path-Recorded :
    {et : EventType} {w : Str} (path name ref : Str)
    → Recorded et w
    → RefPath w path name ref
    → (classify_path path ≡ some (record { event_type = et; repo = name; ref = ref }))
      × (extract_repo path ≡ name)
unfolding classify_path extract_repo
classify_path-Recorded path name ref manifests h =
    let e = find_ref-RefPath (codes "manifests") path name ref h in (rw e, rw e)
classify_path-Recorded path name ref blobs h =
    let n = no_manifest path name ref h in
    let e = find_ref-RefPath (codes "blobs") path name ref h in (rw (n, e), rw (n, e))

-- A manifest or blob path whose repository begins with a prefix, in any case: once the prefix is
-- stripped, the path is the upstream's own, and both the event and the token scope name the
-- repository without the prefix.
pub strip-Recorded :
    {et : EventType} {w : Str} (pre part path sub ref : Str)
    → Recorded et w
    → IsKey pre
    → to_lower part ≡ pre
    → is_name sub ≡ true
    → RefPath w path (part ++ b'/' ∷ sub) ref
    → let stripped = strip_repo_path_prefix path pre in
      (stripped ≡ codes "/v2/" ++ (sub ++ (slashed w ++ b'/' ∷ ref)))
      × (classify_path stripped ≡ some (record { event_type = et; repo = sub; ref = ref }))
      × (extract_repo stripped ≡ sub)
strip-Recorded {et} {w} pre part path sub ref r key same named h =
    let tail = sub ++ (slashed w ++ b'/' ∷ ref) in
    let e : strip_repo_path_prefix path pre ≡ codes "/v2/" ++ tail =
      ap (λ p. strip_repo_path_prefix p pre)
        (h.splits ∙ ap (λ t. codes "/v2/" ++ t) (append_assoc part (b'/' ∷ sub) _))
      ∙ strip-prefix pre part tail key same in
    let inner : RefPath w (strip_repo_path_prefix path pre) sub ref = record {
      splits = e;
      named = named;
      given = h.given;
      one_segment = h.one_segment;
    } in
    let (c, x) = classify_path-Recorded (strip_repo_path_prefix path pre) sub ref r inner in
    (e, c, x)
