-- ===== src/Proxy/Path/Submatch.antt =====
-- The regular expressions against their meaning.
use mathlib.Core.List.{reverse, reverse-append, reverse-reverse, reverse-cons, append_assoc}
use easy_docker_proxy.Base.{
  ℕ, ◌≡◌, refl, sym, ap, ap₂, subst, ◌∙◌, ◌↔◌, Bool, true, false, ◌||◌, [], ◌∷◌, ◌++◌, Option, none,
  some, ◌==◌, any, Str, codes, is_empty, cut, arith, Bool-cases, Option-cases, inl, inr,
}
use easy_docker_proxy.Proxy.Path.{
  strip_prefix, is_name, named, with_ref, ref_in, slashed, name_before, ref_match, find_ref,
}

pub strip_prefix-append : (t r : Str) → strip_prefix (t ++ r) t ≡ some r
strip_prefix-append [] r = refl
strip_prefix-append (b ∷ t) r = ground (arith, strip_prefix-append t r)

pub eq_of_strip_prefix : (s t : Str) {r : Str} → strip_prefix s t ≡ some r → s ≡ t ++ r
eq_of_strip_prefix s [] h = ground arith
eq_of_strip_prefix [] (b ∷ t) h = cc
eq_of_strip_prefix (a ∷ s) (b ∷ t) {r} h = elim (Bool-cases (a == b)) [
  | inl same ↦ let tail = eq_of_strip_prefix s t (rw same at h) in ground (arith, tail)
  | inr other ↦ ground arith
]

abbrev pub has_byte : ℕ → Str → Bool
has_byte b s = any (λ c. c == b) s

any-append : (p : ℕ → Bool) (s t : Str) → any p (s ++ t) ≡ (any p s || any p t)
any-append p [] t = refl
any-append p (c ∷ s) t = ground (arith, any-append p s t)

pub any-reverse : (p : ℕ → Bool) (s : Str) → any p (reverse s) ≡ any p s
any-reverse p [] = refl
any-reverse p (c ∷ s) =
    rw (reverse-cons c s) (ground (arith, any-append p (reverse s) (c ∷ []), any-reverse p s))

pub cut_at : (b : ℕ) (s t : Str) → has_byte b s ≡ false → cut b (s ++ b ∷ t) ≡ (s, some t)
cut_at b [] t h = ground arith
cut_at b (c ∷ s) t h = ground (arith, cut_at b s t)

pub record CutAt (b : ℕ) (s front back : Str) : Type 0 where
  pub splits : s ≡ front ++ b ∷ back
  pub first : has_byte b front ≡ false

pub CutAt-of_cut :
    (b : ℕ) (s front back : Str) → cut b s ≡ (front, some back) → CutAt b s front back
CutAt-of_cut b [] front back h = ground arith
CutAt-of_cut b (c ∷ s) [] back h = ground arith
CutAt-of_cut b (c ∷ s) (d ∷ front) back h = ground (arith, CutAt-of_cut b s front back)

-- `path` is "/v2/", a name, a slash, `word`, a slash and a reference.
pub record RefPath (word path name ref : Str) : Type 0 where
  pub splits : path ≡ codes "/v2/" ++ (name ++ (slashed word ++ b'/' ∷ ref))
  pub named : is_name name ≡ true
  pub given : is_empty ref ≡ false
  pub one_segment : has_byte b'/' ref ≡ false

-- `rest`, read backwards.
reverse_rest :
    (name word ref : Str)
    → reverse (name ++ (slashed word ++ b'/' ∷ ref))
      ≡ reverse ref ++ b'/' ∷ (reverse (slashed word) ++ reverse name)
reverse_rest name word ref =
    let back = reverse (slashed word) ++ reverse name in
    reverse-append name _
    ∙ ap (λ t. t ++ reverse name) (reverse-append (slashed word) (b'/' ∷ ref))
    ∙ append_assoc (reverse (b'/' ∷ ref)) (reverse (slashed word)) (reverse name)
    ∙ ap (λ t. t ++ back) (reverse-cons b'/' ref)
    ∙ append_assoc (reverse ref) (b'/' ∷ []) back

is_empty-reverse : (s : Str) → is_empty (reverse s) ≡ is_empty s
is_empty-reverse [] = refl
is_empty-reverse (c ∷ s) = rw (reverse-cons c s) (snoc_nonempty (reverse s))
  where
    snoc_nonempty : (t : Str) → is_empty (t ++ c ∷ []) ≡ false
    snoc_nonempty [] = refl
    snoc_nonempty (x ∷ t) = refl

name_before-append :
    (tail name : Str)
    → is_name name ≡ true
    → name_before (reverse tail) (some (reverse tail ++ reverse name)) ≡ some name
name_before-append tail name h =
    ap named (strip_prefix-append (reverse tail) (reverse name)) ∙ rw (reverse-reverse name) (rw h)

ref_match_parts :
    (word name ref : Str)
    → is_name name ≡ true
    → is_empty ref ≡ false
    → ref_match word (reverse ref, some (reverse (slashed word) ++ reverse name)) ≡ some (name, ref)
ref_match_parts word name ref h k =
    rw (is_empty-reverse ref, k)
      (ap (with_ref (reverse ref)) (name_before-append (slashed word) name h)
        ∙ ap (λ r. some (name, r)) (reverse-reverse ref))

-- What any of the patterns sees of such a path.
pub find_ref-split :
    (other word path name ref : Str)
    → RefPath word path name ref
    → find_ref other path
      ≡ ref_match other (reverse ref, some (reverse (slashed word) ++ reverse name))
unfolding find_ref
find_ref-split other word path name ref h =
    let rest = name ++ (slashed word ++ b'/' ∷ ref) in
    let found : cut b'/' (reverse rest)
        ≡ (reverse ref, some (reverse (slashed word) ++ reverse name)) =
      rw (reverse_rest name word ref)
        (cut_at b'/' (reverse ref) _ (any-reverse _ ref ∙ h.one_segment)) in
    rw h.splits (ap (ref_match other) found)

pub find_ref-RefPath :
    (word path name ref : Str) → RefPath word path name ref → find_ref word path ≡ some (name, ref)
find_ref-RefPath word path name ref h =
    find_ref-split word word path name ref h ∙ ref_match_parts word name ref h.named h.given

pub named-eq_some :
    (r name : Str) → named (some r) ≡ some name → (reverse r ≡ name) × (is_name name ≡ true)
named-eq_some r name h = elim (Bool-cases (is_name (reverse r))) [
  | inl ok ↦
      let e : some (reverse r) ≡ some name = rw ok at h in
      let same : reverse r ≡ name = cc in (same, subst (λ t. is_name t ≡ true) same ok)
  | inr bad ↦ let e : none ≡ some name = rw bad at h in cc
]

record NameBefore (tail s name : Str) : Type 0 where
  splits : s ≡ tail ++ reverse name
  named : is_name name ≡ true

name_before-NameBefore :
    (tail s name : Str) → name_before tail (some s) ≡ some name → NameBefore tail s name
name_before-NameBefore tail s name h = elim (Option-cases (strip_prefix s tail)) [
  | inl e ↦ cc (ap named (sym e) ∙ h)
  | inr (r, e) ↦
      let (same, ok) = named-eq_some r name (ap named (sym e) ∙ h) in
      record {
        splits =
            eq_of_strip_prefix s tail e
            ∙ ap (λ t. tail ++ t) (sym (reverse-reverse r) ∙ ap reverse same);
        named = ok;
      }
]

record RefMatch (word r front name ref : Str) : Type 0 where
  given : is_empty r ≡ false
  reversed : reverse r ≡ ref
  before : name_before (reverse (slashed word)) (some front) ≡ some name

with_ref-eq_some :
    (r : Str) (o : Option Str) (name ref : Str)
    → with_ref r o ≡ some (name, ref)
    → (o ≡ some name) × (reverse r ≡ ref)
with_ref-eq_some r none name ref h = cc
with_ref-eq_some r (some n) name ref h = ground arith

ref_match-RefMatch :
    (word r : Str) (front : Option Str) (name ref : Str)
    → ref_match word (r, front) ≡ some (name, ref)
    → (f : Str) × (front ≡ some f) × RefMatch word r f name ref
ref_match-RefMatch word r front name ref h = elim (Bool-cases (is_empty r)) [
  | inl no_ref ↦ let e : ◌≡◌ {A = Option (Str × Str)} none (some (name, ref)) = rw no_ref at h in cc
  | inr given ↦
      let (b, rev) =
        with_ref-eq_some r (name_before (reverse (slashed word)) front) name ref (rw given at h) in
      let (f, e) = name_before_front (reverse (slashed word)) front b in
      (f, e, record { given = given; reversed = rev; before = rw e at b })
]
  where
    name_before_front :
        (tail : Str) (o : Option Str) → name_before tail o ≡ some name → (f : Str) × (o ≡ some f)
    name_before_front tail none h = cc
    name_before_front tail (some f) h = (f, refl)

find_ref-eq_some :
    (word rest name ref : Str)
    → ref_in word (some rest) ≡ some (name, ref)
    → RefPath word (codes "/v2/" ++ rest) name ref
find_ref-eq_some word rest name ref h =
    let parts = cut b'/' (reverse rest) in
    let (front, e, m) = ref_match-RefMatch word parts.0 parts.1 name ref h in
    let c = CutAt-of_cut b'/' (reverse rest) parts.0 front (ap (λ o. (parts.0, o)) e) in
    let n = name_before-NameBefore (reverse (slashed word)) front name m.before in
    let turned : parts.0 ≡ reverse ref = sym (reverse-reverse parts.0) ∙ ap reverse m.reversed in
    let back : reverse rest ≡ reverse (name ++ (slashed word ++ b'/' ∷ ref)) =
      c.splits ∙ ap₂ (λ r f. r ++ b'/' ∷ f) turned n.splits ∙ sym (reverse_rest name word ref) in
    record {
      splits =
          ap (λ t. codes "/v2/" ++ t)
            (sym (reverse-reverse rest) ∙ ap reverse back ∙ reverse-reverse _);
      named = n.named;
      given = sym (is_empty-reverse ref) ∙ ap is_empty (sym turned) ∙ m.given;
      one_segment = sym (any-reverse _ ref) ∙ ap (has_byte b'/') (sym turned) ∙ c.first;
    }

-- `find_ref word path`, which stands for `^/v2/(.+)/word/([^/]+)$`, has the submatches `name` and
-- `ref` exactly when `path` is "/v2/", `name`, "/word/" and `ref` in a row, with a name that is not
-- empty and holds no newline, and a reference that is not empty and holds no slash.
pub find_ref_iff :
    (word path name ref : Str)
    → (find_ref word path ≡ some (name, ref)) ↔ RefPath word path name ref
unfolding find_ref
find_ref_iff word path name ref =
    (there (strip_prefix path (codes "/v2/")) refl, find_ref-RefPath word path name ref)
  where
    there :
        (o : Option Str)
        → strip_prefix path (codes "/v2/") ≡ o
        → ref_in word (strip_prefix path (codes "/v2/")) ≡ some (name, ref)
        → RefPath word path name ref
    there none e h = cc (ap (ref_in word) (sym e) ∙ h)
    there (some rest) e h =
        subst (λ p. RefPath word p name ref) (sym (eq_of_strip_prefix path (codes "/v2/") e))
          (find_ref-eq_some word rest name ref (ap (ref_in word) (sym e) ∙ h))
