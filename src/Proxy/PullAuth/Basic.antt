-- ===== src/Proxy/PullAuth/Basic.antt =====
-- What `parseBasicAuth` takes for Basic credentials.
use mathlib.Core.List.{reverse, reverse-cons, reverse-reverse}
use easy_docker_proxy.Base.{
  ℕ, zero, suc, subst, drop-append, ◌≡◌, ◌≢◌, refl, sym, ap, ◌∙◌, ◌↔◌, Bool, true, false, not, ◌||◌,
  [], ◌∷◌, ◌++◌, Option, none, some, if◌then◌else◌, Str, codes, is_empty, str_eq_iff, equal_fold,
  to_lower, lower_byte, is_space, trim_left, trim_space, cut, ltb, length, length-append, take,
  drop, Bool-cases, inl, inr, arith,
}
use easy_docker_proxy.Proxy.Path.Submatch.{has_byte, cut_at, CutAt-of_cut}
use easy_docker_proxy.Proxy.Request.{Header, get}
use easy_docker_proxy.Proxy.PullAuth.{user_pass, decoded, parse_basic_auth}

-- "Basic" in any case and a blank, then what decodes to the user, a colon and the password; the
-- user has no colon.
pub record IsBasic (decode : Str → Option Str) (h user pass : Str) : Type 0 where
  pub scheme : Str
  pub rest : Str
  pub splits : h ≡ scheme ++ rest
  pub basic : to_lower scheme ≡ codes "basic "
  pub decodes : decode (trim_space rest) ≡ some (user ++ b':' ∷ pass)
  pub one_word : has_byte b':' user ≡ false

length-to_lower : (s : Str) → length (to_lower s) ≡ length s
length-to_lower [] = refl
length-to_lower (c ∷ s) = omega (arith, length-to_lower s)

take-append-drop : (n : ℕ) (s : Str) → s ≡ take n s ++ drop n s
take-append-drop zero s = refl
take-append-drop (suc n) [] = refl
take-append-drop (suc n) (c ∷ s) = ap (λ t. c ∷ t) (take-append-drop n s)

take_front : (s t : Str) → take (length s) (s ++ t) ≡ s
take_front [] t = refl
take_front (c ∷ s) t = ap (λ r. c ∷ r) (take_front s t)

decoded-some :
    (o : Option Str) (user pass : Str)
    → decoded o ≡ some (user, pass)
    → (o ≡ some (user ++ b':' ∷ pass)) × (has_byte b':' user ≡ false)
decoded-some none user pass e = cc
decoded-some (some raw) user pass e = split (cut b':' raw) refl e
  where
    split :
        (r : Str × Option Str)
        → cut b':' raw ≡ r
        → user_pass r ≡ some (user, pass)
        → (◌≡◌ {A = Option Str} (some raw) (some (user ++ b':' ∷ pass)))
          × (has_byte b':' user ≡ false)
    split (u, none) c k = cc
    split (u, some q) c k =
        let same : cut b':' raw ≡ (user, some pass) = cc in
        let at = CutAt-of_cut b':' raw user pass same in (ap some at.splits, at.first)

-- The blanks at both ends leave a byte that is none.
trim_left_keeps : (p : ℕ → Bool) (c : ℕ) (s : Str) → p c ≡ false → trim_left p (s ++ c ∷ []) ≢ []
trim_left_keeps p c [] h e = cc (rw h at e)
trim_left_keeps p c (x ∷ s) h e = elim (Bool-cases (p x)) [
  | inl y ↦ trim_left_keeps p c s h (rw y at e)
  | inr n ↦ cc (rw n at e)
]

trim_space_keeps : (c : ℕ) (s : Str) → is_space c ≡ false → trim_space (c ∷ s) ≢ []
unfolding trim_space
trim_space_keeps c s h e =
    let inner : Str = trim_left is_space (reverse (c ∷ s)) in
    let blank : reverse inner ≡ [] =
      ap
        (λ (b : Bool).
          reverse
            (trim_left is_space (reverse (elim b [ true ↦ trim_left is_space s | false ↦ c ∷ s ]))))
        (sym h)
      ∙ e in
    let none_left : inner ≡ [] = sym (reverse-reverse inner) ∙ ap reverse blank in
    trim_left_keeps is_space c (reverse s) h
      (ap (trim_left is_space) (sym (reverse-cons c s)) ∙ none_left)

-- Credentials are no blank.
pub IsBasic-visible :
    (decode : Str → Option Str) (h user pass : Str) → IsBasic decode h user pass → trim_space h ≢ []
IsBasic-visible decode h user pass k e = visible k.scheme k.basic (ap trim_space (sym k.splits) ∙ e)
  where
    visible : (s : Str) → to_lower s ≡ codes "basic " → trim_space (s ++ k.rest) ≢ []
    visible [] b = cc
    visible (c ∷ s) b =
        let first : lower_byte c ≡ b'b' = ground (arith, b) in
        trim_space_keeps c (s ++ k.rest) (ground (arith, first))

-- The body of `parseBasicAuth`, of the field.
abbrev parsed : (Str → Option Str) → Str → Option (Str × Str)
parsed decode h =
    if is_empty h
    then none
    else if ltb (length h) 6 || not (equal_fold (take 6 h) (codes "basic "))
    then none
    else decoded (decode (trim_space (drop 6 h)))

parsed-IsBasic :
    (decode : Str → Option Str) (h user pass : Str)
    → parsed decode h ≡ some (user, pass)
    → IsBasic decode h user pass
parsed-IsBasic decode [] user pass e = cc
parsed-IsBasic decode (c ∷ s) user pass e = elim (Bool-cases (ltb (length (c ∷ s)) 6)) [
  | inl short ↦ cc (rw short at e)
  | inr long ↦ elim (Bool-cases (equal_fold (take 6 (c ∷ s)) (codes "basic "))) [
    | inr other ↦ cc (rw (long, other) at e)
    | inl same ↦
        let d =
          decoded-some (decode (trim_space (drop 6 (c ∷ s)))) user pass (rw (long, same) at e) in
        record {
          scheme = take 6 (c ∷ s);
          rest = drop 6 (c ∷ s);
          splits = take-append-drop 6 (c ∷ s);
          basic = (str_eq_iff (to_lower (take 6 (c ∷ s))) (codes "basic ")).0 same;
          decodes = d.0;
          one_word = d.1;
        }
  ]
]

parsed_parts :
    (decode : Str → Option Str) (scheme rest user pass : Str)
    → to_lower scheme ≡ codes "basic "
    → decode (trim_space rest) ≡ some (user ++ b':' ∷ pass)
    → has_byte b':' user ≡ false
    → parsed decode (scheme ++ rest) ≡ some (user, pass)
parsed_parts decode [] rest user pass b d w = cc
parsed_parts decode (c ∷ s) rest user pass b d w =
    let len : length (c ∷ s) ≡ 6 = sym (length-to_lower (c ∷ s)) ∙ ap (λ (t : Str). length t) b in
    let all : Str = (c ∷ s) ++ rest in
    let taken : take 6 all ≡ c ∷ s =
      subst (λ n. take n all ≡ c ∷ s) len (take_front (c ∷ s) rest) in
    let dropped : drop 6 all ≡ rest =
      subst (λ n. drop n all ≡ rest) len (drop-append (c ∷ s) rest) in
    let long : ltb (length all) 6 ≡ false = ground (arith, len, length-append (c ∷ s) rest) in
    let same : equal_fold (take 6 all) (codes "basic ") ≡ true =
      ap (λ t. equal_fold t (codes "basic ")) taken
      ∙ (str_eq_iff (to_lower (c ∷ s)) (codes "basic ")).1 b in
    rw (long, same)
      (ap (λ t. decoded (decode (trim_space t))) dropped
        ∙ (ap decoded d ∙ ap user_pass (cut_at b':' user pass w)))

-- `parseBasicAuth` finds just the Basic credentials.
pub parse_basic_auth_iff :
    (decode : Str → Option Str) (header : Header) (user pass : Str)
    → (parse_basic_auth decode header ≡ some (user, pass))
      ↔ IsBasic decode (get header (codes "Authorization")) user pass
unfolding parse_basic_auth
parse_basic_auth_iff decode header user pass =
    let h = get header (codes "Authorization") in
    (
      parsed-IsBasic decode h user pass,
      λ k.
          subst (λ t. parsed decode t ≡ some (user, pass)) (sym k.splits)
            (parsed_parts decode k.scheme k.rest user pass k.basic k.decodes k.one_word),
    )
