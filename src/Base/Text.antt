-- ===== src/Base/Text.antt =====
-- Go strings as lists of bytes, with the functions of package strings that the program calls.
-- Case and blanks are those of ASCII; Go agrees on every string of bytes below 0x80.
use Prim.Native.Nat.{ℕ, ◌+◌}
use Prim.Native.Char.{code}
use Prim.Native.String.{String}
use mathlib.Core.Path.{◌≡◌, refl, ap}
use mathlib.Core.Logic.{◌↔◌}
use mathlib.Core.Bool.{Bool, true, false, ◌||◌, ◌&&◌}
use mathlib.Core.Option.{Option, none, some}
use mathlib.Core.List.{List, [], ◌∷◌, ◌++◌, reverse}
use native.Mathlib.Omega.{arith}
use easy_docker_proxy.Base.Tests.{leb, ◌==◌, if◌then◌else◌}
use easy_docker_proxy.Base.Lists.{length}

abbrev pub Str : Type 0
Str = List ℕ

-- The bytes of an ASCII literal.
abbrev pub codes : String → Str
codes String.[] = []
codes (String.◌∷◌ c s) = code c ∷ codes s

abbrev pub str_eq : Str → Str → Bool
str_eq [] [] = true
str_eq (a ∷ s) (b ∷ t) = a == b && str_eq s t
str_eq _ _ = false

pub str_eq_iff : (s t : Str) → (str_eq s t ≡ true) ↔ (s ≡ t)
str_eq_iff [] [] = ground arith
str_eq_iff [] (b ∷ t) = ground arith
str_eq_iff (a ∷ s) [] = ground arith
str_eq_iff (a ∷ s) (b ∷ t) = ground (arith, str_eq_iff s t)

pub str_eq_refl : (s : Str) → str_eq s s ≡ true
str_eq_refl s = (str_eq_iff s s).1 refl

abbrev pub is_empty : Str → Bool
is_empty [] = true
is_empty (_ ∷ _) = false

pub is_empty_iff : (s : Str) → (is_empty s ≡ true) ↔ (s ≡ [])
is_empty_iff [] = (λ y. refl, λ e. refl)
is_empty_iff (c ∷ s) = (λ y. cc, λ e. cc)

-- `strings.HasPrefix`
abbrev pub has_prefix : Str → Str → Bool
has_prefix s [] = true
has_prefix [] (b ∷ t) = false
has_prefix (a ∷ s) (b ∷ t) = a == b && has_prefix s t

-- `strings.HasSuffix`
abbrev pub has_suffix : Str → Str → Bool
has_suffix s t = has_prefix (reverse s) (reverse t)

abbrev pub lower_byte : ℕ → ℕ
lower_byte c = if leb b'A' c && leb c b'Z' then c + 32 else c

-- `strings.ToLower`
abbrev pub to_lower : Str → Str
to_lower [] = []
to_lower (c ∷ s) = lower_byte c ∷ to_lower s

-- `strings.EqualFold`
abbrev pub equal_fold : Str → Str → Bool
equal_fold s t = str_eq (to_lower s) (to_lower t)

abbrev pub is_space : ℕ → Bool
is_space c = c == 0x20 || (leb 9 c && leb c 13)

abbrev pub trim_left : (ℕ → Bool) → Str → Str
trim_left p [] = []
trim_left p (c ∷ s) = elim (p c) [ true ↦ trim_left p s | false ↦ c ∷ s ]

abbrev pub trim_both : (ℕ → Bool) → Str → Str
trim_both p s = reverse (trim_left p (reverse (trim_left p s)))

-- `strings.TrimSpace`
unfoldable pub trim_space : Str → Str
trim_space s = trim_both is_space s

-- `strings.Trim(s, "/")`
unfoldable pub trim_slashes : Str → Str
trim_slashes s = trim_both (λ c. c == b'/') s

-- The bytes before the first `c`, and those after it, if there is one.
abbrev pub cut : ℕ → Str → Str × Option Str
cut c [] = ([], none)
cut c (x ∷ s) =
    let r : Str × Option Str = cut c s in if x == c then ([], some s) else (x ∷ r.0, r.1)

-- `strings.SplitN(s, sep, 2)[0]`
abbrev pub before : ℕ → Str → Str
before c s = (cut c s).0

-- The pieces of `strings.Split`; the first one is still being read.
abbrev pub split_onto : ℕ → Str → Str → List Str
split_onto c piece [] = piece ∷ []
split_onto c piece (x ∷ s) = elim (x == c) [
  | true ↦ piece ∷ split_onto c [] s
  | false ↦ split_onto c (piece ++ (x ∷ [])) s
]

abbrev pub split : ℕ → Str → List Str
split c s = split_onto c [] s

pub has_prefix_iff : (s t : Str) → (has_prefix s t ≡ true) ↔ ((r : Str) × (s ≡ t ++ r))
has_prefix_iff s [] = (λ h. (s, refl), λ h. refl)
has_prefix_iff [] (b ∷ t) = (λ h. absurd (ground arith), λ h. ground arith)
has_prefix_iff (a ∷ s) (b ∷ t) = (
  λ h. let (r, e) = (has_prefix_iff s t).0 (ground arith) in (r, ground arith),
  λ h. ground (arith, (has_prefix_iff s t).1 (h.0, ground (arith, h.1))),
)

pub has_prefix-append : (t r : Str) → has_prefix (t ++ r) t ≡ true
has_prefix-append t r = (has_prefix_iff (t ++ r) t).1 (r, refl)

pub to_lower-append : (s t : Str) → to_lower (s ++ t) ≡ to_lower s ++ to_lower t
to_lower-append [] t = refl
to_lower-append (c ∷ s) t = ap (◌∷◌ (lower_byte c)) (to_lower-append s t)

pub lower_byte-lower_byte : (c : ℕ) → lower_byte (lower_byte c) ≡ lower_byte c
lower_byte-lower_byte c = ground arith

pub to_lower-to_lower : (s : Str) → to_lower (to_lower s) ≡ to_lower s
to_lower-to_lower [] = refl
to_lower-to_lower (c ∷ s) =
    rw (lower_byte-lower_byte c) (ap (◌∷◌ (lower_byte c)) (to_lower-to_lower s))

pub length-to_lower : (s : Str) → length (to_lower s) ≡ length s
length-to_lower [] = refl
length-to_lower (c ∷ s) = ground (arith, length-to_lower s)
