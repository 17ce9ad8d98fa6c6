-- ===== src/Http.antt =====
-- What the handlers share of package net/http and package strconv: status codes, replies, numbers
-- in texts, and the cleaning of paths that a `ServeMux` asks for.
mod Tests
use mathlib.Core.List.{reverse}
use easy_docker_proxy.Base.{
  ℕ, ◌+◌, ◌-◌, ◌*◌, ◌^◌, Bool, true, false, not, ◌&&◌, ◌||◌, List, [], ◌∷◌, Option, none, some, ltb,
  leb, ◌==◌, if◌then◌else◌, all, Str, codes, is_empty, str_eq, has_prefix, split, drop, equal_fold,
  take, length, trim_space,
}
use easy_docker_proxy.Base.Int.{ℤ, pos, negsuc}
use easy_docker_proxy.Proxy.Request.{Request, get}

abbrev pub status_ok : ℕ
status_ok = 200

abbrev pub status_created : ℕ
status_created = 201

abbrev pub status_moved_permanently : ℕ
status_moved_permanently = 301

abbrev pub status_found : ℕ
status_found = 302

abbrev pub status_bad_request : ℕ
status_bad_request = 400

abbrev pub status_unauthorized : ℕ
status_unauthorized = 401

abbrev pub status_forbidden : ℕ
status_forbidden = 403

abbrev pub status_not_found : ℕ
status_not_found = 404

abbrev pub status_method_not_allowed : ℕ
status_method_not_allowed = 405

abbrev pub status_conflict : ℕ
status_conflict = 409

abbrev pub status_too_many_requests : ℕ
status_too_many_requests = 429

abbrev pub status_internal_server_error : ℕ
status_internal_server_error = 500

abbrev pub status_bad_gateway : ℕ
status_bad_gateway = 502

abbrev pub is_method : Request → Str → Bool
is_method r m = str_eq r.method m

-- `strings.TrimPrefix`
abbrev pub trim_prefix : Str → Str → Str
trim_prefix s p = if has_prefix s p then drop (length p) s else s

abbrev pub is_digit : ℕ → Bool
is_digit c = leb b'0' c && leb c b'9'

abbrev pub digits_value : ℕ → Str → ℕ
digits_value acc [] = acc
digits_value acc (c ∷ s) = digits_value (acc * 10 + (c - b'0')) s

-- The digits of a number, if there are any and nothing else.
abbrev pub digits : Str → Option ℕ
digits s = if not (is_empty s) && all is_digit s then some (digits_value 0 s) else none

abbrev negative : ℕ → ℤ
negative ℕ.zero = pos 0
negative (ℕ.suc n) = negsuc n

abbrev pub in_range : Bool → Option ℕ → Option ℤ
in_range minus none = none
in_range true (some n) = if leb n (2 ^ 63) then some (negative n) else none
in_range false (some n) = if ltb n (2 ^ 63) then some (pos n) else none

-- `strconv.ParseInt(s, 10, 64)`, and `strconv.Atoi` where an int has 64 bits.
unfoldable pub parse_int : Str → Option ℤ
parse_int [] = none
parse_int (c ∷ s) =
    if c == b'-'
    then in_range true (digits s)
    else if c == b'+'
    then in_range false (digits s)
    else in_range false (digits (c ∷ s))

-- The value of an `Atoi` whose error is dropped: out of range, it is the nearest number.
abbrev clamped : Bool → Option ℕ → ℤ
clamped minus none = pos 0
clamped true (some n) = if leb n (2 ^ 63) then negative n else negsuc (2 ^ 63 - 1)
clamped false (some n) = if ltb n (2 ^ 63) then pos n else pos (2 ^ 63 - 1)

unfoldable pub atoi_or_zero : Str → ℤ
atoi_or_zero [] = pos 0
atoi_or_zero (c ∷ s) =
    if c == b'-'
    then clamped true (digits s)
    else if c == b'+'
    then clamped false (digits s)
    else clamped false (digits (c ∷ s))

abbrev is_dots : Str → Bool
is_dots s = str_eq s (codes ".") || str_eq s (codes "..")

-- The pieces after the first slash: only the last one may be empty, and none is a dot or two.
abbrev pub clean_pieces : List Str → Bool
clean_pieces [] = true
clean_pieces (p ∷ []) = not (is_dots p)
clean_pieces (p ∷ (q ∷ ps)) = not (is_empty p) && not (is_dots p) && clean_pieces (q ∷ ps)

abbrev after_slash : List Str → Bool
after_slash [] = false
after_slash (p ∷ ps) = is_empty p && not (is_nil ps) && clean_pieces ps
  where
    is_nil : List Str → Bool
    is_nil [] = true
    is_nil (_ ∷ _) = false

-- A `ServeMux` redirects any other path to the cleaned one.
unfoldable pub is_clean : Str → Bool
is_clean path = after_slash (split b'/' path)

abbrev pub bearer : Str → Option Str
bearer ah =
    if leb 7 (length ah) && equal_fold (take 7 ah) (codes "Bearer ")
    then some (trim_space (drop 7 ah))
    else none
