-- ===== src/Net/Parse.antt =====
-- `net.ParseIP` and `net.ParseCIDR`, after the Go library's netip package.
use mathlib.Core.Option
use easy_docker_proxy.Base.{
  ℕ, zero, suc, ◌+◌, ◌-◌, ◌*◌, ◌/◌, ◌^◌, Bool, true, false, not, ◌&&◌, ◌||◌, List, [], ◌∷◌, ◌++◌,
  Option, none, some, Str, leb, ltb, ◌==◌, if◌then◌else◌, is_empty, split, cut, length,
}
use easy_docker_proxy.Net.{Ip, v4, v6, IpNet, net4, net6, to_4}

infixl 5 ◌>>=◌ ◌>>◌
abbrev ◌>>=◌ {ℓ κ} : {A : Type ℓ} {B : Type κ} → Option A → (A → Option B) → Option B
none >>= f = none
some a >>= f = f a

abbrev ◌>>◌ {ℓ} : {B : Type ℓ} → Option (Unit {0}) → Option B → Option B
m >> k = m >>= λ _. k

abbrev guard : Bool → Option (Unit {0})
guard true = some tt
guard false = none

abbrev is_digit : ℕ → Bool
is_digit c = leb b'0' c && leb c b'9'

-- The value of a run of decimal digits.
decimal_onto : ℕ → Str → Option ℕ
decimal_onto acc [] = some acc
decimal_onto acc (c ∷ s) = do guard (is_digit c); decimal_onto (acc * 10 + (c - b'0')) s

-- One field of a dotted address: no leading zero, at most 255.
octet : Str → Option ℕ
octet [] = none
octet (c ∷ s) = do
  guard (is_empty s || not (c == b'0'))
  n ← decimal_onto 0 (c ∷ s)
  guard (leb n 255)
  some n

ipv4_fields : List Str → Option ℕ
ipv4_fields (a ∷ b ∷ c ∷ d ∷ []) = do
  w ← octet a
  x ← octet b
  y ← octet c
  z ← octet d
  some (((w * 256 + x) * 256 + y) * 256 + z)
ipv4_fields _ = none

ipv4 : Str → Option ℕ
ipv4 s = ipv4_fields (split b'.' s)

hex_digit : ℕ → Option ℕ
hex_digit c =
    if is_digit c
    then some (c - b'0')
    else if leb b'a' c && leb c b'f'
    then some (c - 87)
    else if leb b'A' c && leb c b'F'
    then some (c - 55)
    else none

-- The leading hex digits of a text: how many, their value, and the rest.
hex_run : ℕ → ℕ → Str → ℕ × ℕ × Str
hex_run n acc [] = (n, acc, [])
hex_run n acc (c ∷ s) = elim (hex_digit c) [
  | none ↦ (n, acc, c ∷ s)
  | some d ↦ hex_run (n + 1) (acc * 16 + d) s
]

-- The groups before and after the ellipsis, if there is one.
pub record Groups : Type 0 where
  pub before : List ℕ
  pub after : Option (List ℕ)

abbrev add_group : Groups → ℕ → Groups
add_group g x = elim g.after [
  | none ↦ record g { before = g.before ++ x ∷ [] }
  | some later ↦ record g { after = some (later ++ x ∷ []) }
]

abbrev count_groups : Groups → ℕ
count_groups g = length g.before + elim g.after [ none ↦ 0 | some later ↦ length later ]

abbrev has_ellipsis : Groups → Bool
has_ellipsis g = elim g.after [ none ↦ false | some _ ↦ true ]

-- After a group: the end, or a colon with more behind it, or the ellipsis. The flag says that the
-- loop is left.
ipv6_separator : Groups → Str → Option (Bool × Groups × Str)
ipv6_separator g [] = some (true, g, [])
ipv6_separator g (c ∷ []) = none
ipv6_separator g (c ∷ d ∷ s) =
    if not (c == b':')
    then none
    else if not (d == b':')
    then some (false, g, d ∷ s)
    else if has_ellipsis g
    then none
    else some (is_empty s, record g { after = some [] }, s)

-- A dotted address in place of the last two groups.
ipv6_tail : Groups → Str → Option Groups
ipv6_tail g s = do
  guard (has_ellipsis g || count_groups g == 6)
  guard (leb (count_groups g) 6)
  x ← ipv4 s
  some (add_group (add_group g (x / 65536)) (x - x / 65536 * 65536))

-- The loop over at most eight groups.
ipv6_groups : ℕ → Groups → Str → Option (Groups × Str)
unfolding hex_run hex_digit ipv6_tail ipv4 ipv4_fields octet decimal_onto ipv6_separator
ipv6_groups zero g s = some (g, s)
ipv6_groups (suc k) g s =
    let (n, acc, rest) = hex_run 0 0 s in
    if n == 0 || ltb 4 n then none else elim rest [
      | [] ↦ some (add_group g acc, [])
      | c ∷ more ↦
          if c == b'.'
          then Option.map (λ g'. (g', [])) (ipv6_tail g s)
          else (ipv6_separator (add_group g acc) (c ∷ more) >>= λ r. elim r.0 [
            | true ↦ some (r.1, r.2)
            | false ↦ ipv6_groups k r.1 r.2
          ])
    ]

join_groups : ℕ → List ℕ → ℕ
join_groups acc [] = acc
join_groups acc (x ∷ xs) = join_groups (acc * 65536 + x) xs

ipv6_value : Groups → Str → Option ℕ
unfolding join_groups
ipv6_value g (c ∷ s) = none
ipv6_value g [] = elim g.after [
  | none ↦ do guard (count_groups g == 8); some (join_groups 0 g.before)
  | some later ↦ do
    guard (ltb (count_groups g) 8)
    some (join_groups 0 g.before * 65536 ^ (8 - length g.before) + join_groups 0 later)
]

ipv6_after : Groups → Str → Option ℕ
unfolding ipv6_groups ipv6_value
ipv6_after g s = do (g', rest) ← ipv6_groups 8 g s; ipv6_value g' rest

ipv6 : Str → Option ℕ
unfolding ipv6_after
ipv6 (c ∷ d ∷ []) = if c == b':' && d == b':' then some 0 else none
ipv6 (c ∷ d ∷ e ∷ s) =
    if c == b':' && d == b':'
    then ipv6_after (record { before = []; after = some [] }) (e ∷ s)
    else ipv6_after (record { before = []; after = none }) (c ∷ d ∷ e ∷ s)
ipv6 _ = none

-- An address with the width that its text gave it: the first of `.`, `:` and `%` decides.
pub data Family : Type 0 where
  dotted colons neither : Family

family : Str → Family
family [] = neither
family (c ∷ s) =
    if c == b'.'
    then dotted
    else if c == b':'
    then colons
    else if c == b'%'
    then neither
    else family s

parse_in : Family → Str → Option Ip
unfolding ipv4 ipv4_fields octet decimal_onto ipv6
parse_in dotted s = do x ← ipv4 s; some (v4 x)
parse_in colons s = do x ← ipv6 s; some (v6 x)
parse_in neither s = none

abbrev narrow : Ip → Ip
narrow (v4 x) = v4 x
narrow (v6 x) = to_4 x

-- `net.ParseIP`, in the 4-byte form where there is one.
unfoldable pub parse_ip : Str → Option Ip
unfolding parse_in family to_4
parse_ip s = Option.map narrow (parse_in (family s) s)

abbrev mask : ℕ → ℕ → ℕ → ℕ
mask width bits x = x / 2 ^ (width - bits) * 2 ^ (width - bits)

-- A 16-byte network whose masked address is IPv4-mapped is compared in its last 4 bytes.
net6_of : ℕ → ℕ → IpNet
net6_of x bits = elim (to_4 (mask 128 bits x)) [ v4 y ↦ net4 y (bits - 96) | v6 y ↦ net6 y bits ]

cidr_of : Ip → ℕ → Option IpNet
unfolding net6_of
cidr_of (v4 x) bits = do guard (leb bits 32); some (net4 (mask 32 bits x) bits)
cidr_of (v6 x) bits = do guard (leb bits 128); some (net6_of x bits)

-- `net.ParseCIDR`; the text splits at its first slash.
unfoldable pub parse_cidr : Str → Option IpNet
unfolding parse_in family to_4 cidr_of
parse_cidr s = do
  let parts = cut b'/' s
  suffix ← parts.1
  guard (not (is_empty suffix))
  ip ← parse_in (family parts.0) parts.0
  bits ← decimal_onto 0 suffix
  cidr_of ip bits
