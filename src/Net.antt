-- ===== src/Net.antt =====
-- Package net of the Go library, as far as the program uses it: addresses, networks, and the texts
-- that `net.ParseIP` and `net.ParseCIDR` read (Net/Parse).
--
-- Every use in the program turns a parsed address into its 4-byte form where `To4` has one, so an
-- address is one of two kinds: 4 bytes, or 16 bytes that are not an IPv4-mapped address.
pub mod Parse
mod Tests
use easy_docker_proxy.Base.{
  ℕ, ◌+◌, ◌-◌, ◌*◌, ◌/◌, ◌^◌, ◌≡◌, refl, Bool, true, false, ◌&&◌, ◌==◌, leb, if◌then◌else◌,
}

pub data Ip : Type 0 where
  v4 : ℕ → Ip
  v6 : ℕ → Ip

-- A network, with the number of leading bits that it fixes.
pub data IpNet : Type 0 where
  net4 : (addr bits : ℕ) → IpNet
  net6 : (addr bits : ℕ) → IpNet

-- ::ffff:0:0/96
abbrev pub mapped : ℕ
mapped = 0xffff * 2 ^ 32

-- `To4`, where it has an answer.
unfoldable pub to_4 : ℕ → Ip
to_4 x = if x / 2 ^ 32 == 0xffff then v4 (x - mapped) else v6 x

-- The leading bits of a word of `width` bits.
abbrev pub leading : ℕ → ℕ → ℕ → ℕ
leading width bits x = x / 2 ^ (width - bits)

-- `IPNet.Contains`
unfoldable pub contains : IpNet → Ip → Bool
contains (net4 a n) (v4 x) = leading 32 n a == leading 32 n x
contains (net6 a n) (v6 x) = leading 128 n a == leading 128 n x
contains (net4 a n) (v6 x) = false
contains (net6 a n) (v4 x) = false

-- The network of one address.
abbrev pub single : Ip → IpNet
single (v4 x) = net4 x 32
single (v6 x) = net6 x 128
