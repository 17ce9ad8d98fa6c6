-- ===== src/Proxy/Redirects.antt =====
-- internal/proxy/proxy.go: `redirectPolicy`, which says whether a redirect of an upstream is
-- followed. What the resolver answers is an argument; `none` is an error of it.
--
-- `IsGlobalUnicast`, `IsPrivate` and the other tests of net.IP are lists of networks here.
pub mod Public
pub mod Allowed
mod Tests
use easy_docker_proxy.Base.{
  ℕ, ◌+◌, ◌*◌, ◌^◌, Bool, true, false, not, ◌&&◌, ◌||◌, List, [], ◌∷◌, ◌++◌, Option, none, some,
  if◌then◌else◌, Str, codes, is_empty, str_eq, equal_fold, to_lower, trim_space, any, all, length,
  leb, ◌==◌,
}
use easy_docker_proxy.Config.{Config, is_enabled}
use easy_docker_proxy.Net.{Ip, IpNet, net4, net6, contains}
use easy_docker_proxy.Net.Parse.{parse_ip}
use easy_docker_proxy.Proxy.Request.{Header, delete}

-- The parts of a URL that are read.
pub record Link : Type 0 where
  pub scheme : Str
  pub hostname : Str
  pub port : Str

pub data Verdict : Type 0 where
  followed too_many insecure bad_scheme no_host unresolved not_public : Verdict

-- `net.JoinHostPort`
abbrev pub join_host_port : Str → Str → Str
join_host_port host port =
    if any (λ c. c == b':') host
    then codes "[" ++ host ++ codes "]:" ++ port
    else host ++ b':' ∷ port

abbrev pub default_port : Str → Str
default_port scheme =
    if str_eq scheme (codes "http")
    then codes "80"
    else if str_eq scheme (codes "https")
    then codes "443"
    else []

unfoldable pub canonical_authority : Link → Str
canonical_authority u =
    join_host_port (to_lower u.hostname)
      (if is_empty u.port then default_port (to_lower u.scheme) else u.port)

abbrev pub ip4 : ℕ → ℕ → ℕ → ℕ → ℕ
ip4 a b c d = a * 2 ^ 24 + (b * 2 ^ 16 + (c * 2 ^ 8 + d))

-- Private, loopback, link-local, multicast, unspecified and broadcast addresses.
abbrev pub special_nets : List IpNet
special_nets =
    net4 (ip4 10 0 0 0) 8
    ∷ net4 (ip4 172 16 0 0) 12
    ∷ net4 (ip4 192 168 0 0) 16
    ∷ net6 (0xfc * 2 ^ 120) 7
    ∷ net4 (ip4 127 0 0 0) 8
    ∷ net6 1 128
    ∷ net4 (ip4 169 254 0 0) 16
    ∷ net6 (0xfe80 * 2 ^ 112) 10
    ∷ net4 (ip4 224 0 0 0) 4
    ∷ net6 (0xff * 2 ^ 120) 8
    ∷ net4 0 32
    ∷ net6 0 128
    ∷ net4 (ip4 255 255 255 255) 32
    ∷ []

abbrev pub non_public_redirect_nets : List IpNet
non_public_redirect_nets =
    net4 0 8
    ∷ net4 (ip4 100 64 0 0) 10
    ∷ net4 (ip4 192 0 0 0) 24
    ∷ net4 (ip4 192 0 2 0) 24
    ∷ net4 (ip4 192 88 99 0) 24
    ∷ net4 (ip4 198 18 0 0) 15
    ∷ net4 (ip4 198 51 100 0) 24
    ∷ net4 (ip4 203 0 113 0) 24
    ∷ net4 (ip4 240 0 0 0) 4
    ∷ net6 (0x20010db8 * 2 ^ 96) 32
    ∷ []

unfoldable pub is_public_redirect_ip : Ip → Bool
is_public_redirect_ip ip =
    if any (λ n. contains n ip) special_nets
    then false
    else not (any (λ n. contains n ip) non_public_redirect_nets)

abbrev pub is_origin_host : Str → Option Link → Bool
is_origin_host host none = false
is_origin_host host (some origin) = equal_fold host origin.hostname

unfoldable pub redirect_host_configured : Str → Option Link → Config → Bool
redirect_host_configured host origin cfg =
    if is_origin_host host origin
    then true
    else if not (is_enabled cfg.upstream_allowlist.enabled)
    then false
    else any (λ a. equal_fold (trim_space a) host) cfg.upstream_allowlist.hosts

abbrev pub resolved : Option (List Ip) → Verdict
resolved none = unresolved
resolved (some []) = unresolved
resolved (some (a ∷ addrs)) = if all is_public_redirect_ip (a ∷ addrs) then followed else not_public

abbrev pub by_address : (Str → Option (List Ip)) → Str → Option Ip → Verdict
by_address resolve host (some ip) = if is_public_redirect_ip ip then followed else not_public
by_address resolve host none = resolved (resolve host)

unfoldable pub require_public_redirect_host : (Str → Option (List Ip)) → Str → Verdict
require_public_redirect_host resolve host = by_address resolve host (parse_ip host)

-- Whether the origin is reached over HTTP too, at the same place.
abbrev pub same_http : Option Link → Link → Bool
same_http none target = false
same_http (some origin) target =
    str_eq (to_lower origin.scheme) (codes "http")
    && str_eq (canonical_authority target) (canonical_authority origin)

abbrev pub host_verdict : Option Link → Config → (Str → Option (List Ip)) → Link → Verdict
host_verdict origin cfg resolve target =
    let host = to_lower (trim_space target.hostname) in
    if is_empty host
    then no_host
    else if redirect_host_configured host origin cfg
    then followed
    else require_public_redirect_host resolve host

unfoldable pub target_verdict : Option Link → Config → (Str → Option (List Ip)) → Link → Verdict
target_verdict origin cfg resolve target =
    let scheme = to_lower target.scheme in
    if str_eq scheme (codes "https")
    then host_verdict origin cfg resolve target
    else if not (str_eq scheme (codes "http"))
    then bad_scheme
    else if not (cfg.allow_insecure_upstream && same_http origin target)
    then insecure
    else host_verdict origin cfg resolve target

-- `via` has the last request first.
abbrev pub moved : List Link → Link → Bool
moved [] target = false
moved (last ∷ via) target = not (str_eq (canonical_authority target) (canonical_authority last))

-- The header that the redirected request has then, and whether it is sent.
unfoldable pub redirect_policy :
    Option Link → Config → (Str → Option (List Ip)) → List Link → Link → Header → Header × Verdict
redirect_policy origin cfg resolve via target header =
    if leb 5 (length via) then (header, too_many) else (
      (if moved via target then delete header (codes "Authorization") else header),
      target_verdict origin cfg resolve target,
    )
