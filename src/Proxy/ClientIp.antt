-- ===== src/Proxy/ClientIp.antt =====
-- internal/proxy/proxy.go: `ClientIP`, the address that the access rules and the limiter see.
pub mod Hops
pub mod Spoof
mod Tests
use mathlib.Core.List.{reverse}
use easy_docker_proxy.Base.{
  Bool, true, false, not, ◌&&◌, ◌||◌, List, [], ◌∷◌, Option, none, some, if◌then◌else◌, Str, codes,
  is_empty, trim_space, split,
}
use easy_docker_proxy.Net.{IpNet}
use easy_docker_proxy.Net.Parse.{parse_ip}
use easy_docker_proxy.Proxy.Path.{is_some}
use easy_docker_proxy.Proxy.Request.{Request, get, remote_ip, ip_in_nets}

unfoldable pub is_ip : Str → Bool
is_ip s = is_some (parse_ip s)

-- The loop from the right, on the reversed pieces: what it returns, if it does, and `firstValid`.
unfoldable pub walk_back : List IpNet → List Str → Str → Option Str × Str
walk_back trusted [] first_valid = (none, first_valid)
walk_back trusted (raw ∷ parts) first_valid =
    let ip = trim_space raw in
    let seen = if is_ip ip && is_empty first_valid then ip else first_valid in
    let rest = walk_back trusted parts seen in
    if is_ip ip && not (ip_in_nets ip trusted) then (some ip, seen) else rest

-- The loop from the left.
unfoldable pub left_most : List Str → Option Str
left_most [] = none
left_most (raw ∷ parts) =
    let rest = left_most parts in let ip = trim_space raw in if is_ip ip then some ip else rest

abbrev pub untrusted_or_left : Option Str × Str → Option Str → Str
untrusted_or_left (some ip, first_valid) left = ip
untrusted_or_left (none, first_valid) (some ip) = ip
untrusted_or_left (none, first_valid) none = first_valid

unfoldable pub client_ip_from_xff : Str → List IpNet → Str
client_ip_from_xff xff trusted =
    let parts = split b',' xff in
    untrusted_or_left (walk_back trusted (reverse parts) []) (left_most parts)

unfoldable pub client_ip : List IpNet → Request → Str
client_ip trusted r =
    let remote = remote_ip r in
    let xff = get r.header (codes "X-Forwarded-For") in
    let forwarded = client_ip_from_xff xff trusted in
    let xri = trim_space (get r.header (codes "X-Real-IP")) in
    if is_empty remote || not (ip_in_nets remote trusted)
    then remote
    else if not (is_empty xff) && not (is_empty forwarded)
    then forwarded
    else if not (is_empty xri) && is_ip xri
    then xri
    else remote
