-- ===== src/Acl.antt =====
-- internal/acl/acl.go: which client addresses may use the data plane. The same loop over rules
-- reads the trusted proxies in internal/proxy/proxy.go.
pub mod Rules
mod Tests
use easy_docker_proxy.Base.{
  ℕ, Bool, true, false, not, List, [], ◌∷◌, ◌++◌, Option, none, some, any, if◌then◌else◌, Str,
  is_empty, cut, trim_space,
}
use easy_docker_proxy.Net.{Ip, IpNet, contains, single}
use easy_docker_proxy.Net.Parse.{parse_ip, parse_cidr}
use easy_docker_proxy.Config.{
  AccessControlMode, unset, off, whitelist, blacklist, invalid, AccessControl,
}

pub record Matcher : Type 0 where
  pub mode : AccessControlMode
  pub whitelist : List IpNet
  pub blacklist : List IpNet
  pub invalid : List Str

abbrev pub uncomment : Str → Str × Option Str → Str
uncomment e (front, none) = e
uncomment e (front, some comment) = trim_space front

-- An entry without its blanks and its `#` comment.
unfoldable pub entry_text : Str → Str
entry_text raw = let e = trim_space raw in uncomment e (cut b'#' e)

abbrev pub entry_net : Option IpNet → Option Ip → Option IpNet
entry_net (some n) ip = some n
entry_net none (some ip) = some (single ip)
entry_net none none = none

-- What the loop does with one entry: the networks and the invalid entries, in order.
abbrev pub add_entry : Str → Bool → Option IpNet → List IpNet × List Str → List IpNet × List Str
add_entry raw true n rest = rest
add_entry raw false (some n) (nets, bad) = (n ∷ nets, bad)
add_entry raw false none (nets, bad) = (nets, raw ∷ bad)

unfoldable pub parse_ip_rules : List Str → List IpNet × List Str
parse_ip_rules [] = ([], [])
parse_ip_rules (raw ∷ entries) =
    let e = entry_text raw in
    add_entry raw (is_empty e) (entry_net (parse_cidr e) (parse_ip e)) (parse_ip_rules entries)

unfoldable pub build_mode : AccessControlMode → AccessControl → Matcher
build_mode m ac =
    let w = parse_ip_rules ac.whitelist in
    let b = parse_ip_rules ac.blacklist in
    record { mode = m; whitelist = w.0; blacklist = b.0; invalid = w.1 ++ b.1 }

abbrev pub disabled : Matcher
disabled = record { mode = off; whitelist = []; blacklist = []; invalid = [] }

abbrev pub build_on : AccessControlMode → AccessControl → Matcher
build_on whitelist ac = build_mode whitelist ac
build_on blacklist ac = build_mode blacklist ac
build_on _ ac = disabled

unfoldable pub build : Option AccessControl → Matcher
unfolding build_mode
build none = disabled
build (some ac) = build_on ac.mode ac

-- The loop over networks; it is the loop of `ipInNets` too.
abbrev pub in_nets : Ip → List IpNet → Bool
in_nets ip nets = any (λ n. contains n ip) nets

abbrev pub allows_mode : AccessControlMode → Matcher → Option Ip → Bool
allows_mode unset m ip = true
allows_mode off m ip = true
allows_mode whitelist m none = false
allows_mode whitelist m (some ip) = in_nets ip m.whitelist
allows_mode blacklist m none = true
allows_mode blacklist m (some ip) = not (in_nets ip m.blacklist)
allows_mode (invalid s) m ip = true

unfoldable pub allows : Matcher → Str → Bool
allows m ip_str = allows_mode m.mode m (parse_ip ip_str)
