-- ===== src/Acl/Rules.antt =====
-- What a compiled rule list decides.
use easy_docker_proxy.Base.{
  ◌≡◌, refl, ap, Bool, true, false, not, List, [], ◌∷◌, Option, none, some, any, any_iff, ◌↔◌, In,
  Str, is_empty, arith, if◌then◌else◌, ◌||◌,
}
use easy_docker_proxy.Net.{Ip, IpNet, contains}
use easy_docker_proxy.Net.Parse.{parse_ip, parse_cidr}
use easy_docker_proxy.Config.{AccessControl, whitelist, blacklist}
use easy_docker_proxy.Acl.{
  entry_text, entry_net, add_entry, parse_ip_rules, in_nets, build, build_mode, allows, allows_mode,
}

-- The network that one entry of the configuration stands for, if any.
abbrev pub rule : Str → Option IpNet
rule raw =
    let e = entry_text raw in if is_empty e then none else entry_net (parse_cidr e) (parse_ip e)

abbrev pub net_has : Ip → Option IpNet → Bool
net_has ip none = false
net_has ip (some n) = contains n ip

-- The entry's network holds the address.
abbrev pub covers : Ip → Str → Bool
covers ip raw = net_has ip (rule raw)

add_entry-covers :
    (ip : Ip) (raw : Str) (entries : List Str) (rest : List IpNet × List Str)
    → in_nets ip rest.0 ≡ any (covers ip) entries
    → (b : Bool) (o : Option IpNet)
    → in_nets ip (add_entry raw b o rest).0
      ≡ (net_has ip (if b then none else o) || any (covers ip) entries)
add_entry-covers ip raw entries rest ih true o = ih
add_entry-covers ip raw entries rest ih false none = ih
add_entry-covers ip raw entries rest ih false (some n) = ap (λ b. contains n ip || b) ih

-- The compiled list holds an address exactly when one of the entries does.
pub in_nets-parse_ip_rules :
    (ip : Ip) (entries : List Str) → in_nets ip (parse_ip_rules entries).0 ≡ any (covers ip) entries
unfolding parse_ip_rules
in_nets-parse_ip_rules ip [] = refl
in_nets-parse_ip_rules ip (raw ∷ entries) =
    let e = entry_text raw in
    add_entry-covers ip raw entries (parse_ip_rules entries) (in_nets-parse_ip_rules ip entries)
      (is_empty e) (entry_net (parse_cidr e) (parse_ip e))

-- An entry of the list whose network holds the address that the text stands for.
abbrev pub Listed : Str → List Str → Type 0
Listed ip_str entries =
    (ip : Ip) × (parse_ip ip_str ≡ some ip) × (raw : Str) × In raw entries × (covers ip raw ≡ true)

covered : Option Ip → List Str → Bool
covered none entries = false
covered (some ip) entries = any (covers ip) entries

covered_iff :
    (s : Str) (entries : List Str) → (covered (parse_ip s) entries ≡ true) ↔ Listed s entries
unfolding covered
covered_iff s entries =
    (to (parse_ip s) refl, λ l. rw l.1 ((any_iff (covers l.0) entries).1 (l.2, l.3, l.4)))
  where
    to : (o : Option Ip) → parse_ip s ≡ o → covered o entries ≡ true → Listed s entries
    to none e h = cc
    to (some ip) e h = let (raw, i, c) = (any_iff (covers ip) entries).0 h in (ip, e, raw, i, c)

allows_whitelist :
    (ac : AccessControl) (s : Str)
    → ac.mode ≡ whitelist
    → allows (build (some ac)) s ≡ covered (parse_ip s) ac.whitelist
unfolding build allows covered
allows_whitelist ac s m = rw m (at (parse_ip s))
  where
    at :
        (o : Option Ip) → allows_mode whitelist (build_mode whitelist ac) o ≡ covered o ac.whitelist
    at none = refl
    at (some ip) = in_nets-parse_ip_rules ip ac.whitelist

allows_blacklist :
    (ac : AccessControl) (s : Str)
    → ac.mode ≡ blacklist
    → allows (build (some ac)) s ≡ not (covered (parse_ip s) ac.blacklist)
unfolding build allows covered
allows_blacklist ac s m = rw m (at (parse_ip s))
  where
    at :
        (o : Option Ip)
        → allows_mode blacklist (build_mode blacklist ac) o ≡ not (covered o ac.blacklist)
    at none = refl
    at (some ip) = ap not (in_nets-parse_ip_rules ip ac.blacklist)

-- In whitelist mode a client is let in exactly when its text is an address that the network of
-- some whitelist entry holds; anything that is no address is refused.
pub allows-whitelist_iff :
    (ac : AccessControl) (s : Str)
    → ac.mode ≡ whitelist
    → (allows (build (some ac)) s ≡ true) ↔ Listed s ac.whitelist
allows-whitelist_iff ac s m = rw (allows_whitelist ac s m) (covered_iff s ac.whitelist)

-- In blacklist mode a client is refused exactly when its text is an address that the network of
-- some blacklist entry holds; anything that is no address is let in.
pub allows-blacklist_iff :
    (ac : AccessControl) (s : Str)
    → ac.mode ≡ blacklist
    → (allows (build (some ac)) s ≡ false) ↔ Listed s ac.blacklist
allows-blacklist_iff ac s m = rw (allows_blacklist ac s m) (
  λ h. (covered_iff s ac.blacklist).0 (ground arith),
  λ l. ap not ((covered_iff s ac.blacklist).1 l),
)
