-- ===== src/Proxy/Redirects/Allowed.antt =====
-- Which redirects are followed.
use easy_docker_proxy.Base.{
  ◌≡◌, ◌≢◌, ◌⊎◌, In, equal_fold, Bool, true, false, not, List, ◌∷◌, Option, none, some, Str, codes,
  is_empty, to_lower, trim_space, All, length,
}
use easy_docker_proxy.Config.{Config, is_enabled}
use easy_docker_proxy.Net.{Ip}
use easy_docker_proxy.Net.Parse.{parse_ip}
use easy_docker_proxy.Proxy.Redirects.Public.{Public}
use easy_docker_proxy.Proxy.Redirects.{
  Link, Verdict, followed, too_many, insecure, bad_scheme, no_host, unresolved, not_public,
  canonical_authority,
}

-- The host is an address or resolves to some, all of them public.
abbrev pub PublicHost : (Str → Option (List Ip)) → Str → Type 0
PublicHost resolve host =
    ((ip : Ip) × ((parse_ip host ≡ some ip) × Public ip))
    ⊎ ((addrs : List Ip) × ((resolve host ≡ some addrs)
          × (All Public addrs × ((length addrs ≡ 0) → ⊥))))

-- What holds where a verdict is to follow.
abbrev pub Holds : Type 0 → Verdict → Type 0
Holds C followed = C
Holds C too_many = Unit
Holds C insecure = Unit
Holds C bad_scheme = Unit
Holds C no_host = Unit
Holds C unresolved = Unit
Holds C not_public = Unit

abbrev pub host_of : Link → Str
host_of target = to_lower (trim_space target.hostname)

-- The host is the origin's, or stands in the allowlist, and that is not switched off.
abbrev pub Named : Option Link → Config → Str → Type 0
Named origin cfg host =
    ((o : Link) × ((origin ≡ some o) × (equal_fold host o.hostname ≡ true)))
    ⊎ ((cfg.upstream_allowlist.enabled ≢ some false)
        × ((a : Str) × In a cfg.upstream_allowlist.hosts × (equal_fold (trim_space a) host ≡ true)))

-- The host is named by the configuration, or all its addresses are public.
abbrev pub SafeHost : Option Link → Config → (Str → Option (List Ip)) → Link → Type 0
SafeHost origin cfg resolve target =
    (is_empty (host_of target) ≡ false)
    × (Named origin cfg (host_of target) ⊎ PublicHost resolve (host_of target))

-- HTTPS; or HTTP, where the configuration allows it, at the origin itself, which is HTTP too.
abbrev pub SafeScheme : Option Link → Config → Link → Type 0
SafeScheme origin cfg target =
    (to_lower target.scheme ≡ codes "https")
    ⊎ ((to_lower target.scheme ≡ codes "http")
        × ((cfg.allow_insecure_upstream ≡ true)
            × ((o : Link) × ((origin ≡ some o)
                  × ((to_lower o.scheme ≡ codes "http")
                      × (canonical_authority target ≡ canonical_authority o))))))

enabled : (o : Option Bool) → not (is_enabled o) ≡ false → o ≢ some false
enabled none h e = cc
enabled (some true) h e = cc
enabled (some false) h e = cc

-- The last request went to another place.
abbrev pub Leaves : List Link → Link → Type 0
Leaves via target =
    (last : Link) × (earlier : List Link) × (via ≡ last ∷ earlier)
    × (canonical_authority target ≢ canonical_authority last)
