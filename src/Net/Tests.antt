-- ===== src/Net/Tests.antt =====
-- The parsers on texts of every form.
use easy_docker_proxy.Base.{◌≡◌, refl, true, false, none, some, codes}
use easy_docker_proxy.Net.{v4, v6, net4, net6, contains}
use easy_docker_proxy.Net.Parse.{parse_ip, parse_cidr}

addresses :
    (parse_ip (codes "192.168.1.10") ≡ some (v4 0xc0a8010a))
    × (parse_ip (codes "192.168.01.10") ≡ none)
    × (parse_ip (codes "1.2.3") ≡ none)
    × (parse_ip (codes "256.0.0.1") ≡ none)
    × (parse_ip (codes "::1") ≡ some (v6 1))
    × (parse_ip (codes "::") ≡ some (v6 0))
    × (parse_ip (codes "::ffff:10.0.0.1") ≡ some (v4 0x0a000001))
    × (parse_ip (codes "2001:db8::8:800:200c:417a") ≡ some (v6 0x20010db80000000000080800200c417a))
    × (parse_ip (codes "1:2:3:4:5:6:7:8") ≡ some (v6 0x00010002000300040005000600070008))
    × (parse_ip (codes "1:2:3:4:5:6:7:8::") ≡ none)
    × (parse_ip (codes "1::2::3") ≡ none)
    × (parse_ip (codes "fe80::1%eth0") ≡ none)
    × (parse_ip (codes "") ≡ none)
unfolding parse_ip
addresses = (refl, refl, refl, refl, refl, refl, refl, refl, refl, refl, refl, refl, refl)

networks :
    (parse_cidr (codes "10.1.2.3/8") ≡ some (net4 0x0a000000 8))
    × (parse_cidr (codes "2001:db8::/32") ≡ some (net6 0x20010db8000000000000000000000000 32))
    × (parse_cidr (codes "10.0.0.0/33") ≡ none)
    × (parse_cidr (codes "10.0.0.0") ≡ none)
    × (parse_cidr (codes "::ffff:10.0.0.0/104") ≡ some (net4 0x0a000000 8))
unfolding parse_cidr
networks = (refl, refl, refl, refl, refl)

membership :
    (contains (net4 0x0a000000 8) (v4 0x0aff0102) ≡ true)
    × (contains (net4 0x0a000000 8) (v4 0x0bff0102) ≡ false)
    × (contains (net4 0 0) (v6 1) ≡ false)
unfolding contains
membership = (refl, refl, refl)
