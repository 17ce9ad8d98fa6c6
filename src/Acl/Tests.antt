-- ===== src/Acl/Tests.antt =====
-- The matcher at concrete rules.
use easy_docker_proxy.Base.{codes, [], ◌∷◌, ◌≡◌, refl, true, false, some, ◌↔◌, trim_space}
use easy_docker_proxy.Net.{contains}
use easy_docker_proxy.Net.Parse.{parse_ip, parse_cidr}
use easy_docker_proxy.Config.{AccessControl, AccessControlMode, whitelist, blacklist}
use easy_docker_proxy.Acl.{build, allows, entry_text, parse_ip_rules}
use easy_docker_proxy.Acl.Rules.{Listed, allows-whitelist_iff}

abbrev control : AccessControlMode → AccessControl
control mode = record {
  mode = mode;
  whitelist = codes "10.0.0.0/8 # office" ∷ codes "# nothing" ∷ codes "::1" ∷ [];
  blacklist = codes "203.0.113.7" ∷ codes "bogus" ∷ [];
}

decisions :
    (allows (build (some (control whitelist))) (codes "10.9.8.7") ≡ true)
    × (allows (build (some (control whitelist))) (codes "::ffff:10.9.8.7") ≡ true)
    × (allows (build (some (control whitelist))) (codes "11.9.8.7") ≡ false)
    × (allows (build (some (control whitelist))) (codes "") ≡ false)
    × (allows (build (some (control blacklist))) (codes "203.0.113.7") ≡ false)
    × (allows (build (some (control blacklist))) (codes "") ≡ true)
    × ((build (some (control blacklist))).invalid ≡ codes "bogus" ∷ [])
unfolding build allows parse_ip_rules entry_text trim_space parse_ip parse_cidr contains
decisions = (refl, refl, refl, refl, refl, refl, refl)

allows-whitelist_iff_example :
    (allows (build (some (control whitelist))) (codes "10.9.8.7") ≡ true)
    ↔ Listed (codes "10.9.8.7") (control whitelist).whitelist
allows-whitelist_iff_example = allows-whitelist_iff (control whitelist) (codes "10.9.8.7") refl
