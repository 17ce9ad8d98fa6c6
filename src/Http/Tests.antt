-- ===== src/Http/Tests.antt =====
-- Numbers and paths at concrete texts.
use easy_docker_proxy.Base.{◌≡◌, refl, true, false, none, some, codes}
use easy_docker_proxy.Base.Int.{pos, negsuc}
use easy_docker_proxy.Http.{parse_int, atoi_or_zero, is_clean}

numbers :
    (parse_int (codes "42") ≡ some (pos 42))
    × (parse_int (codes "-1") ≡ some (negsuc 0))
    × (parse_int (codes "9223372036854775808") ≡ none)
    × (parse_int (codes "4x") ≡ none)
    × (parse_int (codes "+") ≡ none)
    × (atoi_or_zero (codes "9223372036854775808") ≡ pos 9223372036854775807)
    × (atoi_or_zero (codes "x") ≡ pos 0)
unfolding parse_int atoi_or_zero
numbers = (refl, refl, refl, refl, refl, refl, refl)

paths :
    (is_clean (codes "/api/v1/users/") ≡ true)
    × (is_clean (codes "/") ≡ true)
    × (is_clean (codes "/api//v1") ≡ false)
    × (is_clean (codes "/api/../-/config") ≡ false)
    × (is_clean (codes "x") ≡ false)
unfolding is_clean
paths = (refl, refl, refl, refl, refl)
