-- ===== src/Store/Sql/Limits.antt =====
-- A limit that a client gives is at least 1 and at most the cap.
use easy_docker_proxy.Base.{ℕ, ◌≤◌, arith}
use easy_docker_proxy.Base.Int.{ℤ, pos, negsuc}
use easy_docker_proxy.Store.Sql.{limited}

pub limited-bounds :
    (d cap : ℕ) (z : ℤ) → 1 ≤ d → d ≤ cap → (1 ≤ limited d cap z) × (limited d cap z ≤ cap)
unfolding limited
limited-bounds d cap (pos n) lo hi = ground (arith, lo, hi)
limited-bounds d cap (negsuc n) lo hi = ground (arith, lo, hi)
