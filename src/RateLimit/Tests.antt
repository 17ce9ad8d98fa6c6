-- ===== src/RateLimit/Tests.antt =====
-- The limiter at concrete calls.
use easy_docker_proxy.Base.{
  ℕ, ◌+◌, ◌-◌, ◌*◌, ◌≤◌, ◌≡◌, refl, true, Str, codes, List, [], ◌∷◌, arith,
}
use easy_docker_proxy.Base.Int.{pos, ◌+ℤ◌, ◌-ℤ◌}
use easy_docker_proxy.RateLimit.{
  Limiter, token, new, allow, allow_locked, take_token, refill, fresh, maybe_cleanup_locked,
}
use easy_docker_proxy.RateLimit.Refill.{serve}
use easy_docker_proxy.RateLimit.Bound.{admitted, admitted_rate}
use easy_docker_proxy.RateLimit.Waiting.{run, allow_waited}

-- Two requests a second, in bursts of two.
abbrev limiter : Limiter
limiter = new (record { enabled = true; per_ip_rps = pos 2000; per_ip_burst = pos 2 }) 0

abbrev second : ℕ
second = 1000000000

abbrev calls : List (Str × ℕ)
calls =
    (codes "a", second)
    ∷ (codes "b", second)
    ∷ (codes "a", second)
    ∷ (codes "a", second)
    ∷ (codes "a", 2 * second)
    ∷ (codes "a", 2 * second)
    ∷ (codes "a", 2 * second)
    ∷ []

admitted-calls : admitted (codes "a") limiter calls ≡ 4
unfolding new allow allow_locked take_token refill maybe_cleanup_locked ◌+ℤ◌ ◌-ℤ◌
admitted-calls = refl

admitted_rate_example :
    admitted (codes "a") limiter calls * token ≤ limiter.burst + (2 * second - second) * limiter.rps
unfolding new
admitted_rate_example =
    admitted_rate limiter (codes "a") second (2 * second) calls refl refl refl (omega arith)
      (omega arith) (omega arith)

served :
    (take_token 2000
      (2 * token)
      (serve 2000 (2 * token) (fresh (2 * token) second) (second ∷ [])).0
      (2 * second)).1
    ≡ true
unfolding take_token refill ◌+ℤ◌ ◌-ℤ◌
served = refl

-- Refused after the burst, and admitted half a second later.
allow_waited_example :
    (allow
      (run
        (allow (run limiter ((codes "a", second) ∷ (codes "a", second) ∷ [])) (codes "a") second).0
        ((codes "b", second) ∷ []))
      (codes "a")
      (second + 500000000)).1
    ≡ true
unfolding new allow allow_locked take_token refill maybe_cleanup_locked ◌+ℤ◌ ◌-ℤ◌
allow_waited_example =
    allow_waited (run limiter ((codes "a", second) ∷ (codes "a", second) ∷ [])) (codes "a") second
      (second + 500000000) ((codes "b", second) ∷ []) (omega arith) (omega arith, omega arith)
      (refl, _) (omega arith) (omega arith)
