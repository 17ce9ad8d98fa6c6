-- ===== src/RateLimit.antt =====
-- internal/ratelimit/ratelimit.go: a token bucket for each client address.
--
-- Times are nanoseconds. A float64 amount of tokens is an integer multiple of 10^-12 token, which
-- is exact for rates in thousandths of a request per second. `now` is read before the lock is
-- taken, so a call may see a bucket that is younger than itself: the elapsed time is signed, and
-- so are the tokens.
pub mod Refill
pub mod Bound
pub mod Waiting
mod Tests
use easy_docker_proxy.Base.{
  ℕ, ◌+◌, ◌-◌, ◌*◌, Bool, true, false, not, ltb, leb, if◌then◌else◌, Option, none, some, Str,
  is_empty, Dict, empty, insert, keep,
}
use easy_docker_proxy.Base.Int.{ℤ, pos, pos_part, ltb_ℤ, ◌+ℤ◌, ◌-ℤ◌}
use easy_docker_proxy.Config.{RateLimitConfig}

-- One token, 10^12 units.
abbrev pub token : ℕ
token = 1000000000000

abbrev pub minutes : ℕ → ℕ
minutes n = n * 60000000000

pub record Bucket : Type 0 where
  pub tokens : ℤ
  pub last : ℕ

pub record Limiter : Type 0 where
  pub enabled : Bool
  pub rps : ℕ
  pub burst : ℕ
  pub buckets : Dict Bucket
  pub last_cleanup : ℕ

abbrev pub positive_or : ℤ → ℕ → ℕ
positive_or z d = if ltb_ℤ (pos 0) z then pos_part z else d

-- The defaults are 20 requests per second and a burst of 40.
unfoldable pub new : RateLimitConfig → ℕ → Limiter
new cfg now = record {
  enabled = cfg.enabled;
  rps = positive_or cfg.per_ip_rps 20000;
  burst = positive_or cfg.per_ip_burst 40 * token;
  buckets = empty;
  last_cleanup = now;
}

unfoldable pub maybe_cleanup_locked : Limiter → ℕ → Limiter
maybe_cleanup_locked l now = if ltb now (l.last_cleanup + minutes 5) then l else record l {
  last_cleanup = now;
  buckets = keep (λ k b. not (ltb (b.last + minutes 10) now)) l.buckets;
}

-- `b.tokens += elapsed * l.rps`
unfoldable pub refill : ℕ → Bucket → ℕ → ℤ
refill rps b now =
    if leb b.last now
    then b.tokens +ℤ pos ((now - b.last) * rps)
    else b.tokens -ℤ pos ((b.last - now) * rps)

-- The rest of `Allow` on a bucket that is there.
unfoldable pub take_token : ℕ → ℕ → Bucket → ℕ → Bucket × Bool
take_token rps burst b now =
    let refilled = refill rps b now in
    let capped = if ltb_ℤ (pos burst) refilled then pos burst else refilled in
    if ltb_ℤ capped (pos token)
    then (record { tokens = capped; last = now }, false)
    else (record { tokens = capped -ℤ pos token; last = now }, true)

-- The bucket of a first request, which has paid for it.
abbrev pub fresh : ℕ → ℕ → Bucket
fresh burst now = record { tokens = pos burst -ℤ pos token; last = now }

unfoldable pub allow_locked : Limiter → Str → ℕ → Option Bucket → Limiter × Bool
allow_locked l key now none =
    let made = record l { buckets = insert key (fresh l.burst now) l.buckets } in
    (maybe_cleanup_locked made now, true)
allow_locked l key now (some b) =
    let r = take_token l.rps l.burst b now in (record l { buckets = insert key r.0 l.buckets }, r.1)

unfoldable pub allow : Limiter → Str → ℕ → Limiter × Bool
allow l key now =
    if not l.enabled
    then (l, true)
    else if is_empty key
    then (l, true)
    else allow_locked l key now (l.buckets key)

unfoldable pub reset : Limiter → Limiter
reset l = record l { buckets = empty }

unfoldable pub update : Limiter → RateLimitConfig → Limiter
update l cfg = record l {
  enabled = cfg.enabled;
  rps = positive_or cfg.per_ip_rps 20000;
  burst = positive_or cfg.per_ip_burst 40 * token;
  buckets = empty;
}
