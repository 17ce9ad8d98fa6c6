-- ===== src/RateLimit/Refill.antt =====
-- `Allow` on one bucket, for calls that take the lock in any order of their clock readings.
use easy_docker_proxy.Base.{
  ℕ, ◌+◌, ◌-◌, ◌*◌, ◌≤◌, ◌≡◌, ap, Bool, true, false, List, [], ◌∷◌, leb, leb→le, le→leb,
  if◌then◌else◌, arith, Bool-cases, inl, inr,
}
use easy_docker_proxy.Base.Int.{pos, pos_part, neg_part, ◌+ℤ◌, ◌≤ℤ◌, +ℤ_parts, -ℤ_parts}
use easy_docker_proxy.RateLimit.{Bucket, token, refill, take_token, fresh}

pub sub_mul : (a b r : ℕ) → b ≤ a → (a - b) * r + b * r ≡ a * r
sub_mul a b r h = grind arith

-- `elapsed * rps`, moved to the two sides of an equation.
pub refill_parts :
    (rps : ℕ) (b : Bucket) (now : ℕ)
    → pos_part (refill rps b now) + neg_part b.tokens + b.last * rps
      ≡ neg_part (refill rps b now) + pos_part b.tokens + now * rps
unfolding refill
refill_parts rps b now = elim (Bool-cases (leb b.last now)) [
  | inl h ↦ rw h (
      omega (
        arith,
        +ℤ_parts b.tokens (pos ((now - b.last) * rps)),
        sub_mul now b.last rps (leb→le _ _ h),
      ))
  | inr h ↦ rw h (
      omega (
        arith,
        -ℤ_parts b.tokens (pos ((b.last - now) * rps)),
        sub_mul b.last now rps (ground arith),
      ))
]

refill_nonneg :
    (rps : ℕ) (b : Bucket) (now : ℕ) → b.last ≤ now → pos 0 ≤ℤ b.tokens → pos 0 ≤ℤ refill rps b now
unfolding refill ◌+ℤ◌
refill_nonneg rps b now h k = rw (le→leb _ _ h) (ground arith)

abbrev pub cost : Bool → ℕ
cost true = token
cost false = 0

-- What one call does to a bucket.
pub record Taken (rps burst : ℕ) (b : Bucket) (now : ℕ) (b' : Bucket) (admitted : Bool)
    : Type 0 where
  pub stamped : b'.last ≡ now
  pub capped : pos_part b'.tokens + cost admitted ≤ burst + neg_part b'.tokens
  pub paid : admitted ≡ true → pos 0 ≤ℤ b'.tokens
  pub conserved :
      pos_part b'.tokens + cost admitted + neg_part b.tokens + b.last * rps
      ≤ neg_part b'.tokens + pos_part b.tokens + now * rps

pub take_token-Taken :
    (rps burst : ℕ) (b : Bucket) (now : ℕ)
    → Taken rps burst b now (take_token rps burst b now).0 (take_token rps burst b now).1
unfolding take_token
take_token-Taken rps burst b now =
    let refilled = refill rps b now in
    ground (
      arith,
      refill_parts rps b now,
      -ℤ_parts refilled (pos token),
      -ℤ_parts (pos burst) (pos token),
    )

pub take_token_nonneg :
    (rps burst : ℕ) (b : Bucket) (now : ℕ)
    → b.last ≤ now
    → pos 0 ≤ℤ b.tokens
    → pos 0 ≤ℤ (take_token rps burst b now).0.tokens
unfolding take_token
take_token_nonneg rps burst b now h k =
    let refilled = refill rps b now in
    ground (
      arith,
      refill_nonneg rps b now h k,
      -ℤ_parts refilled (pos token),
      -ℤ_parts (pos burst) (pos token),
    )

-- Calls on one bucket, in the order in which they take the lock; how many were admitted.
abbrev pub serve : ℕ → ℕ → Bucket → List ℕ → Bucket × ℕ
serve rps burst b [] = (b, 0)
serve rps burst b (now ∷ later) =
    let r = take_token rps burst b now in
    let s = serve rps burst r.0 later in (s.0, s.1 + (if r.1 then 1 else 0))

serve_ledger :
    (rps burst : ℕ) (b : Bucket) (times : List ℕ)
    → pos_part (serve rps burst b times).0.tokens
        + (serve rps burst b times).1 * token
        + neg_part b.tokens
        + b.last * rps
      ≤ neg_part (serve rps burst b times).0.tokens
        + pos_part b.tokens
        + (serve rps burst b times).0.last * rps
serve_ledger rps burst b [] = omega arith
serve_ledger rps burst b (now ∷ later) = ground (
  arith,
  take_token-Taken rps burst b now,
  serve_ledger rps burst (take_token rps burst b now).0 later,
  ap (λ (t : ℕ). t * rps) (take_token-Taken rps burst b now).stamped,
)

-- For one client address and calls in any order of their clock readings: after a bucket is made at
-- `start`, `n` later calls of which the last is admitted cost no more than the burst and what the
-- rate has added since `start`. The call that made the bucket is counted too.
pub serve_rate :
    (rps burst start : ℕ) (earlier : List ℕ) (now : ℕ)
    → (take_token rps burst (serve rps burst (fresh burst start) earlier).0 now).1 ≡ true
    → ((serve rps burst (fresh burst start) earlier).1 + 2) * token + start * rps
      ≤ burst + now * rps
serve_rate rps burst start earlier now h =
    let s = serve rps burst (fresh burst start) earlier in
    ground (
      arith,
      take_token-Taken rps burst s.0 now,
      serve_ledger rps burst (fresh burst start) earlier,
      -ℤ_parts (pos burst) (pos token),
    )
