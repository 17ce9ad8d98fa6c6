-- ===== src/RateLimit/Bound.antt =====
-- The limiter as a whole: what one client address gets through, with the requests of the others
-- and the clean-ups between, when calls take the lock in the order of their clock readings.
use easy_docker_proxy.Base.{
  ℕ, ◌+◌, ◌-◌, ◌*◌, ◌≤◌, ◌≡◌, refl, sym, ap, subst, Bool, true, false, List, [], ◌∷◌, ◌&&◌, ltb,
  ltb→lt, if◌then◌else◌, arith, Bool-cases, Option, none, some, inl, inr, ◌⊎◌, Str, str_eq,
  str_eq_iff, not, is_empty, keep_some, insert, ◌∙◌,
}
use native.Mathlib.Nat.{sub-zero, le_trans}
use easy_docker_proxy.Base.Int.{pos, pos_part, ◌≤ℤ◌, -ℤ_parts}
use easy_docker_proxy.RateLimit.{
  Bucket, Limiter, token, minutes, take_token, fresh, allow, allow_locked, maybe_cleanup_locked,
}
use easy_docker_proxy.RateLimit.Refill.{cost, sub_mul, take_token-Taken, take_token_nonneg}

-- At time `t` the bucket stands for at most `c` units, and for the whole burst if it is missing.
abbrev pub Holds : ℕ → ℕ → ℕ → ℕ → Option Bucket → Type 0
Holds rps burst t c none = burst ≤ c
Holds rps burst t c (some b) =
    (b.last ≤ t)
    × (pos 0 ≤ℤ b.tokens)
    × ((burst ≤ c) ⊎ (pos_part b.tokens + (t - b.last) * rps ≤ c))

-- A request of the address itself.
take-Holds :
    (rps burst t c now : ℕ) (b : Bucket)
    → t ≤ now
    → token ≤ burst
    → Holds rps burst t c (some b)
    → (cost (take_token rps burst b now).1 ≤ c + (now - t) * rps)
      × Holds rps burst now
          (c + (now - t) * rps - cost (take_token rps burst b now).1)
          (some (take_token rps burst b now).0)
take-Holds rps burst t c now b h k v =
    let w = take_token-Taken rps burst b now in
    ground (
      arith,
      w,
      take_token_nonneg rps burst b now (omega arith) v.1,
      sub_mul now t rps h,
      sub_mul t b.last rps v.0,
      sub_mul now b.last rps,
      ap (λ (x : ℕ). x * rps) w.stamped,
    )

mul_mono : (a b r : ℕ) → a ≤ b → a * r ≤ b * r
mul_mono a b r h = grind arith

-- A clean-up drops a bucket only when ten minutes of refilling have filled it.
cleanup-Holds :
    (rps burst now c : ℕ) (o : Option Bucket)
    → burst ≤ minutes 10 * rps
    → Holds rps burst now c o
    → Holds rps burst now c (keep_some (λ b. not (ltb (b.last + minutes 10) now)) o)
cleanup-Holds rps burst now c none h v = v
cleanup-Holds rps burst now c (some b) h v = elim (Bool-cases (ltb (b.last + minutes 10) now)) [
  | inl old ↦
      rw old
        (omega (arith, mul_mono (minutes 10) (now - b.last) rps (omega (arith, ltb→lt _ _ old)), v))
  | inr new ↦ rw new v
]

-- The clock may run on.
wait-Holds :
    (rps burst t now c : ℕ) (o : Option Bucket)
    → t ≤ now
    → Holds rps burst t c o
    → Holds rps burst now (c + (now - t) * rps) o
wait-Holds rps burst t now c none h v = omega arith
wait-Holds rps burst t now c (some b) h v =
    ground
      (arith, sub_mul now t rps h, sub_mul t b.last rps v.0, sub_mul now b.last rps (omega arith))

-- Calls of `Allow` in the order in which they take the lock; how many the address `key` got through.
abbrev pub admitted : Str → Limiter → List (Str × ℕ) → ℕ
admitted key l [] = 0
admitted key l ((k, now) ∷ calls) =
    let r = allow l k now in (if str_eq k key && r.1 then 1 else 0) + admitted key r.0 calls

-- The clock does not run back, and shows `stop` at last.
abbrev pub Runs : ℕ → List (Str × ℕ) → ℕ → Type 0
Runs t [] stop = t ≤ stop
Runs t ((k, now) ∷ calls) stop = (t ≤ now) × Runs now calls stop

maybe_cleanup_locked-Holds :
    (l : Limiter) (key : Str) (now c : ℕ)
    → l.burst ≤ minutes 10 * l.rps
    → Holds l.rps l.burst now c (l.buckets key)
    → Holds l.rps l.burst now c ((maybe_cleanup_locked l now).buckets key)
unfolding maybe_cleanup_locked
maybe_cleanup_locked-Holds l key now c slow v =
    elim (Bool-cases (ltb now (l.last_cleanup + minutes 5))) [
      | inl soon ↦ rw soon v
      | inr due ↦ rw due (cleanup-Holds l.rps l.burst now c (l.buckets key) slow v)
    ]

fresh-Holds :
    (rps burst now c : ℕ)
    → token ≤ burst
    → burst ≤ c
    → Holds rps burst now (c - token) (some (fresh burst now))
fresh-Holds rps burst now c big h = ground (arith, -ℤ_parts (pos burst) (pos token))

-- What a call leaves behind, seen by the address `key`.
record Held (l : Limiter) (key k : Str) (t c now : ℕ) (r : Limiter × Bool) : Type 0 where
  affordable : cost (str_eq k key && r.1) ≤ c + (now - t) * l.rps
  holds :
      Holds l.rps l.burst now (c + (now - t) * l.rps - cost (str_eq k key && r.1)) (r.0.buckets key)

module _ (l : Limiter) (key k : Str) (t c now : ℕ) (h : t ≤ now) (big : token ≤ l.burst)
    (slow : l.burst ≤ minutes 10 * l.rps) (v : Holds l.rps l.burst t c (l.buckets key)) where
  allow_locked-Held :
      (o : Option Bucket) → l.buckets k ≡ o → Held l key k t c now (allow_locked l k now o)
  unfolding allow_locked
  allow_locked-Held (some b) e = elim (Bool-cases (str_eq k key)) [
    | inl same ↦
        let here =
          subst (λ o. Holds l.rps l.burst t c o)
            (ap l.buckets (sym ((str_eq_iff k key).0 same)) ∙ e) v in
        let (a, w) = take-Holds l.rps l.burst t c now b h big here in
        record { affordable = rw same a; holds = rw same w }
    | inr other ↦ record {
      affordable = rw other (omega arith);
      holds = rw (other, sub-zero) (wait-Holds l.rps l.burst t now c (l.buckets key) h v);
    }
  ]
  allow_locked-Held none e =
      let made = record l { buckets = insert k (fresh l.burst now) l.buckets } in
      let cleaned = λ (d : ℕ). maybe_cleanup_locked-Holds made key now d slow in
      elim (Bool-cases (str_eq k key)) [
        | inl same ↦
            let full =
              subst (λ o. Holds l.rps l.burst t c o)
                (ap l.buckets (sym ((str_eq_iff k key).0 same)) ∙ e) v in
            record {
              affordable = rw same (omega arith);
              holds = rw same (
                  cleaned (c + (now - t) * l.rps - token)
                    (rw same (fresh-Holds l.rps l.burst now _ big (omega arith))));
            }
        | inr other ↦ record {
          affordable = rw other (omega arith);
          holds =
              rw (other, sub-zero)
                (cleaned _ (rw other (wait-Holds l.rps l.burst t now c (l.buckets key) h v)));
        }
      ]

  allow-Held : l.enabled ≡ true → is_empty key ≡ false → Held l key k t c now (allow l k now)
  unfolding allow
  allow-Held on named = elim (Bool-cases (is_empty k)) [
    | inl blank ↦
        let other : str_eq k key ≡ false = ground arith in
        simp (on, blank)
          (record {
            affordable = rw other (omega arith);
            holds = rw (other, sub-zero) (wait-Holds l.rps l.burst t now c (l.buckets key) h v);
          })
    | inr given ↦ simp (on, given) (allow_locked-Held (l.buckets k) refl)
  ]

allow_settings :
    (l : Limiter) (k : Str) (now : ℕ)
    → ((allow l k now).0.rps ≡ l.rps)
      × ((allow l k now).0.burst ≡ l.burst)
      × ((allow l k now).0.enabled ≡ l.enabled)
unfolding allow allow_locked maybe_cleanup_locked
allow_settings l k now = ground arith

Runs-le : (t : ℕ) (calls : List (Str × ℕ)) (stop : ℕ) → Runs t calls stop → t ≤ stop
Runs-le t [] stop h = h
Runs-le t ((k, now) ∷ calls) stop h = le_trans h.0 (Runs-le now calls stop h.1)

admitted_from :
    (l : Limiter) (key : Str) (t c stop : ℕ) (calls : List (Str × ℕ))
    → l.enabled ≡ true
    → is_empty key ≡ false
    → token ≤ l.burst
    → l.burst ≤ minutes 10 * l.rps
    → Runs t calls stop
    → Holds l.rps l.burst t c (l.buckets key)
    → admitted key l calls * token ≤ c + (stop - t) * l.rps
admitted_from l key t c stop [] on ne big slow r v = omega arith
admitted_from l key t c stop ((k, now) ∷ calls) on ne big slow r v =
    let s = allow l k now in
    let (e, f, g) = allow_settings l k now in
    let d = allow-Held l key k t c now r.0 big slow v on ne in
    let left = c + (now - t) * l.rps - cost (str_eq k key && s.1) in
    let later =
      admitted_from s.0 key now left stop calls (g ∙ on) ne (rw f big) (rw (e, f) slow) r.1
        (rw (e, f) d.holds) in
    ground (
      arith,
      d.affordable,
      rw e at later,
      Runs-le now calls stop r.1,
      sub_mul stop t l.rps (le_trans r.0 (Runs-le now calls stop r.1)),
      sub_mul now t l.rps r.0,
      sub_mul stop now l.rps (Runs-le now calls stop r.1),
    )

-- `n` requests of one address that a running limiter lets through between `start` and `stop`, its
-- buckets empty at `start`, cost no more than the burst and what the rate adds in that time,
-- whatever other addresses ask for and whichever idle buckets are dropped. The clock readings do
-- not run back, the burst is at least one token and no more than ten minutes of refilling.
pub admitted_rate :
    (l : Limiter) (key : Str) (start stop : ℕ) (calls : List (Str × ℕ))
    → l.enabled ≡ true
    → l.buckets key ≡ none
    → is_empty key ≡ false
    → token ≤ l.burst
    → l.burst ≤ minutes 10 * l.rps
    → Runs start calls stop
    → admitted key l calls * token ≤ l.burst + (stop - start) * l.rps
admitted_rate l key start stop calls on none_yet ne big slow r =
    admitted_from l key start l.burst stop calls on ne big slow r (rw none_yet (omega arith))
