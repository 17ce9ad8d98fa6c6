-- ===== src/RateLimit/Waiting.antt =====
-- A client that waits is admitted again.
use easy_docker_proxy.Base.{
  ℕ, ◌+◌, ◌-◌, ◌*◌, ◌≤◌, ◌≡◌, refl, ◌∙◌, Bool, true, false, not, List, [], ◌∷◌, Option, none, some,
  if◌then◌else◌, All, Str, str_eq, str_eq_refl, is_empty, insert, keep_some, ltb, Bool-cases, inl,
  inr, arith,
}
use easy_docker_proxy.Base.Int.{pos, ◌≤ℤ◌, -ℤ_parts}
use easy_docker_proxy.RateLimit.{
  Bucket, Limiter, token, minutes, refill, take_token, fresh, allow, allow_locked,
  maybe_cleanup_locked,
}
use easy_docker_proxy.RateLimit.Refill.{sub_mul, refill_parts, take_token-Taken, take_token_nonneg}

-- The bucket owes nothing, and was last used at `t` or before.
abbrev pub Settled : ℕ → Option Bucket → Type 0
Settled t none = Unit
Settled t (some b) = (pos 0 ≤ℤ b.tokens) × (b.last ≤ t)

mul_mono : (a b r : ℕ) → a ≤ b → a * r ≤ b * r
mul_mono a b r h = grind arith

waited-refill :
    (rps : ℕ) (b : Bucket) (t now : ℕ)
    → Settled t (some b)
    → t ≤ now
    → token ≤ (now - t) * rps
    → pos token ≤ℤ refill rps b now
waited-refill rps b t now s le w = omega (
  arith,
  refill_parts rps b now,
  sub_mul now b.last rps (omega (arith, s.1, le)),
  mul_mono (now - t) (now - b.last) rps (omega (arith, s.1)),
  s.0,
  w,
)

take_token_waited :
    (rps burst : ℕ) (b : Bucket) (t now : ℕ)
    → token ≤ burst
    → Settled t (some b)
    → t ≤ now
    → token ≤ (now - t) * rps
    → (take_token rps burst b now).1 ≡ true
unfolding take_token
take_token_waited rps burst b t now big s le w =
    let enough = waited-refill rps b t now s le w in ground (arith, enough, big)

-- What a call leaves of a limiter, seen by the address `key`.
record Left (l : Limiter) (key : Str) (t : ℕ) (r : Limiter) : Type 0 where
  rate : r.rps ≡ l.rps
  size : r.burst ≡ l.burst
  settled : Settled t (r.buckets key)

Left-both :
    (l : Limiter) (key : Str) (t : ℕ) (b : Bool) (x y : Limiter × Bool)
    → Left l key t x.0
    → Left l key t y.0
    → Left l key t (if b then x else y).0
Left-both l key t true x y p q = p
Left-both l key t false x y p q = q

keep_some-Settled :
    (t : ℕ) (p : Bucket → Bool) (o : Option Bucket) → Settled t o → Settled t (keep_some p o)
keep_some-Settled t p none s = _
keep_some-Settled t p (some b) s = kept (p b)
  where
    kept : (c : Bool) → Settled t (if c then some b else none)
    kept true = s
    kept false = _

cleanup-Left :
    (l r : Limiter) (key : Str) (t now : ℕ)
    → Left l key t r
    → Left l key t (maybe_cleanup_locked r now)
unfolding maybe_cleanup_locked
cleanup-Left l r key t now v = elim (Bool-cases (ltb now (r.last_cleanup + minutes 5))) [
  | inl soon ↦ rw soon v
  | inr due ↦ rw due (record {
    rate = v.rate;
    size = v.size;
    settled =
        keep_some-Settled t (λ b. not (ltb (b.last + minutes 10) now)) (r.buckets key) v.settled;
  })
]

-- The call of another address.
other-Left :
    (l : Limiter) (key k : Str) (t now : ℕ)
    → str_eq k key ≡ false
    → Settled t (l.buckets key)
    → Left l key t (allow l k now).0
unfolding allow allow_locked
other-Left l key k t now n s =
    let unchanged : Left l key t l = record { rate = refl; size = refl; settled = s } in
    Left-both l key t (not l.enabled) (l, true) _ unchanged
      (Left-both l key t (is_empty k) (l, true) _ unchanged (locked (l.buckets k)))
  where
    locked : (o : Option Bucket) → Left l key t (allow_locked l k now o).0
    locked none =
        cleanup-Left l (record l { buckets = insert k (fresh l.burst now) l.buckets }) key t now
          (record { rate = refl; size = refl; settled = rw n s })
    locked (some b) = record { rate = refl; size = refl; settled = rw n s }

-- The call of the address itself, at `t`.
own-Left :
    (l : Limiter) (key : Str) (t : ℕ)
    → token ≤ l.burst
    → Settled t (l.buckets key)
    → Left l key t (allow l key t).0
unfolding allow allow_locked
own-Left l key t big s =
    let unchanged : Left l key t l = record { rate = refl; size = refl; settled = s } in
    Left-both l key t (not l.enabled) (l, true) _ unchanged
      (Left-both l key t (is_empty key) (l, true) _ unchanged (locked (l.buckets key) s))
  where
    same : str_eq key key ≡ true
    same = str_eq_refl key

    locked : (o : Option Bucket) → Settled t o → Left l key t (allow_locked l key t o).0
    locked none s =
        cleanup-Left l (record l { buckets = insert key (fresh l.burst t) l.buckets }) key t t
          (record {
            rate = refl;
            size = refl;
            settled =
                rw same (ground (arith, big, -ℤ_parts (pos l.burst) (pos token)), omega arith);
          })
    locked (some b) s =
        let w = take_token-Taken l.rps l.burst b t in
        record {
          rate = refl;
          size = refl;
          settled =
              rw same (take_token_nonneg l.rps l.burst b t (s.1) (s.0), omega (arith, w.stamped));
        }

-- Calls in the order in which they take the lock.
abbrev pub run : Limiter → List (Str × ℕ) → Limiter
run l [] = l
run l ((k, now) ∷ calls) = run (allow l k now).0 calls

run-Left :
    (l : Limiter) (key : Str) (t : ℕ) (calls : List (Str × ℕ))
    → All (λ (c : Str × ℕ). str_eq c.0 key ≡ false) calls
    → Settled t (l.buckets key)
    → Left l key t (run l calls)
run-Left l key t [] n s = record { rate = refl; size = refl; settled = s }
run-Left l key t ((k, now) ∷ calls) n s =
    let first = other-Left l key k t now (n.0) s in
    let rest = run-Left (allow l k now).0 key t calls (n.1) first.settled in
    record { rate = rest.rate ∙ first.rate; size = rest.size ∙ first.size; settled = rest.settled }

allow_settled :
    (l : Limiter) (key : Str) (t now : ℕ)
    → token ≤ l.burst
    → t ≤ now
    → token ≤ (now - t) * l.rps
    → Settled t (l.buckets key)
    → (allow l key now).1 ≡ true
unfolding allow allow_locked
allow_settled l key t now big le w s = passes (not l.enabled) (is_empty key) (l.buckets key) s
  where
    passes :
        (b c : Bool) (o : Option Bucket)
        → Settled t o
        → (if b then (l, true) else if c then (l, true) else allow_locked l key now o).1 ≡ true
    passes true c o s = refl
    passes false true o s = refl
    passes false false none s = refl
    passes false false (some b) s = take_token_waited l.rps l.burst b t now big s le w

-- A client that has called at `t`, whether it was admitted or refused, and calls again once the
-- rate has made up one token, is admitted, whatever other clients have called in between and
-- whichever buckets were cleaned up; the burst is one token at least, and the client's bucket was
-- last used at `t` or before.
pub allow_waited :
    (l : Limiter) (key : Str) (t now : ℕ) (others : List (Str × ℕ))
    → token ≤ l.burst
    → Settled t (l.buckets key)
    → All (λ (c : Str × ℕ). str_eq c.0 key ≡ false) others
    → t ≤ now
    → token ≤ (now - t) * l.rps
    → (allow (run (allow l key t).0 others) key now).1 ≡ true
allow_waited l key t now others big s apart le w =
    let own = own-Left l key t big s in
    let later = run-Left (allow l key t).0 key t others apart own.settled in
    let rate = later.rate ∙ own.rate in
    let size = later.size ∙ own.size in
    allow_settled (run (allow l key t).0 others) key t now (rw size big) le (rw rate w)
      later.settled
