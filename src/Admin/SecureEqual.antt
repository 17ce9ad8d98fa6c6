-- ===== src/Admin/SecureEqual.antt =====
-- The comparison of tokens in constant time.
use easy_docker_proxy.Base.{
  ℕ, ◌≡◌, refl, ap, true, ◌==◌, ==_iff, ◌↔◌, [], ◌∷◌, Str, length, arith, Bool-cases, inl, inr,
}
use easy_docker_proxy.Base.Bits.{bit_or_zero, bit_xor_zero}
use easy_docker_proxy.Admin.{differences, secure_equal}
use Prim.Native.Nat.{bit_or, bit_xor}

-- The bits stay 0 exactly when the texts agree.
differences_zero :
    (v : ℕ) (a b : Str) → length a ≡ length b → (differences v a b ≡ 0) ↔ ((v ≡ 0) × (a ≡ b))
differences_zero v [] [] h = (λ e. (e, refl), λ e. e.0)
differences_zero v [] (c ∷ b) h = absurd (omega arith)
differences_zero v (c ∷ a) [] h = absurd (omega arith)
differences_zero v (c ∷ a) (d ∷ b) h =
    let ih = differences_zero (bit_or v (bit_xor c d)) a b (omega arith) in
    let bits = bit_or_zero v (bit_xor c d) in
    let byte = bit_xor_zero c d in
    (
      λ e. let (z, tail) = ih.0 e in let (zv, zx) = bits.0 z in let same = byte.0 zx in (zv, cc),
      λ e. ih.1 (bits.1 (e.0, byte.1 (cc (e.1))), cc (e.1)),
    )

zero_test : (n : ℕ) → ((n == 0) ≡ true) ↔ (n ≡ 0)
zero_test n = ==_iff n 0

-- Two tokens pass for equal exactly when they are the same text.
pub secure_equal_iff : (a b : Str) → (secure_equal a b ≡ true) ↔ (a ≡ b)
unfolding secure_equal
secure_equal_iff a b = elim (Bool-cases (length a == length b)) [
  | inl y ↦ rw y (
      let d = differences_zero 0 a b ((==_iff (length a) (length b)).0 y) in
      let z = zero_test (differences 0 a b) in (λ e. (d.0 (z.0 e)).1, λ e. z.1 (d.1 (refl, e))))
  | inr n ↦ rw n (λ h. cc, λ e. absurd (ground (arith, n, ap length e)))
]
