-- ===== src/Base/Bits.antt =====
-- When `|` and `^` give 0.
use Prim.Native.Nat.{
  ℕ, zero, suc, ◌/◌, ◌%◌, ◌≤◌, ◌<◌, max, differ, digits, bit_or, bit_xor, bit_or-bitwise,
  bit_xor-bitwise,
}
use mathlib.Core.Path.{◌≡◌, refl, sym, ◌∙◌}
use mathlib.Core.Logic.{◌↔◌}
use native.Mathlib.Omega.{arith}

differ_bits : (a b : ℕ) → a < 2 → b < 2 → (differ a b ≡ 0) ↔ (a ≡ b)
differ_bits zero zero h k = (λ e. refl, λ e. refl)
differ_bits zero (suc b) h k = (λ e. absurd (omega arith), λ e. absurd (omega arith))
differ_bits (suc a) zero h k = (λ e. absurd (omega arith), λ e. absurd (omega arith))
differ_bits (suc zero) (suc zero) h k = (λ e. refl, λ e. refl)
differ_bits (suc zero) (suc (suc b)) h k = absurd (omega arith)
differ_bits (suc (suc a)) (suc b) h k = absurd (omega arith)

abbrev or_digits : ℕ → ℕ → ℕ → ℕ
or_digits n a b = digits (λ b. b) max n a b

or_digits_zero : (n a b : ℕ) → a ≤ n → (or_digits n a b ≡ 0) ↔ ((a ≡ 0) × (b ≡ 0))
or_digits_zero zero zero b h = (λ e. (refl, e), λ e. e.1)
or_digits_zero zero (suc a) b h = absurd (omega arith)
or_digits_zero (suc n) zero b h = (λ e. (refl, e), λ e. e.1)
or_digits_zero (suc n) (suc a) b h =
    let ih = or_digits_zero n (suc a / 2) (b / 2) (omega arith) in
    (λ e. let halves = ih.0 (omega arith) in absurd (omega arith), λ e. absurd (omega arith))

pub bit_or_zero : (a b : ℕ) → (bit_or a b ≡ 0) ↔ ((a ≡ 0) × (b ≡ 0))
bit_or_zero a b =
    let r = or_digits_zero a a b (omega arith) in
    (λ e. r.0 (sym (bit_or-bitwise a b) ∙ e), λ e. bit_or-bitwise a b ∙ r.1 e)

abbrev xor_digits : ℕ → ℕ → ℕ → ℕ
xor_digits n a b = digits (λ b. b) differ n a b

xor_digits_zero : (n a b : ℕ) → a ≤ n → (xor_digits n a b ≡ 0) ↔ (a ≡ b)
xor_digits_zero zero zero b h = (sym, sym)
xor_digits_zero zero (suc a) b h = absurd (omega arith)
xor_digits_zero (suc n) zero b h = (sym, sym)
xor_digits_zero (suc n) (suc a) b h =
    let ih = xor_digits_zero n (suc a / 2) (b / 2) (omega arith) in
    let low = differ_bits (suc a % 2) (b % 2) (omega arith) (omega arith) in
    (
      λ e. let high = ih.0 (omega arith) in let bit = low.0 (omega arith) in omega arith,
      λ e. let high = ih.1 (omega arith) in let bit = low.1 (omega arith) in omega arith,
    )

pub bit_xor_zero : (a b : ℕ) → (bit_xor a b ≡ 0) ↔ (a ≡ b)
bit_xor_zero a b =
    let r = xor_digits_zero a a b (omega arith) in
    (λ e. r.0 (sym (bit_xor-bitwise a b) ∙ e), λ e. bit_xor-bitwise a b ∙ r.1 e)
