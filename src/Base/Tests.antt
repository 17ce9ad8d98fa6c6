-- ===== src/Base/Tests.antt =====
-- Boolean tests on the native numbers, and the conditional.
use Prim.Native.Nat.{ℕ, ◌≤◌, ◌<◌, compare, Ordering}
use mathlib.Core.Path.{◌≡◌, refl}
use mathlib.Core.Logic.{◌↔◌, ◌⊎◌, inl, inr}
use mathlib.Core.Bool.{Bool, true, false, ◌&&◌, ◌||◌}
use mathlib.Core.Option.{Option, none, some}
use native.Mathlib.Omega.{arith}

-- These compute to `compare`, which `ground` and `grind` read with no lemma listed.
abbrev pub ltb : ℕ → ℕ → Bool
ltb a b = elim (compare a b) [ Ordering.lt ↦ true | _ ↦ false ]

abbrev pub leb : ℕ → ℕ → Bool
leb a b = elim (compare a b) [ Ordering.gt ↦ false | _ ↦ true ]

infix 50 ◌==◌
abbrev pub ◌==◌ : ℕ → ℕ → Bool
a == b = elim (compare a b) [ Ordering.eq ↦ true | _ ↦ false ]

infix 1 if◌then◌else◌
abbrev pub if◌then◌else◌ {ℓ} : {A : Type ℓ} → Bool → A → A → A
if true then x else y = x
if false then x else y = y

pub ltb→lt : (a b : ℕ) → ltb a b ≡ true → a < b
ltb→lt a b h = ground arith

pub lt→ltb : (a b : ℕ) → a < b → ltb a b ≡ true
lt→ltb a b h = ground arith

pub leb→le : (a b : ℕ) → leb a b ≡ true → a ≤ b
leb→le a b h = ground arith

pub le→leb : (a b : ℕ) → a ≤ b → leb a b ≡ true
le→leb a b h = ground arith

pub ==_iff : (a b : ℕ) → ((a == b) ≡ true) ↔ (a ≡ b)
==_iff a b = ground arith

-- To split on a computed value and keep the equation.
pub Bool-cases : (b : Bool) → (b ≡ true) ⊎ (b ≡ false)
Bool-cases true = inl refl
Bool-cases false = inr refl

pub Option-cases {ℓ} : {A : Type ℓ} (o : Option A) → (o ≡ none) ⊎ ((a : A) × (o ≡ some a))
Option-cases none = inl refl
Option-cases (some a) = inr (a, refl)

-- What the parts of a test say, the test says.
module _ {P Q : Type 0} (b c : Bool) (k : (b ≡ true) ↔ P) (l : (c ≡ true) ↔ Q) where
  pub &&_iff : ((b && c) ≡ true) ↔ (P × Q)
  &&_iff = and_iff b k
    where
      and_iff : (b : Bool) → (b ≡ true) ↔ P → ((b && c) ≡ true) ↔ (P × Q)
      and_iff true k = (λ y. (k.0 refl, l.0 y), λ w. l.1 (w.1))
      and_iff false k = (λ y. cc, λ w. k.1 (w.0))

  pub ||_iff : ((b || c) ≡ true) ↔ (P ⊎ Q)
  ||_iff = or_iff b k
    where
      or_iff : (b : Bool) → (b ≡ true) ↔ P → ((b || c) ≡ true) ↔ (P ⊎ Q)
      or_iff true k = (λ y. inl (k.0 refl), λ w. refl)
      or_iff false k = (λ y. inr (l.0 y), λ w. elim w [ inl x ↦ cc (k.1 x) | inr x ↦ l.1 x ])

pub true_iff : (b : Bool) → (b ≡ true) ↔ (b ≡ true)
true_iff b = (λ y. y, λ y. y)
