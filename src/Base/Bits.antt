-- ===== src/Base/Bits.antt =====
-- `&` and `|` of machine words, digit by digit.
mod Step
use Step.{bit_or_step, bit_and_step}
use Prim.Native.Nat.{ℕ, zero, suc, ◌+◌, ◌/◌, ◌%◌, ◌^◌, ◌*◌, ◌≤◌, ◌<◌, min, max, bit_and, bit_or}
use mathlib.Core.Path.{◌≡◌, refl, ap, ◌∙◌}
use mathlib.Core.Logic.{◌↔◌}
use mathlib.Core.Bool.{Bool, ◌||◌}
use native.Mathlib.Nat.{pow-suc}
use accord_rfc.Base.Tests.{◌==◌, if◌then◌else◌}
use native.Mathlib.Omega.{arith}

-- The k-th binary digit.
abbrev pub bit : ℕ → ℕ → ℕ
bit zero a = a % 2
bit (suc k) a = bit k (a / 2)

halve-bit_or : (a b : ℕ) → bit_or a b / 2 ≡ bit_or (a / 2) (b / 2)
halve-bit_or a b = omega (arith, bit_or_step a b)

halve-bit_and : (a b : ℕ) → bit_and a b / 2 ≡ bit_and (a / 2) (b / 2)
halve-bit_and a b = omega (arith, bit_and_step a b)

pub bit-bit_or : (k a b : ℕ) → bit k (bit_or a b) ≡ max (bit k a) (bit k b)
bit-bit_or zero a b = omega (arith, bit_or_step a b)
bit-bit_or (suc k) a b = ap (bit k) (halve-bit_or a b) ∙ bit-bit_or k (a / 2) (b / 2)

pub bit-bit_and : (k a b : ℕ) → bit k (bit_and a b) ≡ min (bit k a) (bit k b)
bit-bit_and zero a b = omega (arith, bit_and_step a b)
bit-bit_and (suc k) a b = ap (bit k) (halve-bit_and a b) ∙ bit-bit_and k (a / 2) (b / 2)

pub bit-le-one : (k a : ℕ) → bit k a ≤ 1
bit-le-one zero a = omega arith
bit-le-one (suc k) a = bit-le-one k (a / 2)

pub bit-zero : (k : ℕ) → bit k 0 ≡ 0
bit-zero zero = refl
bit-zero (suc k) = bit-zero k

-- Numbers with the same digits are equal.
bit_ext_fuel : (f a b : ℕ) → a ≤ f → b ≤ f → ((k : ℕ) → bit k a ≡ bit k b) → a ≡ b
bit_ext_fuel zero a b p q h = omega arith
bit_ext_fuel (suc f) a b p q h =
    omega (arith, h 0, bit_ext_fuel f (a / 2) (b / 2) (omega arith) (omega arith) (λ k. h (suc k)))

pub bit_ext : (a b : ℕ) → ((k : ℕ) → bit k a ≡ bit k b) → a ≡ b
bit_ext a b h = bit_ext_fuel (a + b) a b (omega arith) (omega arith) h

-- Every digit of `b` is a digit of `a`.
abbrev pub Within : ℕ → ℕ → Type 0
Within b a = (k : ℕ) → bit k b ≤ bit k a

pub bit_and-Within : (a b : ℕ) → (bit_and a b ≡ b) ↔ Within b a
bit_and-Within a b = (
  λ e k. omega (arith, bit-bit_and k a b, ap (bit k) e),
  λ h. bit_ext _ _ (λ k. omega (arith, bit-bit_and k a b, h k)),
)

-- Whether the k-th digit is set.
abbrev pub has_bit : ℕ → ℕ → Bool
has_bit k a = bit k a == 1

pub has_bit-bit_or : (k a b : ℕ) → has_bit k (bit_or a b) ≡ (has_bit k a || has_bit k b)
has_bit-bit_or k a b = ground (arith, bit-bit_or k a b, bit-le-one k a, bit-le-one k b)

halve_pow : (k : ℕ) → 2 ^ suc k / 2 ≡ 2 ^ k
halve_pow k = omega (arith, pow-suc 2 k)

-- A power of two is one digit.
pub bit-pow : (j k : ℕ) → bit j (2 ^ k) ≡ (if j == k then 1 else 0)
bit-pow zero zero = refl
bit-pow zero (suc k) = ground (arith, pow-suc 2 k)
bit-pow (suc j) zero = ground (arith, bit-zero j)
bit-pow (suc j) (suc k) = ap (bit j) (halve_pow k) ∙ ground (arith, bit-pow j k)
