-- ===== src/Base/Bits/Step.antt =====
-- The recursion on binary digits that `&` and `|` stand for, as one equation with no fuel.
use Prim.Native.Nat.{
  ℕ, zero, suc, ◌+◌, ◌*◌, ◌/◌, ◌%◌, ◌≤◌, min, max, bit_and, bit_or, digits, bit_and-bitwise,
  bit_or-bitwise,
}
use mathlib.Core.Path.{◌≡◌, refl, ap}
use native.Mathlib.Omega.{arith}

-- Fuel that covers the first operand gives one result, however much there is.
enough_fuel :
    (rest : ℕ → ℕ) (digit : ℕ → ℕ → ℕ) (a b f g : ℕ)
    → a ≤ f
    → a ≤ g
    → digits rest digit f a b ≡ digits rest digit g a b
enough_fuel rest digit zero b zero zero _ _ = refl
enough_fuel rest digit zero b zero (suc g) _ _ = refl
enough_fuel rest digit zero b (suc f) zero _ _ = refl
enough_fuel rest digit zero b (suc f) (suc g) _ _ = refl
enough_fuel rest digit (suc a) b zero g h _ = absurd (omega arith)
enough_fuel rest digit (suc a) b (suc f) zero _ h = absurd (omega arith)
enough_fuel rest digit (suc a) b (suc f) (suc g) h k =
    ap (λ (t : ℕ). t * 2 + digit (suc a % 2) (b % 2))
      (enough_fuel rest digit (suc a / 2) (b / 2) f g (omega arith) (omega arith))

pub bit_or_step : (a b : ℕ) → bit_or a b ≡ bit_or (a / 2) (b / 2) * 2 + max (a % 2) (b % 2)
bit_or_step zero b = omega (arith, bit_or-bitwise 0 b, bit_or-bitwise 0 (b / 2))
bit_or_step (suc a) b = omega (
  arith,
  bit_or-bitwise (suc a) b,
  bit_or-bitwise (suc a / 2) (b / 2),
  enough_fuel (λ c. c) max (suc a / 2) (b / 2) a (suc a / 2) (omega arith) (omega arith),
)

pub bit_and_step : (a b : ℕ) → bit_and a b ≡ bit_and (a / 2) (b / 2) * 2 + min (a % 2) (b % 2)
bit_and_step zero b = omega (arith, bit_and-bitwise 0 b, bit_and-bitwise 0 (b / 2))
bit_and_step (suc a) b = omega (
  arith,
  bit_and-bitwise (suc a) b,
  bit_and-bitwise (suc a / 2) (b / 2),
  enough_fuel (λ c. 0) min (suc a / 2) (b / 2) a (suc a / 2) (omega arith) (omega arith),
)
