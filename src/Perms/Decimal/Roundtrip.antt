-- ===== src/Perms/Decimal/Roundtrip.antt =====
-- What `Display` prints, `FromStr` reads.
use Prim.Native.Char.{code}
use Prim.Native.String.{String}
use native.Mathlib.Nat.{pow-suc}
use accord_rfc.Base.{
  ℕ, zero, suc, ◌+◌, ◌*◌, ◌/◌, ◌%◌, ◌^◌, ◌≤◌, ◌<◌, ◌≡◌, refl, sym, ap, ◌∙◌, some, Text, arith, ltb,
  inl, inr, Bool-cases,
}
use accord_rfc.Perms.{Permissions}
use accord_rfc.Perms.Decimal.{
  u64_mod, digit_char, show_digits, display, read_digits, unsigned, from_str,
}

code-digit_char : (d : ℕ) → d < 10 → code (digit_char d) ≡ 48 + d
code-digit_char zero h = refl
code-digit_char (suc zero) h = refl
code-digit_char (suc (suc zero)) h = refl
code-digit_char (suc (suc (suc zero))) h = refl
code-digit_char (suc (suc (suc (suc zero)))) h = refl
code-digit_char (suc (suc (suc (suc (suc zero))))) h = refl
code-digit_char (suc (suc (suc (suc (suc (suc zero)))))) h = refl
code-digit_char (suc (suc (suc (suc (suc (suc (suc zero))))))) h = refl
code-digit_char (suc (suc (suc (suc (suc (suc (suc (suc zero)))))))) h = refl
code-digit_char (suc (suc (suc (suc (suc (suc (suc (suc (suc d))))))))) h = omega arith

-- One digit is read, if the number that it ends is in range.
read_digits-step :
    (acc d : ℕ) (s : Text)
    → d < 10
    → acc * 10 + d < u64_mod
    → read_digits acc (String.◌∷◌ (digit_char d) s) ≡ read_digits (acc * 10 + d) s
unfolding read_digits
read_digits-step acc d s h k = ground (arith, code-digit_char d h)

-- Reading the digits of `n` before `tail` is reading `tail` from `n`.
read_digits-show_digits :
    (f n : ℕ) (tail : Text)
    → n < 10 ^ f
    → n < u64_mod
    → read_digits 0 (show_digits f n tail) ≡ read_digits n tail
unfolding show_digits
read_digits-show_digits zero n tail h k =
    let e : n ≡ 0 = omega arith in ap (λ (m : ℕ). read_digits m tail) (sym e)
read_digits-show_digits (suc f) n tail h k = elim (Bool-cases (ltb n 10)) [
  | inl e ↦ rw e (ground (arith, read_digits-step 0 n tail (ground arith) (omega arith)))
  | inr e ↦ rw e (
      ground (
        arith,
        read_digits-show_digits f (n / 10) (String.◌∷◌ (digit_char (n % 10)) tail)
            (omega (arith, pow-suc 10 f)) (omega arith),
        read_digits-step (n / 10) (n % 10) tail (omega arith) (omega arith),
      ))
]

-- The text begins with a digit.
abbrev BeginsDigit : Text → Type 0
BeginsDigit String.[] = ⊥
BeginsDigit (String.◌∷◌ c s) = 48 ≤ code c

digit_char-BeginsDigit : (d : ℕ) → d < 10 → 48 ≤ code (digit_char d)
digit_char-BeginsDigit d h = omega (arith, code-digit_char d h)

show_digits-BeginsDigit :
    (f n : ℕ) (tail : Text) → BeginsDigit tail → BeginsDigit (show_digits f n tail)
unfolding show_digits
show_digits-BeginsDigit zero n tail h = h
show_digits-BeginsDigit (suc f) n tail h = elim (Bool-cases (ltb n 10)) [
  | inl e ↦ rw e (digit_char-BeginsDigit n (ground arith))
  | inr e ↦
      rw e (show_digits-BeginsDigit f (n / 10) _ (digit_char-BeginsDigit (n % 10) (omega arith)))
]

display-BeginsDigit : (p : Permissions) → BeginsDigit (display p)
unfolding display
display-BeginsDigit p = elim (Bool-cases (ltb p 10)) [
  | inl e ↦ rw e (digit_char-BeginsDigit p (ground arith))
  | inr e ↦
      rw e (show_digits-BeginsDigit 19 (p / 10) _ (digit_char-BeginsDigit (p % 10) (omega arith)))
]

from_str-BeginsDigit : (s : Text) → BeginsDigit s → from_str s ≡ read_digits 0 s
unfolding from_str unsigned
from_str-BeginsDigit String.[] h = absurd h
from_str-BeginsDigit (String.◌∷◌ c s) h = ground arith

-- Every permission value below 2^64 is read back by `from_str` from what `display` prints for it.
pub from_str-display : (p : Permissions) → p < u64_mod → from_str (display p) ≡ some p
unfolding display read_digits
from_str-display p h =
    from_str-BeginsDigit (display p) (display-BeginsDigit p)
    ∙ read_digits-show_digits 20 p String.[] (omega arith) h
