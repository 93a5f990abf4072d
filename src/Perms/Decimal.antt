-- ===== src/Perms/Decimal.antt =====
-- The wire format of permissions: `Display` and `FromStr`, which are those of `u64`.
pub mod Roundtrip
use Prim.Native.Char.{Char, code}
use Prim.Native.String.{String}
use accord_rfc.Base.{
  ℕ, zero, suc, ◌+◌, ◌-◌, ◌*◌, ◌/◌, ◌%◌, ◌^◌, Bool, ◌&&◌, Option, none, some, Text, leb, ltb, ◌==◌,
  if◌then◌else◌,
}
use accord_rfc.Perms.{Permissions}

abbrev pub u64_mod : ℕ
u64_mod = 2 ^ 64

abbrev digit_char : ℕ → Char
digit_char zero = "0"
digit_char (suc zero) = "1"
digit_char (suc (suc zero)) = "2"
digit_char (suc (suc (suc zero))) = "3"
digit_char (suc (suc (suc (suc zero)))) = "4"
digit_char (suc (suc (suc (suc (suc zero))))) = "5"
digit_char (suc (suc (suc (suc (suc (suc zero)))))) = "6"
digit_char (suc (suc (suc (suc (suc (suc (suc zero))))))) = "7"
digit_char (suc (suc (suc (suc (suc (suc (suc (suc zero)))))))) = "8"
digit_char _ = "9"

-- The digits of a number before those of `tail`, on fuel for the number of digits.
show_digits : ℕ → ℕ → Text → Text
show_digits zero n tail = tail
show_digits (suc f) n tail =
    let more = show_digits f (n / 10) (String.◌∷◌ (digit_char (n % 10)) tail) in
    if ltb n 10 then String.◌∷◌ (digit_char n) tail else more

-- `Display`: a u64 has at most 20 digits.
unfoldable pub display : Permissions → Text
unfolding show_digits
display p = show_digits 20 p String.[]

is_digit : ℕ → Bool
is_digit c = leb b'0' c && leb c b'9'

-- Digit by digit, with the checks for overflow.
read_digits : ℕ → Text → Option ℕ
unfolding is_digit
read_digits acc String.[] = some acc
read_digits acc (String.◌∷◌ c s) =
    let n = acc * 10 + (code c - b'0') in
    let rest = read_digits n s in
    if is_digit (code c) then (if ltb n u64_mod then rest else none) else none

-- `parse::<u64>`: a sign `+` is allowed, and at least one digit is wanted.
unsigned : Text → Option ℕ
unfolding read_digits
unsigned String.[] = none
unsigned (String.◌∷◌ c s) = read_digits 0 (String.◌∷◌ c s)

-- `FromStr`
unfoldable pub from_str : Text → Option Permissions
unfolding unsigned
from_str String.[] = none
from_str (String.◌∷◌ c s) = if code c == b'+' then unsigned s else unsigned (String.◌∷◌ c s)
