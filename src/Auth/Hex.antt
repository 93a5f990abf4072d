-- ===== src/Auth/Hex.antt =====
-- `hex_encode` of crates/accord-server/src/auth/service.rs.
use Prim.Native.Char.{Char, code}
use Prim.Native.String
use accord_rfc.Base.{
  AreBytes, ℕ, zero, suc, ◌+◌, ◌-◌, ◌*◌, ◌/◌, ◌%◌, ◌<◌, ◌≡◌, refl, ap, sym, ◌∙◌, [], ◌∷◌, Text,
  Bytes, ltb, if◌then◌else◌, arith,
}

abbrev letter : ℕ → Char
letter zero = "a"
letter (suc zero) = "b"
letter (suc (suc zero)) = "c"
letter (suc (suc (suc zero))) = "d"
letter (suc (suc (suc (suc zero)))) = "e"
letter _ = "f"

abbrev pub hex_digit : ℕ → Char
hex_digit zero = "0"
hex_digit (suc zero) = "1"
hex_digit (suc (suc zero)) = "2"
hex_digit (suc (suc (suc zero))) = "3"
hex_digit (suc (suc (suc (suc zero)))) = "4"
hex_digit (suc (suc (suc (suc (suc zero))))) = "5"
hex_digit (suc (suc (suc (suc (suc (suc zero)))))) = "6"
hex_digit (suc (suc (suc (suc (suc (suc (suc zero))))))) = "7"
hex_digit (suc (suc (suc (suc (suc (suc (suc (suc zero)))))))) = "8"
hex_digit (suc (suc (suc (suc (suc (suc (suc (suc (suc zero))))))))) = "9"
hex_digit (suc (suc (suc (suc (suc (suc (suc (suc (suc (suc n)))))))))) = letter n

-- `format!("{b:02x}")` of each byte.
unfoldable pub hex_encode : Bytes → Text
hex_encode [] = String.[]
hex_encode (b ∷ bytes) =
    String.◌∷◌ (hex_digit (b / 16)) (String.◌∷◌ (hex_digit (b % 16)) (hex_encode bytes))

-- The value of a digit, and the bytes of a text of digits.
abbrev hex_value : ℕ → ℕ
hex_value c = if ltb c b'a' then c - b'0' else (c - b'a') + 10

read_hex : Text → Bytes
read_hex String.[] = []
read_hex (String.◌∷◌ c String.[]) = []
read_hex (String.◌∷◌ c (String.◌∷◌ d s)) =
    (hex_value (code c) * 16 + hex_value (code d)) ∷ read_hex s

value-hex_digit : (n : ℕ) → n < 16 → hex_value (code (hex_digit n)) ≡ n
value-hex_digit zero h = refl
value-hex_digit (suc zero) h = refl
value-hex_digit (suc (suc zero)) h = refl
value-hex_digit (suc (suc (suc zero))) h = refl
value-hex_digit (suc (suc (suc (suc zero)))) h = refl
value-hex_digit (suc (suc (suc (suc (suc zero))))) h = refl
value-hex_digit (suc (suc (suc (suc (suc (suc zero)))))) h = refl
value-hex_digit (suc (suc (suc (suc (suc (suc (suc zero))))))) h = refl
value-hex_digit (suc (suc (suc (suc (suc (suc (suc (suc zero)))))))) h = refl
value-hex_digit (suc (suc (suc (suc (suc (suc (suc (suc (suc zero))))))))) h = refl
value-hex_digit (suc (suc (suc (suc (suc (suc (suc (suc (suc (suc zero)))))))))) h = refl
value-hex_digit (suc (suc (suc (suc (suc (suc (suc (suc (suc (suc (suc zero))))))))))) h = refl
value-hex_digit (suc (suc (suc (suc (suc (suc (suc (suc (suc (suc (suc (suc zero)))))))))))) h =
    refl
value-hex_digit (suc (suc (suc (suc (suc (suc (suc (suc (suc (suc (suc (suc (suc zero)))))))))))))
      h =
    refl
value-hex_digit
      (suc (suc (suc (suc (suc (suc (suc (suc (suc (suc (suc (suc (suc (suc zero)))))))))))))) h =
    refl
value-hex_digit
      (suc (suc (suc (suc (suc (suc (suc (suc (suc (suc (suc (suc (suc (suc (suc zero)))))))))))))))
      h =
    refl
value-hex_digit
      (suc
        (suc (suc (suc (suc (suc (suc (suc (suc (suc (suc (suc (suc (suc (suc (suc n))))))))))))))))
      h =
    absurd (omega arith)

read_hex-hex_encode : (bytes : Bytes) → AreBytes bytes → read_hex (hex_encode bytes) ≡ bytes
unfolding read_hex hex_encode
read_hex-hex_encode [] h = refl
read_hex-hex_encode (b ∷ bytes) h =
    rw (value-hex_digit (b / 16) (omega arith), value-hex_digit (b % 16) (omega arith))
      (rw (read_hex-hex_encode bytes h.1) (ap (λ x. x ∷ bytes) (digits b)))
  where
    digits : (n : ℕ) → n / 16 * 16 + n % 16 ≡ n
    digits n = omega arith

-- Different keys have different texts.
pub hex_encode-injective :
    (key other : Bytes)
    → AreBytes key
    → AreBytes other
    → hex_encode key ≡ hex_encode other
    → key ≡ other
hex_encode-injective key other h k e =
    sym (read_hex-hex_encode key h) ∙ ap read_hex e ∙ read_hex-hex_encode other k
