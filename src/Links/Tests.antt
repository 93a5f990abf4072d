-- ===== src/Links/Tests.antt =====
-- An instance of the theorem on invite keys, over a codec that knows only one.
use accord_rfc.Base.{◌≡◌, refl, [], ◌∷◌, none, some, Text, Bytes}
use accord_rfc.Base.Strings.{NoSpace}
use accord_rfc.Links.{Codec, ok}
use accord_rfc.Links.Invite.{InviteKey, direct_key, encode_key, decode_key, decode_key-encode_key}

abbrev single {ℓ} : {A : Type ℓ} → A → Codec A
single a = record {
  encode64 = λ bytes. "eyJ2IjoxfQ";
  decode64 = λ text. some (123 ∷ 125 ∷ []);
  to_vec = λ value. 123 ∷ 125 ∷ [];
  from_slice = λ bytes. some a;
}

body-NoSpace : NoSpace "eyJ2IjoxfQ"
unfolding accord_rfc.Base.Strings.is_whitespace
body-NoSpace = (refl, (refl, (refl, (refl, (refl, (refl, (refl, (refl, (refl, (refl, tt))))))))))

abbrev key : InviteKey
key = direct_key "127.0.0.1" 50051 "token"

decode_key-encode_key_example : decode_key (single key) (encode_key (single key) key) ≡ ok key
decode_key-encode_key_example =
    decode_key-encode_key (single key) key
      (record { text = refl; value = refl; plain = body-NoSpace })
