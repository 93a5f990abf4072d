-- ===== src/Links/Contact.antt =====
-- crates/accord-types/src/contact.rs: contact codes.
use accord_rfc.Base.{ℕ, ◌≡◌, refl, List, [], Option, none, Text, Bytes, arith}
use accord_rfc.Base.Strings.{NoSpace}
use accord_rfc.Links.{Codec, Reads, Decoded, ok, encode, decode, decode-encode}

-- `ContactCode`
pub record ContactCode : Type 0 where
  pub v : ℕ
  pub identity_pubkey : Bytes
  pub name : Option Text
  pub addresses : List Text
  pub cert : Option Text
  pub host_user_id : Option Text

-- `PREFIX`
abbrev pub prefix : Text
prefix = "accordc:"

-- `ContactCode::new`, and the builders.
abbrev pub new_contact : Bytes → ContactCode
new_contact identity_pubkey = record {
  v = 1;
  identity_pubkey = identity_pubkey;
  name = none;
  addresses = [];
  cert = none;
  host_user_id = none;
}

abbrev pub with_name : Option Text → ContactCode → ContactCode
with_name name c = record c { name = name }

abbrev pub with_addresses : List Text → ContactCode → ContactCode
with_addresses addresses c = record c { addresses = addresses }

abbrev pub with_cert : Option Text → ContactCode → ContactCode
with_cert cert c = record c { cert = cert }

abbrev pub with_host_user_id : Option Text → ContactCode → ContactCode
with_host_user_id host_user_id c = record c { host_user_id = host_user_id }

module _ (codec : Codec ContactCode) where
  -- `ContactCode::encode`
  unfoldable pub encode_contact : ContactCode → Text
  encode_contact = encode codec prefix

  -- `ContactCode::decode`
  unfoldable pub decode_contact : Text → Decoded ContactCode
  decode_contact = decode codec prefix

prefix-NoSpace : NoSpace prefix
unfolding accord_rfc.Base.Strings.is_whitespace
prefix-NoSpace = (refl, (refl, (refl, (refl, (refl, (refl, (refl, (refl, tt))))))))

-- A contact code is read back.
pub decode_contact-encode_contact :
    (codec : Codec ContactCode) (c : ContactCode)
    → Reads codec c
    → decode_contact codec (encode_contact codec c) ≡ ok c
unfolding decode_contact encode_contact
decode_contact-encode_contact codec c r = decode-encode codec prefix c prefix-NoSpace r
