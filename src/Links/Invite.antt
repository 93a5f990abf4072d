-- ===== src/Links/Invite.antt =====
-- crates/accord-types/src/invite.rs: invite keys.
use Prim.Native.Char.{code}
use Prim.Native.String
use accord_rfc.Base.{
  ℕ, ◌≡◌, refl, ap, ◌∙◌, Bool, true, false, ◌||◌, List, [], ◌∷◌, Option, none, some, Text, is_some,
  format, ◌==◌, arith, if◌then◌else◌,
}
use accord_rfc.Base.Strings.{NoSpace}
use accord_rfc.Perms.Decimal.{display}
use accord_rfc.Links.{Codec, Reads, Decoded, ok, encode, decode, decode-encode}

-- `Transport`
pub data Transport : Type 0 where
  direct mesh : Transport

-- `InviteKey`
pub record InviteKey : Type 0 where
  pub v : ℕ
  pub transport : Transport
  pub host : Text
  pub port : ℕ
  pub token : Text
  pub peers : List Text
  pub name : Option Text
  pub cert : Option Text

-- `PREFIX`
abbrev pub prefix : Text
prefix = "accord1:"

-- `InviteKey::direct` and `InviteKey::mesh`, and the builders.
abbrev pub direct_key : Text → ℕ → Text → InviteKey
direct_key host port token = record {
  v = 1;
  transport = direct;
  host = host;
  port = port;
  token = token;
  peers = [];
  name = none;
  cert = none;
}

abbrev pub mesh_key : Text → ℕ → Text → List Text → InviteKey
mesh_key host port token peers = record {
  v = 1;
  transport = mesh;
  host = host;
  port = port;
  token = token;
  peers = peers;
  name = none;
  cert = none;
}

abbrev pub with_name : Text → InviteKey → InviteKey
with_name name k = record k { name = some name }

abbrev pub with_cert : Option Text → InviteKey → InviteKey
with_cert cert k = record k { cert = cert }

-- `host.contains(':')`
abbrev has_colon : Text → Bool
has_colon String.[] = false
has_colon (String.◌∷◌ c s) = code c == b':' || has_colon s

-- `endpoint`
unfoldable pub endpoint : InviteKey → Text
unfolding display
endpoint k =
    let scheme : Text = if is_some k.cert then "https" else "http" in
    if has_colon k.host
    then format (scheme ∷ "://[" ∷ k.host ∷ "]:" ∷ display k.port ∷ [])
    else format (scheme ∷ "://" ∷ k.host ∷ ":" ∷ display k.port ∷ [])

prefix-NoSpace : NoSpace prefix
unfolding accord_rfc.Base.Strings.is_whitespace
prefix-NoSpace = (refl, (refl, (refl, (refl, (refl, (refl, (refl, (refl, tt))))))))

module _ (codec : Codec InviteKey) where
  -- `InviteKey::encode`
  unfoldable pub encode_key : InviteKey → Text
  encode_key = encode codec prefix

  -- `InviteKey::decode`
  unfoldable pub decode_key : Text → Decoded InviteKey
  decode_key = decode codec prefix

  -- An invite key is read back from the text that it is encoded as, if base64 and JSON read back
  -- what they write of this key, and the base64 of it has no white space.
  pub decode_key-encode_key : (k : InviteKey) → Reads codec k → decode_key (encode_key k) ≡ ok k
  unfolding decode_key encode_key
  decode_key-encode_key k r = decode-encode codec prefix k prefix-NoSpace r
