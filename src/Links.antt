-- ===== src/Links.antt =====
-- crates/accord-types: invite keys and contact codes, texts that are pasted. Base64 and JSON are
-- parameters.
pub mod Contact
pub mod Invite
mod Tests
use Prim.Native.Char.{code}
use Prim.Native.String
use accord_rfc.Base.{
  ◌≡◌, refl, ap, ◌∙◌, Bool, true, false, Text, Bytes, Option, none, some, trim, format, [], ◌∷◌,
  ◌==◌, if◌then◌else◌, arith,
}
use accord_rfc.Base.Strings.{is_whitespace, NoSpace, NoSpace-append, trim-NoSpace}
use text.Mathlib.TextLemmas.{nil-append, cons-append}
use accord_rfc.Api.Request.{strip_prefix}

-- `URL_SAFE_NO_PAD`, and `serde_json` on a type.
pub record Codec {ℓ} (A : Type ℓ) : Type ℓ where
  pub encode64 : Bytes → Text
  pub decode64 : Text → Option Bytes
  pub to_vec : A → Bytes
  pub from_slice : Bytes → Option A

-- What the crates promise of a value: what was written is read back, and the alphabet of base64 has
-- no white space.
pub record Reads {ℓ} {A : Type ℓ} (codec : Codec A) (a : A) : Type ℓ where
  pub text : codec.decode64 (codec.encode64 (codec.to_vec a)) ≡ some (codec.to_vec a)
  pub value : codec.from_slice (codec.to_vec a) ≡ some a
  pub plain : NoSpace (codec.encode64 (codec.to_vec a))

-- `InviteError` and `ContactError`
pub data LinkError : Type 0 where
  bad_prefix bad_base64 bad_payload : LinkError

pub data Decoded {ℓ} (A : Type ℓ) : Type ℓ where
  ok : A → Decoded A
  err : LinkError → Decoded A

module _ {ℓ} {A : Type ℓ} (codec : Codec A) where
  -- `encode`, of both types.
  unfoldable pub encode : Text → A → Text
  encode prefix a = format (prefix ∷ codec.encode64 (codec.to_vec a) ∷ [])

  abbrev pub parsed : Option A → Decoded A
  parsed none = err bad_payload
  parsed (some a) = ok a

  abbrev pub decoded : Option Bytes → Decoded A
  decoded none = err bad_base64
  decoded (some bytes) = parsed (codec.from_slice bytes)

  abbrev pub bodied : Option Text → Decoded A
  bodied none = err bad_prefix
  bodied (some body) = decoded (codec.decode64 body)

  -- `decode`, of both types.
  unfoldable pub decode : Text → Text → Decoded A
  decode prefix s = bodied (strip_prefix prefix (trim s))

-- A prefix is stripped from what it was put before.
strip_prefix-append : (prefix s : Text) → strip_prefix prefix (String.◌++◌ prefix s) ≡ some s
unfolding strip_prefix
strip_prefix-append String.[] s = rw nil-append refl
strip_prefix-append (String.◌∷◌ c prefix) s =
    rw cons-append (ground (arith, strip_prefix-append prefix s))

append-nil-text : (s : Text) → String.◌++◌ s String.[] ≡ s
append-nil-text String.[] = nil-append String.[]
append-nil-text (String.◌∷◌ c s) = rw cons-append (rw (append-nil-text s) refl)

-- A link is read back, also with white space around it.
pub decode-encode {ℓ} :
    {A : Type ℓ} (codec : Codec A) (prefix : Text) (a : A)
    → NoSpace prefix
    → Reads codec a
    → decode codec prefix (encode codec prefix a) ≡ ok a
unfolding decode encode
decode-encode codec prefix a h r =
    ap (λ t. bodied codec (strip_prefix prefix t))
      (trim-NoSpace _ (NoSpace-append prefix _ h (NoSpace-append body String.[] r.plain tt)))
    ∙ ap (bodied codec) (strip_prefix-append prefix (String.◌++◌ body String.[]))
    ∙ ap (λ t. decoded codec (codec.decode64 t)) (append-nil-text body)
    ∙ ap (decoded codec) r.text
    ∙ ap (parsed codec) r.value
  where
    body : Text
    body = codec.encode64 (codec.to_vec a)
