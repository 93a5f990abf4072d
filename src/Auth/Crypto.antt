-- ===== src/Auth/Crypto.antt =====
-- What the auth service uses of the crates for passwords, tokens and signatures: parameters.
use accord_rfc.Base.{ℕ, Bool, Option, Text, Uuid, Bytes}
use accord_rfc.Api.Request.{Claims}

pub record Crypto : Type 0 where
  -- Argon2: the PHC string of a password under a salt, none for an error.
  pub hash : Text → ℕ → Option Text
  -- Whether a password is that of a PHC string, none for a string that is none.
  pub verify_hash : Text → Text → Option Bool
  -- `jsonwebtoken::encode` of claims that are issued and expire at these seconds.
  pub encode : Claims → ℕ → ℕ → Option Text
  -- The same of `ChallengeClaims`: the key, the purpose, the nonce and the two times.
  pub encode_challenge : Text → Text → Text → ℕ → ℕ → Option Text
  -- `jsonwebtoken::decode` of `ChallengeClaims`: the key and the purpose.
  pub decode_challenge : Text → Option (Text × Text)
  -- Whether the bytes are an Ed25519 key and the signature of the text is valid under it.
  pub verify_strict : Bytes → Text → Bytes → Bool
  -- `Uuid::simple`
  pub simple : Uuid → Text
