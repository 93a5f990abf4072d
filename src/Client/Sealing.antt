-- ===== src/Client/Sealing.antt =====
-- crates/accord-client/src-tauri/src/at_rest.rs, and `seal` and `open` of
-- crates/accord-crypto/src/backup.rs: bytes that are sealed before they are written to the disk.
use accord_rfc.Base.{
  ℕ, suc, Bool, List, ◌≡◌, ap, ◌++◌, length, take, drop, Option, none, some, Text, Bytes, ltb, ◌==◌,
  if◌then◌else◌,
}

-- `XChaCha20Poly1305`, by the key, the nonce and the text.
pub record Cipher : Type 0 where
  pub encrypt : Bytes → Bytes → Bytes → Option Bytes
  pub decrypt : Bytes → Bytes → Bytes → Option Bytes

-- The state of the client: the archive of each account and group, the setting, the key (as it is
-- cached, and in the keyring of the system), what the generator will give (each draw, of so many
-- bytes), and what is to be uploaded.
pub record App : Type 0 where
  pub files : Text → Text → Option Bytes
  pub encrypt_at_rest : Bool
  pub dek : Option Bytes
  pub secret : Option Bytes
  pub random : ℕ → ℕ → Bytes
  pub draws : ℕ
  pub dirty : List (Text × Text)

-- `NONCE_LEN`
abbrev pub nonce_len : ℕ
nonce_len = 24

-- The secret of the keyring, which is 32 bytes.
abbrev pub cached_key : Bytes → App → Option Bytes × App
cached_key key app =
    if length key == 32 then (some key, record app { dek = some key }) else (none, app)

-- `random_key`, kept in the keyring and cached.
abbrev pub new_key : App → Option Bytes × App
new_key app =
    let key = app.random app.draws 32 in
    (some key, record app { dek = some key; secret = some key; draws = suc app.draws })

abbrev pub stored_key : Option Bytes → App → Option Bytes × App
stored_key none app = new_key app
stored_key (some bytes) app = cached_key bytes app

abbrev pub key_from : Option Bytes → App → Option Bytes × App
key_from none app = stored_key app.secret app
key_from (some key) app = (some key, app)

-- `dek`
abbrev pub data_key : App → Option Bytes × App
data_key app = key_from app.dek app

abbrev pub prefixed : Bytes → Option Bytes → Option Bytes
prefixed nonce none = none
prefixed nonce (some ciphertext) = some (nonce ++ ciphertext)

module _ (cipher : Cipher) where
  -- `seal`
  abbrev pub seal : Bytes → Bytes → App → Option Bytes × App
  seal key plaintext app =
      let nonce = app.random app.draws nonce_len in
      (prefixed nonce (cipher.encrypt key nonce plaintext), record app { draws = suc app.draws })

  -- `open`
  abbrev pub unseal : Bytes → Bytes → Option Bytes
  unseal key blob =
      if ltb (length blob) nonce_len
      then none
      else cipher.decrypt key (take nonce_len blob) (drop nonce_len blob)

  abbrev pub seal_with : Option Bytes → Bytes → App → Option Bytes × App
  seal_with none plaintext app = (none, app)
  seal_with (some key) plaintext app = seal key plaintext app

  -- `seal_bytes`
  abbrev pub seal_bytes : Bytes → App → Option Bytes × App
  seal_bytes plaintext app = let (key, app') = data_key app in seal_with key plaintext app'

  abbrev pub open_with : Option Bytes → Bytes → Option Bytes
  open_with none blob = none
  open_with (some key) blob = unseal key blob

  -- `open_bytes`
  abbrev pub open_bytes : Bytes → App → Option Bytes × App
  open_bytes blob app = let (key, app') = data_key app in (open_with key blob, app')

-- A key that is cached is the key.
pub data_key_lem : (key : Bytes) (app : App) → app.dek ≡ some key → data_key app ≡ (some key, app)
data_key_lem key app h = ap (λ o. key_from o app) h
