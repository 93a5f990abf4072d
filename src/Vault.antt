-- ===== src/Vault.antt =====
-- crates/accord-server/src/vault/service.rs and backup/service.rs: blobs of an account that the
-- server cannot read.
pub mod Stored
pub mod History
mod Tests
use accord_rfc.Base.{
  ℕ, Bool, true, false, ◌||◌, List, [], ◌∷◌, Option, none, some, Text, Uuid, Bytes, is_empty,
  count_bytes, ltb, if◌then◌else◌,
}
use accord_rfc.Store.{Backup, Db}
use accord_rfc.Store.Blobs.{
  upsert_backup, get_backup, delete_backup, put_vault_blob, get_vault_blob, delete_vault_blob,
}
use accord_rfc.Api.Error.{Result, ok, bad_argument, missing, ok_or}
use accord_rfc.Api.Request.{Env, caller}
use accord_rfc.Api.Server.{Server, reads_db, modify_db}
use accord_rfc.Api.Action.{Action, pure, lift, ◌>>=◌, ◌>>◌}

abbrev pub no_bytes : Bytes → Bool
no_bytes [] = true
no_bytes (b ∷ bytes) = false

-- `check_name`, with `MAX_NAME_LEN`.
abbrev pub check_name : Text → Result (Unit {0})
check_name name =
    if is_empty name || ltb 256 (count_bytes name) then bad_argument "invalid blob name" else ok tt

-- The condition of `store_backup`.
abbrev pub check_backup : Backup → Result (Unit {0})
check_backup b =
    if no_bytes b.encrypted_blob || (no_bytes b.salt || no_bytes b.argon2_params)
    then bad_argument "incomplete backup"
    else ok tt

module _ (env : Env) where
  abbrev pub account : Option Text → Action Server Uuid
  account header = lift (caller env header "invalid user id in token")

  -- `put_blob`
  unfoldable pub put_blob : Option Text → Text → Bytes → Action Server Unit
  put_blob header name blob = do
    user_id ← account header
    lift (check_name name)
    lift (if no_bytes blob then bad_argument "empty blob" else ok tt)
    modify_db (put_vault_blob user_id name blob)

  -- `get_blob`
  unfoldable pub get_blob : Option Text → Text → Action Server Bytes
  get_blob header name = do
    user_id ← account header
    reads_db λ db. ok_or (get_vault_blob db user_id name) (missing "vault blob")

  -- `delete_blob`
  unfoldable pub delete_blob : Option Text → Text → Action Server Unit
  delete_blob header name = do user_id ← account header; modify_db (delete_vault_blob user_id name)

  -- `store_backup`. The version goes from a u32 to an i32 and back.
  unfoldable pub store_backup : Uuid → Bytes → Bytes → Bytes → ℕ → Action Server Unit
  store_backup user_id blob salt params version = do
    let b : Backup = record {
      user_id = user_id;
      encrypted_blob = blob;
      salt = salt;
      argon2_params = params;
      version = version;
    }
    lift (check_backup b)
    modify_db (upsert_backup b)

  -- `upload_key_backup`, and `update_key_backup`, which has the same body.
  unfoldable pub upload_key_backup : Option Text → Bytes → Bytes → Bytes → ℕ → Action Server Unit
  unfolding store_backup
  upload_key_backup header blob salt params version = do
    user_id ← account header
    store_backup user_id blob salt params version

  -- `download_key_backup`
  unfoldable pub download_key_backup : Option Text → Action Server Backup
  download_key_backup header = do
    user_id ← account header
    reads_db λ db. ok_or (get_backup db user_id) (missing "key backup")

  -- `delete_key_backup`
  unfoldable pub delete_key_backup : Option Text → Action Server Unit
  delete_key_backup header = do user_id ← account header; modify_db (delete_backup user_id)
