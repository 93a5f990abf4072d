-- ===== src/Store/Rows.antt =====
-- The rows of the tables of migrations/sqlite that keep sessions, the MLS relay, backups and friend
-- requests, after all the migrations.
use accord_rfc.Base.{ℕ, Bool, Option, Text, Uuid, Bytes}

-- `devices`
pub record Device : Type 0 where
  pub id : Uuid
  pub user_id : Uuid
  pub name : Text
  pub revoked_at : Option ℕ
  pub mls_credential : Option Bytes

-- `refresh_tokens`, and `RefreshRow`. The time is in milliseconds.
pub record RefreshToken : Type 0 where
  pub token : Text
  pub user_id : Uuid
  pub device_id : Uuid
  pub expires_at : ℕ

-- `invites`
pub record Invite : Type 0 where
  pub token : Text
  pub created_by : Uuid
  pub revoked : Bool

-- `key_packages`, and `ClaimedKeyPackage`, which is a part of it.
pub record KeyPackage : Type 0 where
  pub id : Uuid
  pub user_id : Uuid
  pub device_id : Uuid
  pub key_package : Bytes
  pub consumed : Bool
  pub created_at : ℕ

-- `mls_inbox`, and `InboxRow`, which is a part of it.
pub record InboxEntry : Type 0 where
  pub id : Uuid
  pub device_id : Uuid
  pub kind : Text
  pub group_id : Uuid
  pub payload : Bytes

-- `key_backups`, and `BackupRow`.
pub record Backup : Type 0 where
  pub user_id : Uuid
  pub encrypted_blob : Bytes
  pub salt : Bytes
  pub argon2_params : Bytes
  pub version : ℕ

-- `vault_blobs`
pub record VaultBlob : Type 0 where
  pub user_id : Uuid
  pub name : Text
  pub blob : Bytes

-- `friend_requests`, and `FriendRequestRow`, which is a part of it.
pub record FriendRequest : Type 0 where
  pub id : Uuid
  pub recipient : Uuid
  pub sender_identity : Bytes
  pub kind : Text
  pub contact_code : Text
  pub created_at_ms : ℕ
