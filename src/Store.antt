-- ===== src/Store.antt =====
-- crates/accord-server/src/store: the tables of the database (migrations/sqlite) as lists of rows,
-- in order of insertion, and the rows of store/model.rs. The queries stand in the child modules;
-- they follow store/sqlite.rs.
pub mod Rows
pub mod Examples
pub mod Users
pub mod Roles
pub mod Groups
pub mod Moderation
pub mod Messages
pub mod Sessions
pub mod Mailbox
pub mod Private
pub mod Blobs
pub mod Categories
pub mod Taverns
pub use Rows.*
use accord_rfc.Base.{ℕ, Bool, List, [], Option, Text, Uuid, Bytes}
use accord_rfc.Perms.{Permissions}

-- `users`
pub record User : Type 0 where
  pub id : Uuid
  pub username : Text
  pub display_name : Text
  pub password_hash : Text
  pub is_owner : Bool
  pub is_guest : Bool
  pub identity_key : Option Bytes
  pub avatar_url : Text

-- `roles`, and `RoleRow`. The column `permissions` holds the bit pattern of the u64.
pub record Role : Type 0 where
  pub id : Uuid
  pub name : Text
  pub permissions : Permissions
  pub position : ℕ
  pub is_default : Bool
  pub color : Text
  pub icon : Text
  pub hoist : Bool
  pub mentionable : Bool

-- `RoleWrite`
pub record RoleWrite : Type 0 where
  pub name : Text
  pub permissions : Permissions
  pub color : Text
  pub icon : Text
  pub hoist : Bool
  pub mentionable : Bool

-- `member_roles`
pub record MemberRole : Type 0 where
  pub user_id : Uuid
  pub role_id : Uuid

-- `groups`
pub record Group : Type 0 where
  pub id : Uuid
  pub name : Text
  pub description : Text
  pub kind : Text
  pub channel_kind : Text
  pub category_id : Text
  pub position : ℕ

-- `group_members`
pub record GroupMember : Type 0 where
  pub group_id : Uuid
  pub user_id : Uuid
  pub role : Text

-- `categories`, and `CategoryRow`.
pub record Category : Type 0 where
  pub id : Uuid
  pub name : Text
  pub position : ℕ

-- `tavern_info`, and `TavernRow`, which is without the id.
pub record Tavern : Type 0 where
  pub id : Uuid
  pub name : Text
  pub icon_url : Text
  pub description : Text
  pub linking_enabled : Bool
  pub banner_url : Text

-- `bans`, and `BanRow`.
pub record Ban : Type 0 where
  pub user_id : Uuid
  pub reason : Text
  pub banned_by : Uuid
  pub created_at_ms : ℕ

-- `audit_log`, and `AuditRow`.
pub record Audit : Type 0 where
  pub id : Uuid
  pub actor_id : Uuid
  pub action : Text
  pub target : Text
  pub verdict : Text
  pub reason : Text
  pub created_at_ms : ℕ

-- `public_messages`
pub record PublicMessage : Type 0 where
  pub seq : ℕ
  pub id : Uuid
  pub group_id : Uuid
  pub sender_id : Uuid
  pub content : Text
  pub client_message_id : Uuid
  pub created_at : ℕ

-- `private_messages`
pub record PrivateMessage : Type 0 where
  pub seq : ℕ
  pub id : Uuid
  pub group_id : Uuid
  pub sender_id : Uuid
  pub sender_device_id : Uuid
  pub ciphertext : Bytes
  pub epoch : ℕ
  pub client_message_id : Uuid
  pub created_at : ℕ

pub record Db : Type 0 where
  pub users : List User
  pub roles : List Role
  pub member_roles : List MemberRole
  pub groups : List Group
  pub group_members : List GroupMember
  pub categories : List Category
  pub tavern_info : List Tavern
  pub bans : List Ban
  pub audit_log : List Audit
  pub devices : List Device
  pub public_messages : List PublicMessage
  -- The number that AUTOINCREMENT drew last, here and below.
  pub public_seq : ℕ
  pub private_messages : List PrivateMessage
  pub private_seq : ℕ
  pub refresh_tokens : List RefreshToken
  pub invites : List Invite
  pub key_packages : List KeyPackage
  pub mls_inbox : List InboxEntry
  pub key_backups : List Backup
  pub vault_blobs : List VaultBlob
  pub friend_requests : List FriendRequest

-- The database that the first migration leaves, without its seed row.
abbrev pub empty_db : Db
empty_db = record {
  users = [];
  roles = [];
  member_roles = [];
  groups = [];
  group_members = [];
  categories = [];
  tavern_info = [];
  bans = [];
  audit_log = [];
  devices = [];
  public_messages = [];
  public_seq = 0;
  private_messages = [];
  private_seq = 0;
  refresh_tokens = [];
  invites = [];
  key_packages = [];
  mls_inbox = [];
  key_backups = [];
  vault_blobs = [];
  friend_requests = [];
}
