-- ===== src/Store/Blobs.antt =====
-- The queries on key backups, vault blobs and friend requests of store/sqlite.rs.
use accord_rfc.Base.{
  ℕ, Bool, not, ◌&&◌, List, [], ◌∷◌, ◌++◌, Option, none, some, Text, text_eq, Uuid, Bytes, bytes_eq,
  any, find, filter, update, length, ltb, ◌==◌, if◌then◌else◌,
}
use accord_rfc.Store.{User, Backup, VaultBlob, FriendRequest, Db}

-- `upsert_backup`
unfoldable pub upsert_backup : Backup → Db → Db
upsert_backup b db =
    if any (λ (c : Backup). c.user_id == b.user_id) db.key_backups
    then record db {
      key_backups =
          update (λ (c : Backup). c.user_id == b.user_id) (λ (c : Backup). b) db.key_backups;
    }
    else record db { key_backups = db.key_backups ++ b ∷ [] }

-- `get_backup`
unfoldable pub get_backup : Db → Uuid → Option Backup
get_backup db user_id = find (λ (b : Backup). b.user_id == user_id) db.key_backups

-- `delete_backup`
unfoldable pub delete_backup : Uuid → Db → Db
delete_backup user_id db = record db {
  key_backups = filter (λ (b : Backup). not (b.user_id == user_id)) db.key_backups;
}

abbrev pub is_blob : Uuid → Text → VaultBlob → Bool
is_blob user_id name b = b.user_id == user_id && text_eq b.name name

-- `put_vault_blob`
unfoldable pub put_vault_blob : Uuid → Text → Bytes → Db → Db
put_vault_blob user_id name blob db =
    if any (is_blob user_id name) db.vault_blobs
    then record db {
      vault_blobs =
          update (is_blob user_id name) (λ (b : VaultBlob). record b { blob = blob })
            db.vault_blobs;
    }
    else record db {
      vault_blobs = db.vault_blobs ++ record { user_id = user_id; name = name; blob = blob } ∷ [];
    }

-- `get_vault_blob`
unfoldable pub get_vault_blob : Db → Uuid → Text → Option Bytes
get_vault_blob db user_id name = elim (find (is_blob user_id name) db.vault_blobs) [
  | none ↦ none
  | some b ↦ some b.blob
]

-- `delete_vault_blob`
unfoldable pub delete_vault_blob : Uuid → Text → Db → Db
delete_vault_blob user_id name db = record db {
  vault_blobs = filter (λ (b : VaultBlob). not (is_blob user_id name b)) db.vault_blobs;
}

abbrev pub is_request : Uuid → Bytes → Text → FriendRequest → Bool
is_request recipient sender_identity kind r =
    r.recipient == recipient && (bytes_eq r.sender_identity sender_identity && text_eq r.kind kind)

-- `upsert_friend_request`, given the id and the time of a new row; none is a recipient without a
-- row.
unfoldable pub upsert_friend_request : FriendRequest → Db → Option Db
upsert_friend_request new db =
    if not (any (λ (u : User). u.id == new.recipient) db.users)
    then none
    else if any (is_request new.recipient new.sender_identity new.kind) db.friend_requests
    then some (record db {
      friend_requests =
          update (is_request new.recipient new.sender_identity new.kind)
            (λ (r : FriendRequest). record r { contact_code = new.contact_code })
            db.friend_requests;
    })
    else some (record db { friend_requests = db.friend_requests ++ new ∷ [] })

abbrev pub is_to : Uuid → FriendRequest → Bool
is_to recipient r = r.recipient == recipient

abbrev pub insert_oldest : FriendRequest → List FriendRequest → List FriendRequest
insert_oldest r [] = r ∷ []
insert_oldest r (x ∷ xs) =
    let rest = insert_oldest r xs in
    if ltb x.created_at_ms r.created_at_ms then x ∷ rest else r ∷ x ∷ xs

-- `ORDER BY created_at`
abbrev pub oldest_first : List FriendRequest → List FriendRequest
oldest_first [] = []
oldest_first (r ∷ rs) = insert_oldest r (oldest_first rs)

-- `list_friend_requests`
unfoldable pub list_friend_requests : Db → Uuid → List FriendRequest
list_friend_requests db recipient = oldest_first (filter (is_to recipient) db.friend_requests)

-- `delete_friend_request`. The id of a row is the text of a uuid.
unfoldable pub delete_friend_request : Uuid → (Uuid → Bool) → Db → Db
delete_friend_request recipient has_id db = record db {
  friend_requests =
      filter (λ (r : FriendRequest). not (has_id r.id && r.recipient == recipient))
        db.friend_requests;
}

-- `count_friend_requests`
unfoldable pub count_friend_requests : Db → Uuid → ℕ
count_friend_requests db recipient = length (filter (is_to recipient) db.friend_requests)
