-- ===== src/Store/Private.antt =====
-- The queries on private messages of store/sqlite.rs.
use accord_rfc.Base.{
  ℕ, suc, Bool, not, ◌&&◌, ◌||◌, List, [], ◌∷◌, ◌++◌, none, some, Uuid, any, find, filter, take,
  map, is_some, ltb, ◌==◌, if◌then◌else◌,
}
use accord_rfc.Store.{PrivateMessage, GroupMember, Device, Db}
use accord_rfc.Store.Messages.{unbounded}

-- The row of UNIQUE (group_id, client_message_id).
abbrev pub is_copy : Uuid → Uuid → PrivateMessage → Bool
is_copy group_id client_message_id m =
    m.group_id == group_id && m.client_message_id == client_message_id

-- `store_private_message`: `PrivateMessageRow`, which has the new id and ciphertext but the number
-- and the time of the row that is kept, and the table. The counter of the AUTOINCREMENT goes on in
-- both cases.
unfoldable pub store_private_message : PrivateMessage → Db → PrivateMessage × Db
store_private_message new db =
    elim (find (is_copy new.group_id new.client_message_id) db.private_messages) [
      | some m ↦ (
        record new { seq = m.seq; created_at = m.created_at },
        record db { private_seq = suc db.private_seq },
      )
      | none ↦
          let m = record new { seq = suc db.private_seq } in
          (
            m,
            record db {
              private_messages = db.private_messages ++ m ∷ [];
              private_seq = suc db.private_seq;
            },
          )
    ]

abbrev pub insert_latest : PrivateMessage → List PrivateMessage → List PrivateMessage
insert_latest m [] = m ∷ []
insert_latest m (x ∷ xs) =
    let rest = insert_latest m xs in if ltb x.seq m.seq then m ∷ x ∷ xs else x ∷ rest

-- `ORDER BY seq DESC`
abbrev pub latest_first : List PrivateMessage → List PrivateMessage
latest_first [] = []
latest_first (m ∷ ms) = insert_latest m (latest_first ms)

-- `fetch_private_history`
unfoldable pub fetch_private_history : Db → Uuid → ℕ → ℕ → List PrivateMessage
fetch_private_history db group_id before_seq limit = take limit (
    latest_first (
      filter
        (λ (m : PrivateMessage).
          m.group_id == group_id && (unbounded before_seq || ltb m.seq before_seq))
        db.private_messages))

-- `device_ids_for_group`: the devices of the members that are not revoked.
unfoldable pub device_ids_for_group : Db → Uuid → List Uuid
device_ids_for_group db group_id =
    map (λ (d : Device). d.id)
      (filter
        (λ (d : Device).
          not (is_some d.revoked_at)
          && any (λ (m : GroupMember). m.group_id == group_id && m.user_id == d.user_id)
              db.group_members)
        db.devices)

-- `device_ids_for_user`
unfoldable pub device_ids_for_user : Db → Uuid → List Uuid
device_ids_for_user db user_id =
    map (λ (d : Device). d.id)
      (filter (λ (d : Device). d.user_id == user_id && not (is_some d.revoked_at)) db.devices)
