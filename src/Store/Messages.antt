-- ===== src/Store/Messages.antt =====
-- The queries on the messages of public channels of store/sqlite.rs.
pub mod Keys
pub mod History
use accord_rfc.Base.{
  ℕ, suc, ◌+◌, ◌^◌, Bool, true, false, ◌&&◌, ◌||◌, List, [], ◌∷◌, ◌++◌, Option, none, some, Text,
  Uuid, find, filter, take, map, ltb, leb, ◌==◌, if◌then◌else◌,
}
use accord_rfc.Store.{User, PublicMessage, Db}

-- `PublicMessageRow`
pub record PublicMessageRow : Type 0 where
  pub id : Uuid
  pub group_id : Uuid
  pub sender_id : Uuid
  pub sender_display_name : Text
  pub content : Text
  pub seq : ℕ
  pub created_at : ℕ

-- The row of UNIQUE (group_id, client_message_id).
abbrev pub same_message : Uuid → Uuid → PublicMessage → Bool
same_message group_id client_message_id m =
    m.group_id == group_id && m.client_message_id == client_message_id

-- The number and the time that the INSERT returns: those of the row with the same key, if there is
-- one, which stays as it is. The counter of the AUTOINCREMENT goes on in both cases: the number is
-- drawn before the conflict is found.
unfoldable pub insert_row : Uuid → Uuid → Uuid → Text → Uuid → ℕ → Db → (ℕ × ℕ) × Db
insert_row id group_id sender_id content client_message_id now db =
    elim (find (same_message group_id client_message_id) db.public_messages) [
      | some m ↦ ((m.seq, m.created_at), record db { public_seq = suc db.public_seq })
      | none ↦ (
        (suc db.public_seq, now),
        record db {
          public_messages =
              db.public_messages
              ++ record {
                seq = suc db.public_seq;
                id = id;
                group_id = group_id;
                sender_id = sender_id;
                content = content;
                client_message_id = client_message_id;
                created_at = now;
              }
                ∷ [];
          public_seq = suc db.public_seq;
        },
      )
    ]

abbrev pub find_sender : Db → Uuid → Option User
find_sender db sender_id = find (λ (u : User). u.id == sender_id) db.users

-- `insert_public_message`; none is the error for a sender without a row.
unfoldable pub insert_public_message :
    Uuid → Uuid → Uuid → Text → Uuid → ℕ → Db → Option PublicMessageRow × Db
unfolding insert_row
insert_public_message id group_id sender_id content client_message_id now db =
    let ((seq, created_at), db') =
      insert_row id group_id sender_id content client_message_id now db in
    (
      elim (find_sender db' sender_id) [
        | none ↦ none
        | some user ↦ some (record {
          id = id;
          group_id = group_id;
          sender_id = sender_id;
          sender_display_name = user.display_name;
          content = content;
          seq = seq;
          created_at = created_at;
        })
      ],
      db',
    )

-- A row with its sender; a row without one is not joined.
abbrev pub join_sender : Option User → PublicMessage → List PublicMessageRow → List PublicMessageRow
join_sender none m rows = rows
join_sender (some user) m rows =
    record {
      id = m.id;
      group_id = m.group_id;
      sender_id = m.sender_id;
      sender_display_name = user.display_name;
      content = m.content;
      seq = m.seq;
      created_at = m.created_at;
    }
    ∷ rows

abbrev pub with_sender : Db → List PublicMessage → List PublicMessageRow
with_sender db [] = []
with_sender db (m ∷ ms) = join_sender (find_sender db m.sender_id) m (with_sender db ms)

abbrev pub insert_newest : PublicMessageRow → List PublicMessageRow → List PublicMessageRow
insert_newest r [] = r ∷ []
insert_newest r (x ∷ xs) =
    let rest = insert_newest r xs in if ltb x.seq r.seq then r ∷ x ∷ xs else x ∷ rest

-- `ORDER BY seq DESC`
abbrev pub newest_first : List PublicMessageRow → List PublicMessageRow
newest_first [] = []
newest_first (r ∷ rs) = insert_newest r (newest_first rs)

-- `before_seq <= 0`, of the u64 as an i64.
abbrev pub unbounded : ℕ → Bool
unbounded before_seq = before_seq == 0 || leb (2 ^ 63) before_seq

-- The rows of the group below the bound, in no particular order.
abbrev pub matching : Db → Uuid → ℕ → List PublicMessageRow
matching db group_id before_seq = with_sender db (
    filter
      (λ (m : PublicMessage).
        m.group_id == group_id && (unbounded before_seq || ltb m.seq before_seq))
      db.public_messages)

-- `fetch_public_history`
unfoldable pub fetch_public_history : Db → Uuid → ℕ → ℕ → List PublicMessageRow
fetch_public_history db group_id before_seq limit =
    take limit (newest_first (matching db group_id before_seq))
