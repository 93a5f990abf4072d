-- ===== src/Store/Messages/Keys.antt =====
-- The numbers and the keys of the messages in public channels.
use accord_rfc.Base.{
  find-append_none, ℕ, suc, ◌≤◌, ◌<◌, ◌≡◌, refl, inl, inr, List, [], ◌∷◌, ◌++◌, none, some, Text,
  Uuid, find, Option-cases, arith,
}
use accord_rfc.Store.{PublicMessage, Db}
use accord_rfc.Store.Groups.{is_member}
use accord_rfc.Store.Messages.{find_sender, same_message, insert_row}

insert_row_found :
    (id group sender : Uuid) (content : Text) (client : Uuid) (now : ℕ) (db : Db)
    (m : PublicMessage)
    → find (same_message group client) db.public_messages ≡ some m
    → insert_row id group sender content client now db
      ≡ ((m.seq, m.created_at), record db { public_seq = suc db.public_seq })
unfolding insert_row
insert_row_found id group sender content client now db m e = rw (insert_row, e) refl

abbrev new_message : Uuid → Uuid → Uuid → Text → Uuid → ℕ → Db → PublicMessage
new_message id group sender content client now db = record {
  seq = suc db.public_seq;
  id = id;
  group_id = group;
  sender_id = sender;
  content = content;
  client_message_id = client;
  created_at = now;
}

insert_row_new :
    (id group sender : Uuid) (content : Text) (client : Uuid) (now : ℕ) (db : Db)
    → find (same_message group client) db.public_messages ≡ none
    → insert_row id group sender content client now db ≡ (
      (suc db.public_seq, now),
      record db {
        public_messages =
            db.public_messages ++ new_message id group sender content client now db ∷ [];
        public_seq = suc db.public_seq;
      },
    )
unfolding insert_row
insert_row_new id group sender content client now db e = rw (insert_row, e) refl

-- A message that is sent again under the same client id to the same group, with any id, sender,
-- text and time, gets the number and the time of the first, and leaves the database as the first
-- one did, but for the counter of the numbers, which is one higher.
pub insert_row_again :
    (id id' group sender sender' : Uuid) (content content' : Text) (client : Uuid) (now now' : ℕ)
    (db : Db)
    → insert_row id' group sender' content' client now'
        (insert_row id group sender content client now db).1
      ≡ (
        (insert_row id group sender content client now db).0,
        record (insert_row id group sender content client now db).1 {
          public_seq = suc (insert_row id group sender content client now db).1.public_seq;
        },
      )
insert_row_again id id' group sender sender' content content' client now now' db =
    elim (Option-cases (find (same_message group client) db.public_messages)) [
      | inl e ↦
          let m : PublicMessage = new_message id group sender content client now db in
          rw (insert_row_new id group sender content client now db e) (
            insert_row_found id' group sender' content' client now' _ m
              (find-append_none (same_message group client) db.public_messages m e (ground arith)))
      | inr (m, e) ↦
          rw (insert_row_found id group sender content client now db m e)
            (insert_row_found id' group sender' content' client now' _ m e)
    ]

-- Each message has a number up to the counter, above those of the messages before it.
abbrev pub Numbered : ℕ → List PublicMessage → ℕ → Type 0
Numbered low [] high = low ≤ high
Numbered low (m ∷ ms) high = (low < m.seq) × Numbered m.seq ms high

Numbered-last :
    (low : ℕ) (ms : List PublicMessage) (high : ℕ) (m : PublicMessage)
    → Numbered low ms high
    → m.seq ≡ suc high
    → Numbered low (ms ++ m ∷ []) (suc high)
Numbered-last low [] high m h e = (omega arith, omega arith)
Numbered-last low (x ∷ ms) high m h e = (h.0, Numbered-last x.seq ms high m h.1 e)

Numbered-le :
    (low : ℕ) (ms : List PublicMessage) (high : ℕ)
    → Numbered low ms high
    → Numbered low ms (suc high)
Numbered-le low [] high h = omega arith
Numbered-le low (m ∷ ms) high h = (h.0, Numbered-le m.seq ms high h.1)

-- If the messages have rising numbers, up to the counter, they have so after an insertion.
pub insert_row-Numbered :
    (id group sender : Uuid) (content : Text) (client : Uuid) (now : ℕ) (db : Db)
    → Numbered 0 db.public_messages db.public_seq
    → Numbered 0
        (insert_row id group sender content client now db).1.public_messages
        (insert_row id group sender content client now db).1.public_seq
insert_row-Numbered id group sender content client now db h =
    elim (Option-cases (find (same_message group client) db.public_messages)) [
      | inl e ↦ rw (insert_row_new id group sender content client now db e) (
          Numbered-last 0 db.public_messages db.public_seq
            (new_message id group sender content client now db) h refl)
      | inr (m, e) ↦
          rw (insert_row_found id group sender content client now db m e)
            (Numbered-le 0 db.public_messages db.public_seq h)
    ]

-- What an insertion leaves: a message under its key, and the accounts and memberships.
pub record Inserted (group client : Uuid) (db db' : Db) : Type 0 where
  pub stored : (m : PublicMessage) × (find (same_message group client) db'.public_messages ≡ some m)
  pub members : (g u : Uuid) → is_member db' g u ≡ is_member db g u
  pub senders : (u : Uuid) → find_sender db' u ≡ find_sender db u

pub insert_row-Inserted :
    (id group sender : Uuid) (content : Text) (client : Uuid) (now : ℕ) (db : Db)
    → Inserted group client db (insert_row id group sender content client now db).1
unfolding is_member
insert_row-Inserted id group sender content client now db =
    elim (Option-cases (find (same_message group client) db.public_messages)) [
      | inl e ↦
          let m : PublicMessage = new_message id group sender content client now db in
          rw (insert_row_new id group sender content client now db e) (record {
            stored = (
              m,
              find-append_none (same_message group client) db.public_messages m e (ground arith),
            );
            members = λ g u. refl;
            senders = λ u. refl;
          })
      | inr (m, e) ↦
          rw (insert_row_found id group sender content client now db m e)
            (record { stored = (m, e); members = λ g u. refl; senders = λ u. refl })
    ]
