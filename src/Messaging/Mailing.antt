-- ===== src/Messaging/Mailing.antt =====
-- `handle_private_message` of crates/accord-server/src/messaging/service.rs: the message that is
-- stored, and the inboxes.
use accord_rfc.Base.{
  ℕ, suc, ◌≡◌, ◌≢◌, ◌⊎◌, refl, subst, ap, sym, ◌∙◌, inl, inr, Bool, true, List, [], ◌∷◌, Option,
  some, Text, Uuid, Bytes, any, find, find-append_none, filter, map, member, ◌==◌, if◌then◌else◌,
  Bool-cases, Option-cases, arith,
}
use accord_rfc.Store.{InboxEntry, PrivateMessage, Device, Db}
use accord_rfc.Store.Groups.{is_member}
use accord_rfc.Store.Mailbox.{drain_inbox}
use accord_rfc.Store.Private.{is_copy, store_private_message, device_ids_for_group}
use accord_rfc.Hub.{is_connected, publish, private_event}
use accord_rfc.Api.Error.{Result, ok, err, Status, bad_argument, permit}
use accord_rfc.Api.Request.{Env, require_id}
use accord_rfc.Api.Server.{Server}
use accord_rfc.Api.Action.{after, ◌>>=◌, ◌>>◌}
use accord_rfc.Messaging.{message_id, chosen_id, on_hub}
use accord_rfc.Messaging.Private.{
  Codec, inbox_payload, live_message, no_bytes, store_message, queue_offline, queue_each,
  handle_private_message,
}
use accord_rfc.Messaging.Mailbox.{waits, Swept, queue_each-Swept}

-- A device of a group has a row.
listed-has_row :
    (keep : Device → Bool) (d : Uuid) (rows : List Device)
    → member d (map (λ (x : Device). x.id) (filter keep rows)) ≡ true
    → any (λ (x : Device). x.id == d) rows ≡ true
listed-has_row keep d [] h = cc
listed-has_row keep d (x ∷ rows) h = elim (Bool-cases (keep x)) [
  | inl e ↦ ground (arith, rw e at h, listed-has_row keep d rows)
  | inr e ↦ ground (arith, listed-has_row keep d rows (rw e at h))
]

-- What is stored of a message, and what waits for whom: every device of a member of the group that
-- is not revoked, but for that of the sender.
pub record Mailed (codec : Codec) (user device group : Uuid) (ciphertext : Bytes) (s s' : Server)
    : Type 0 where
  pub member_of : is_member s.db group user ≡ true
  pub row : PrivateMessage
  pub of_request : (row.group_id ≡ group) × (row.sender_id ≡ user) × (row.ciphertext ≡ ciphertext)
  pub stored :
      (m : PrivateMessage) × (find (is_copy group row.client_message_id) s'.db.private_messages
        ≡ some m)
      × (m.seq ≡ row.seq)
  pub served :
      (d : Uuid)
      → member d (device_ids_for_group s.db group) ≡ true
      → d ≢ device
      → (is_connected d s'.hub ≡ true)
        ⊎ (waits d group (codec.to_vec (inbox_payload row)) s'.db ≡ true)
  pub spared :
      (d : Uuid)
      → (d ≡ device) ⊎ (is_connected d s'.hub ≡ true)
      → (drain_inbox d s'.db).0 ≡ (drain_inbox d s.db).0

pub record MailOutcome (codec : Codec) (user device group : Uuid) (ciphertext : Bytes) (s : Server)
    (p : Result (Unit {0}) × Server) : Type 0 where
  pub mailed : p.0 ≡ ok tt → Mailed codec user device group ciphertext s p.1
  pub refused : (e : Status) → p.0 ≡ err e → p.1.db ≡ s.db

-- `store_private_message`: the row keeps what was sent, and its number is that of the stored row of
-- its key.
record Kept (new : PrivateMessage) (db : Db) (p : PrivateMessage × Db) : Type 0 where
  group : p.0.group_id ≡ new.group_id
  sender : p.0.sender_id ≡ new.sender_id
  content : p.0.ciphertext ≡ new.ciphertext
  key : p.0.client_message_id ≡ new.client_message_id
  found :
      (m : PrivateMessage) × (find (is_copy new.group_id new.client_message_id) p.1.private_messages
        ≡ some m)
      × (m.seq ≡ p.0.seq)
  inbox : p.1.mls_inbox ≡ db.mls_inbox
  devices : device_ids_for_group p.1 new.group_id ≡ device_ids_for_group db new.group_id
  rows : p.1.devices ≡ db.devices

store_private_message-Kept :
    (new : PrivateMessage) (db : Db) → Kept new db (store_private_message new db)
unfolding store_private_message device_ids_for_group
store_private_message-Kept new db =
    elim (Option-cases (find (is_copy new.group_id new.client_message_id) db.private_messages)) [
      | inl e ↦
          rw (store_private_message, e)
            (record {
              group = refl;
              sender = refl;
              content = refl;
              key = refl;
              found = (
                record new { seq = suc db.private_seq },
                find-append_none (is_copy new.group_id new.client_message_id) db.private_messages _
                    e (ground arith),
                refl,
              );
              inbox = refl;
              devices = refl;
              rows = refl;
            })
      | inr (m, e) ↦
          rw (store_private_message, e)
            (record {
              group = refl;
              sender = refl;
              content = refl;
              key = refl;
              found = (m, e, refl);
              inbox = refl;
              devices = refl;
              rows = refl;
            })
    ]

refused_at :
    (codec : Codec) (user device group : Uuid) (ciphertext : Bytes) (e : Status) (s : Server)
    → MailOutcome codec user device group ciphertext s (err e, s)
refused_at codec user device group ciphertext e s = record {
  mailed = λ h. ground arith;
  refused = λ e' h. refl;
}

-- The queueing of a row that is stored.
queued-Mailed :
    (codec : Codec) (user device group : Uuid) (ciphertext : Bytes) (s s2 : Server)
    (new : PrivateMessage) {row : PrivateMessage}
    → (new.group_id ≡ group) × (new.sender_id ≡ user) × (new.ciphertext ≡ ciphertext)
    → is_member s.db group user ≡ true
    → Kept new s.db (row, s2.db)
    → Mailed codec user device group ciphertext s (queue_offline codec device row s2).1
unfolding device_ids_for_group drain_inbox queue_each
queued-Mailed codec user device group ciphertext s s2 new {row} (g, u, c) m k = record {
  member_of = m;
  row = row;
  of_request = (in_group, k.sender ∙ u, k.content ∙ c);
  stored = (
    k.found.0,
    ap (find (is_copy group row.client_message_id)) w.same_messages
        ∙ ap (λ i. find (is_copy i row.client_message_id) s2.db.private_messages) (sym g)
        ∙ ap (λ i. find (is_copy new.group_id i) s2.db.private_messages) k.key
        ∙ k.found.1,
    k.found.2,
  );
  served = λ d listed n.
      subst (λ i. Got d i) in_group
        (subst (λ h. (is_connected d h ≡ true) ⊎ (waits d row.group_id payload swept.db ≡ true))
          (sym w.same_hub)
          (w.served d
            (ap (λ i. member d (device_ids_for_group s2.db i)) k.group
              ∙ ap (member d) k.devices
              ∙ ap (λ i. member d (device_ids_for_group s.db i)) g
              ∙ listed)
            n
            (ap (any (λ (x : Device). x.id == d)) k.rows
              ∙ listed-has_row _ d s.db.devices listed)));
  spared = λ d h.
      w.spared d (subst (λ hub. (d ≡ device) ⊎ (is_connected d hub ≡ true)) w.same_hub h)
      ∙ ap (filter (λ (e : InboxEntry). e.device_id == d)) k.inbox;
}
  where
    payload : Bytes
    payload = codec.to_vec (inbox_payload row)

    swept : Server
    swept = (queue_offline codec device row s2).1

    w : Swept row.group_id payload device (device_ids_for_group s2.db row.group_id) s2 swept
    w = queue_each-Swept row.group_id payload device (device_ids_for_group s2.db row.group_id) s2

    in_group : row.group_id ≡ group
    in_group = k.group ∙ g

    Got : Uuid → Uuid → Type 0
    Got d i = (is_connected d swept.hub ≡ true) ⊎ (waits d i payload swept.db ≡ true)

-- The handler from the check of the membership on.
module _ (env : Env) (codec : Codec) (user device group : Uuid) (ciphertext : Bytes) (epoch : ℕ)
    (sent_id : Option Text) (s : Server) where
  delivered :
      is_member s.db group user ≡ true
      → MailOutcome codec user device group ciphertext s (
          (message_id env sent_id >>= λ client.
          store_message group user device ciphertext epoch client >>= λ row.
          on_hub (publish (private_event row.group_id (live_message row) device))
          >> queue_offline codec device row)
            s)
  unfolding queue_each
  delivered m = record {
    mailed = λ h.
        queued-Mailed codec user device group ciphertext s _ new (refl, refl, refl) m
          (store_private_message-Kept new s.db);
    refused = λ e h. ground arith;
  }
    where
      new : PrivateMessage
      new = record {
        seq = 0;
        id = s.ids (suc s.ticks);
        group_id = group;
        sender_id = user;
        sender_device_id = device;
        ciphertext = ciphertext;
        epoch = epoch;
        client_message_id = chosen_id env sent_id (s.ids s.ticks);
        created_at = s.times (suc s.ticks);
      }

-- A private message to the group that the request names either ends in an error, and the database
-- is as before; or the sender is a member of the group, a message under the client id of the row
-- that is sent is stored for the group, with the number of that row, and of the devices of the
-- group that are not revoked, other than the sending one, each has an open stream or the payload
-- of the row in its inbox; the inboxes of the sending device and of those with an open stream are
-- as before.
pub handle_private_message-MailOutcome :
    (env : Env) (codec : Codec) (user device : Uuid) (group_id : Option Text) (ciphertext : Bytes)
    (epoch : ℕ) (sent_id : Option Text) (s : Server) (group : Uuid)
    → require_id env group_id "group_id is required" "group_id is not a valid UUID" ≡ ok group
    → MailOutcome codec user device group ciphertext s
        (handle_private_message env codec user device group_id ciphertext epoch sent_id s)
unfolding handle_private_message
handle_private_message-MailOutcome env codec user device group_id ciphertext epoch sent_id s group
      named =
    rw named (
      after P (if no_bytes ciphertext then bad_argument "empty ciphertext" else ok tt) _ s
        (λ e h. refused_at codec user device group ciphertext e s)
        λ _ filled.
          after P (permit (is_member s.db group user)) _ s
            (λ e h. refused_at codec user device group ciphertext e s)
            λ _ allowed.
              delivered env codec user device group ciphertext epoch sent_id s (ground arith))
  where
    P : Result (Unit {0}) × Server → Type 0
    P = MailOutcome codec user device group ciphertext s
