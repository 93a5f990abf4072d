-- ===== src/Messaging/Private.antt =====
-- Private messages and voice signals of crates/accord-server/src/messaging/service.rs, and the
-- payloads of the offline inbox of messaging/hub.rs. JSON is a parameter.
use accord_rfc.Base.{
  ℕ, suc, Bool, true, false, ◌||◌, List, [], ◌∷◌, Option, none, some, Text, Uuid, Bytes, ◌==◌,
  if◌then◌else◌,
}
use accord_rfc.Store.{PrivateMessage}
use accord_rfc.Store.Groups.{is_member}
use accord_rfc.Store.Mailbox.{enqueue_inbox}
use accord_rfc.Store.Private
use accord_rfc.Store.Private.{store_private_message, device_ids_for_group}
use accord_rfc.Hub.{
  ServerMessage, private_message, voice_signal, private_event, publish, is_connected,
  deliver_to_device,
}
use accord_rfc.Api.Error.{ok, bad_argument, permit, ok_or}
use accord_rfc.Api.Request.{Env, caller}
use accord_rfc.Api.Server.{Server, reads_db}
use accord_rfc.Api.Action.{Action, lift, gets, ◌>>=◌, ◌>>◌}
use accord_rfc.Messaging.{
  on_hub, permit_participant, clamp_limit, message_group, message_id, ensure_participant,
}

-- `PrivateInboxPayload`, with the time as one number.
pub record PrivateInboxPayload : Type 0 where
  pub ciphertext : Bytes
  pub sender_id : Uuid
  pub epoch : ℕ
  pub timestamp : ℕ
  pub sequence_number : ℕ

-- `serde_json` on that type.
pub record Codec : Type 0 where
  pub to_vec : PrivateInboxPayload → Bytes
  pub from_slice : Bytes → Option PrivateInboxPayload

-- The payload of a row, and its live message.
abbrev pub inbox_payload : PrivateMessage → PrivateInboxPayload
inbox_payload row = record {
  ciphertext = row.ciphertext;
  sender_id = row.sender_id;
  epoch = row.epoch;
  timestamp = row.created_at;
  sequence_number = row.seq;
}

abbrev pub live_message : PrivateMessage → ServerMessage
live_message row =
    private_message row.group_id row.sender_id row.ciphertext row.epoch row.created_at row.seq

abbrev pub no_bytes : Bytes → Bool
no_bytes [] = true
no_bytes (b ∷ bytes) = false

-- `store_private_message`, with an id and a time that are drawn.
abbrev pub store_message : Uuid → Uuid → Uuid → Bytes → ℕ → Uuid → Action Server PrivateMessage
store_message group_id sender_id device_id ciphertext epoch client_message_id s =
    let (row, db) =
      store_private_message
        (record {
          seq = 0;
          id = s.ids s.ticks;
          group_id = group_id;
          sender_id = sender_id;
          sender_device_id = device_id;
          ciphertext = ciphertext;
          epoch = epoch;
          client_message_id = client_message_id;
          created_at = s.times s.ticks;
        })
        s.db in
    (ok row, record s { db = db; ticks = suc s.ticks })

-- `enqueue_inbox` of a message for a device that is offline; an error is only logged.
abbrev pub queue_one : Uuid → Bytes → Uuid → Server → Server
queue_one group_id payload dev s =
    elim (enqueue_inbox (s.ids s.ticks) dev "private" group_id payload s.db) [
      | none ↦ record s { ticks = suc s.ticks }
      | some db ↦ record s { db = db; ticks = suc s.ticks }
    ]

-- The loop over the devices of the group.
unfoldable pub queue_each : Uuid → Uuid → Bytes → List Uuid → Server → Server
queue_each device_id group_id payload [] s = s
queue_each device_id group_id payload (dev ∷ devices) s =
    queue_each device_id group_id payload devices
      (if dev == device_id || is_connected dev s.hub then s else queue_one group_id payload dev s)

abbrev pub queue_offline : Codec → Uuid → PrivateMessage → Action Server Unit
unfolding queue_each
queue_offline codec device_id row s = (
  ok tt,
  queue_each device_id row.group_id (codec.to_vec (inbox_payload row))
      (device_ids_for_group s.db row.group_id) s,
)

module _ (env : Env) (codec : Codec) where
  -- `handle_private_message`
  unfoldable pub handle_private_message :
      Uuid → Uuid → Option Text → Bytes → ℕ → Option Text → Action Server Unit
  handle_private_message user_id device_id group_id ciphertext epoch client_message_id = do
    group ← message_group env group_id
    lift (if no_bytes ciphertext then bad_argument "empty ciphertext" else ok tt)
    reads_db λ db. permit (is_member db group user_id)
    client ← message_id env client_message_id
    row ← store_message group user_id device_id ciphertext epoch client
    on_hub (publish (private_event row.group_id (live_message row) device_id))
    queue_offline codec device_id row

module _ (env : Env) where
  -- `and_then(|d| Uuid::parse_str(&d.value).ok())`
  abbrev parsed : Option Text → Option Uuid
  parsed none = none
  parsed (some value) = env.parse_str value

  -- `handle_voice_signal`
  unfoldable pub handle_voice_signal :
      Uuid → Uuid → Option Text → Option Text → ℕ → Bytes → Action Server Unit
  handle_voice_signal user_id device_id group_id target_device signal_kind payload = do
    group ← message_group env group_id
    participant ← ensure_participant env group user_id
    lift (permit_participant participant)
    target ← lift (ok_or (parsed target_device) (bad_argument "voice signal needs a target_device"))
    on_hub (deliver_to_device target (voice_signal group_id device_id target signal_kind payload))

  -- `fetch_private_history`
  unfoldable pub fetch_private_history :
      Option Text → Option Text → ℕ → ℕ → Action Server (List PrivateMessage)
  fetch_private_history header group_id before_sequence limit = do
    user_id ← lift (caller env header "invalid user id in token")
    group ← message_group env group_id
    reads_db λ db. permit (is_member db group user_id)
    gets (λ (s : Server).
        Private.fetch_private_history s.db group before_sequence (clamp_limit limit))
