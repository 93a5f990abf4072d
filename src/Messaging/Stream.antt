-- ===== src/Messaging/Stream.antt =====
-- `message_stream` of crates/accord-server/src/messaging/service.rs: a stream is opened, the inbox
-- of its device is drained into it, and what comes in is handled until it closes.
use accord_rfc.Base.{
  ℕ, suc, Bool, List, [], ◌∷◌, Option, none, some, Text, text_eq, Uuid, Bytes, if◌then◌else◌,
}
use accord_rfc.Store.{InboxEntry}
use accord_rfc.Store.Groups.{group_ids_for_user}
use accord_rfc.Store.Mailbox.{drain_inbox}
use accord_rfc.Hub.{
  Hub, Sender, ServerMessage, welcome_notification, commit_notification, register, unregister,
  deliver_to_device,
}
use accord_rfc.Api.Error.{ok}
use accord_rfc.Api.Request.{Env, authenticate, parse_uuid}
use accord_rfc.Api.Server.{Server}
use accord_rfc.Api.Action.{Action, pure, lift, ◌>>=◌}
use accord_rfc.Messaging.{handle_public_message, handle_voice_state}
use accord_rfc.Messaging.Private.{Codec, handle_private_message, handle_voice_signal}

-- `ClientMessage`, by its payload.
pub data ClientMessage : Type 0 where
  public_message :
      (group_id : Option Text) (content : Text) (client_message_id : Option Text) → ClientMessage
  private_message :
      (group_id : Option Text) (ciphertext : Bytes) (epoch : ℕ) (client_message_id : Option Text)
      → ClientMessage
  typing : ClientMessage
  voice_signal :
      (group_id target_device : Option Text) (signal_kind : ℕ) (payload : Bytes) → ClientMessage
  voice_state : (group_id : Option Text) (joined muted camera_on screen_on : Bool) → ClientMessage
  ack : ClientMessage
  absent : ClientMessage

-- `private_notification`
abbrev pub private_notification : Codec → Uuid → Bytes → Option ServerMessage
private_notification codec group payload = elim (codec.from_slice payload) [
  | none ↦ none
  | some p ↦ some (
      ServerMessage.private_message group p.sender_id p.ciphertext p.epoch p.timestamp
        p.sequence_number)
]

-- What is sent of an entry of the inbox, if anything.
unfoldable pub notification : Codec → InboxEntry → Option ServerMessage
notification codec item =
    if text_eq item.kind "welcome"
    then some (welcome_notification item.group_id item.payload)
    else if text_eq item.kind "commit"
    then some (commit_notification item.group_id item.payload 0)
    else if text_eq item.kind "private"
    then private_notification codec item.group_id item.payload
    else none

abbrev pub or_deliver : Option ServerMessage → Uuid → Hub → Hub
or_deliver none device hub = hub
or_deliver (some message) device hub = deliver_to_device device message hub

-- The loop over the inbox.
unfoldable pub send_backlog : Codec → Uuid → List InboxEntry → Hub → Hub
send_backlog codec device [] hub = hub
send_backlog codec device (item ∷ items) hub =
    send_backlog codec device items (or_deliver (notification codec item) device hub)

-- The stream of a device, from its account on. The new channel has the number of the tick.
unfoldable pub open_stream : Codec → Uuid → Uuid → Server → Server
unfolding send_backlog
open_stream codec user_id device_id s =
    let hub = register device_id (group_ids_for_user s.db user_id) s.ticks s.hub in
    let (items, db) = drain_inbox device_id s.db in
    record s { db = db; hub = send_backlog codec device_id items hub; ticks = suc s.ticks }

abbrev opened : Codec → Uuid → Uuid → Action Server Sender
unfolding open_stream
opened codec user_id device_id s = (ok s.ticks, open_stream codec user_id device_id s)

module _ (env : Env) (codec : Codec) where
  -- `message_stream` up to its reader task, with the channel of the stream.
  pub message_stream : Option Text → Action Server Sender
  unfolding open_stream
  message_stream header = do
    claims ← lift (authenticate env header)
    user_id ← lift (parse_uuid env claims.sub "invalid user id in token")
    device_id ← lift (parse_uuid env claims.device_id "invalid device id in token")
    opened codec user_id device_id

  -- `handle_client_message`
  unfoldable pub handle_client_message : Uuid → Uuid → ClientMessage → Action Server Unit
  handle_client_message user_id device_id (public_message group_id content client_message_id) =
      handle_public_message env user_id group_id content client_message_id
  handle_client_message user_id device_id (private_message group_id ciphertext epoch client_id) =
      handle_private_message env codec user_id device_id group_id ciphertext epoch client_id
  handle_client_message user_id device_id typing = pure tt
  handle_client_message user_id device_id (voice_signal group_id target signal_kind payload) =
      handle_voice_signal env user_id device_id group_id target signal_kind payload
  handle_client_message user_id device_id (voice_state group_id joined muted camera_on screen_on) =
      handle_voice_state env user_id device_id group_id joined muted camera_on screen_on
  handle_client_message user_id device_id ack = pure tt
  handle_client_message user_id device_id absent = pure tt

  -- The reader task on the messages of a stream that then ends: an error is only logged, and at the
  -- end the device is unregistered.
  unfoldable pub read_all : Uuid → Uuid → List ClientMessage → Server → Server
  unfolding handle_client_message
  read_all user_id device_id [] s = record s { hub = unregister device_id s.hub }
  read_all user_id device_id (m ∷ messages) s =
      read_all user_id device_id messages (handle_client_message user_id device_id m s).1
