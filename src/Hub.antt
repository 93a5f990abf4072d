-- ===== src/Hub.antt =====
-- crates/accord-server/src/messaging/hub.rs: the live streams of the devices, who is subscribed to
-- which group, and who is in which voice channel. The transport is `Local`.
pub mod Subscriptions
pub mod Registry
pub mod History
pub mod Delivery
mod Tests
use accord_rfc.Base.{
  ℕ, Bool, false, List, [], ◌∷◌, ◌++◌, Option, none, some, Text, Uuid, Bytes, length, is_some,
  member, ltb, ◌==◌, if◌then◌else◌,
}
use accord_rfc.Base.Maps.{Map, get, remove, insert, inner}

-- `VoiceState`
pub record VoiceState : Type 0 where
  pub user_id : Uuid
  pub username : Text
  pub display_name : Text
  pub muted : Bool
  pub camera_on : Bool
  pub screen_on : Bool

-- `Severity`
pub data Severity : Type 0 where
  info warn hostile : Severity

-- `ServerMessage`, by its payload. Ids stand as such, not as texts.
pub data ServerMessage : Type 0 where
  public_message :
      (message_id group_id sender_id : Uuid) (sender_display_name content : Text)
      (timestamp sequence_number : ℕ)
      → ServerMessage
  private_message :
      (group_id sender_id : Uuid) (ciphertext : Bytes) (epoch timestamp sequence_number : ℕ)
      → ServerMessage
  welcome_notification : (group_id : Uuid) (welcome : Bytes) → ServerMessage
  commit_notification : (group_id : Uuid) (commit : Bytes) (epoch : ℕ) → ServerMessage
  voice_participant : (group device : Uuid) (state : VoiceState) (joined : Bool) → ServerMessage
  voice_signal :
      (group_id : Option Text) (from_device target_device : Uuid) (signal_kind : ℕ)
      (payload : Bytes)
      → ServerMessage
  mod_alert :
      (actor_id : Uuid) (action target reason : Text) (severity : Severity) (timestamp : ℕ)
      → ServerMessage

-- `ClientSender`, by the number of its channel.
abbrev pub Sender : Type 0
Sender = ℕ

-- `CLIENT_BUFFER`
abbrev pub client_buffer : ℕ
client_buffer = 128

-- `Registry`, the voice registry of `Hub`, and what waits in each channel.
pub record Hub : Type 0 where
  pub group_subs : Map (Map Sender)
  pub device_subs : Map Sender
  pub device_groups : Map (List Uuid)
  pub voice : Map (Map VoiceState)
  pub queues : Sender → List ServerMessage

abbrev pub empty_hub : Hub
empty_hub = record {
  group_subs = [];
  device_subs = [];
  device_groups = [];
  voice = [];
  queues = λ s. [];
}

-- `try_send`: a message for a full channel is lost.
unfoldable pub try_send : Sender → ServerMessage → Hub → Hub
try_send sender message hub =
    if ltb (length (hub.queues sender)) client_buffer
    then record hub {
      queues = λ s. if s == sender then hub.queues s ++ message ∷ [] else hub.queues s;
    }
    else hub

-- `group_subs.entry(group).or_default().insert(device, sender)`
abbrev pub add_sub : Uuid → Uuid → Sender → Map (Map Sender) → Map (Map Sender)
add_sub group device sender subs = insert group (insert device sender (inner group subs)) subs

unfoldable pub add_subs : List Uuid → Uuid → Sender → Map (Map Sender) → Map (Map Sender)
add_subs [] device sender subs = subs
add_subs (group ∷ groups) device sender subs =
    add_subs groups device sender (add_sub group device sender subs)

-- `register`, given the new channel.
unfoldable pub register : Uuid → List Uuid → Sender → Hub → Hub
unfolding add_subs
register device groups sender hub = record hub {
  group_subs = add_subs groups device sender hub.group_subs;
  device_subs = insert device sender hub.device_subs;
  device_groups = insert device groups hub.device_groups;
}

-- A group that is left without subscribers is dropped.
abbrev pub put_or_drop {ℓ} : {V : Type ℓ} → Uuid → Map V → Map (Map V) → Map (Map V)
put_or_drop group [] m = remove group m
put_or_drop group (e ∷ entries) m = insert group (e ∷ entries) m

abbrev pub drop_sub : Uuid → Uuid → Map (Map Sender) → Map (Map Sender)
drop_sub device group subs = elim (get group subs) [
  | none ↦ subs
  | some members ↦ put_or_drop group (remove device members) subs
]

unfoldable pub drop_subs : Uuid → List Uuid → Map (Map Sender) → Map (Map Sender)
drop_subs device [] subs = subs
drop_subs device (group ∷ groups) subs = drop_subs device groups (drop_sub device group subs)

abbrev pub is_excluded : Option Uuid → Uuid → Bool
is_excluded (some e) device = device == e
is_excluded none device = false

unfoldable pub deliver : List (Uuid × Sender) → Option Uuid → ServerMessage → Hub → Hub
unfolding try_send
deliver [] exclude message hub = hub
deliver ((device, sender) ∷ members) exclude message hub =
    deliver members exclude message
      (if is_excluded exclude device then hub else try_send sender message hub)

-- `deliver_to_group`
unfoldable pub deliver_to_group : Uuid → ServerMessage → Option Uuid → Hub → Hub
unfolding deliver
deliver_to_group group message exclude hub =
    deliver (inner group hub.group_subs) exclude message hub

-- `deliver_to_device` and `send_to_device`
unfoldable pub deliver_to_device : Uuid → ServerMessage → Hub → Hub
unfolding try_send
deliver_to_device device message hub = elim (get device hub.device_subs) [
  | some sender ↦ try_send sender message hub
  | none ↦ hub
]

-- `BusEvent`, with ids as such.
pub data BusEvent : Type 0 where
  public_event : (group_id : Uuid) (message : ServerMessage) → BusEvent
  private_event : (group_id : Uuid) (message : ServerMessage) (exclude_device : Uuid) → BusEvent
  welcome_event : (device_id group_id : Uuid) (welcome : Bytes) → BusEvent
  commit_event : (group_id : Uuid) (commit : Bytes) (epoch : ℕ) (exclude_device : Uuid) → BusEvent

-- `route`, and `publish` over the local transport. The texts of ids are read back as they were.
unfoldable pub publish : BusEvent → Hub → Hub
unfolding deliver_to_group deliver_to_device
publish (public_event group_id message) hub = deliver_to_group group_id message none hub
publish (private_event group_id message exclude_device) hub =
    deliver_to_group group_id message (some exclude_device) hub
publish (welcome_event device_id group_id welcome) hub =
    deliver_to_device device_id (welcome_notification group_id welcome) hub
publish (commit_event group_id commit epoch exclude_device) hub =
    deliver_to_group group_id (commit_notification group_id commit epoch) (some exclude_device) hub

-- `send_mod_alert`
unfoldable pub send_mod_alert : List Uuid → ServerMessage → Hub → Hub
unfolding deliver_to_device
send_mod_alert [] alert hub = hub
send_mod_alert (device ∷ devices) alert hub =
    send_mod_alert devices alert (deliver_to_device device alert hub)

-- `retain` of `voice_drop_device`: what stays, and what the device leaves.
unfoldable pub drop_voice :
    Uuid → Map (Map VoiceState) → Map (Map VoiceState) × List (Uuid × VoiceState)
drop_voice device [] = ([], [])
drop_voice device ((group, members) ∷ voice) =
    let (rest, left) = drop_voice device voice in
    (
      elim (remove device members) [ [] ↦ rest | e ∷ es ↦ (group, e ∷ es) ∷ rest ],
      elim (get device members) [ some state ↦ (group, state) ∷ left | none ↦ left ],
    )

unfoldable pub announce_left : Uuid → List (Uuid × VoiceState) → Hub → Hub
unfolding deliver_to_group
announce_left device [] hub = hub
announce_left device ((group, state) ∷ left) hub =
    announce_left device left
      (deliver_to_group group (voice_participant group device state false) none hub)

-- The first half of `unregister`: the device is out of the registry and of the voice channels.
unfoldable pub forget : Uuid → Hub → Hub
unfolding drop_subs drop_voice
forget device hub = record hub {
  device_subs = remove device hub.device_subs;
  group_subs = elim (get device hub.device_groups) [
    | some groups ↦ drop_subs device groups hub.group_subs
    | none ↦ hub.group_subs
  ];
  device_groups = remove device hub.device_groups;
  voice = (drop_voice device hub.voice).0;
}

-- `unregister`
unfoldable pub unregister : Uuid → Hub → Hub
unfolding forget drop_voice announce_left
unregister device hub = announce_left device (drop_voice device hub.voice).1 (forget device hub)

abbrev pub add_group : Uuid → List Uuid → List Uuid
add_group group groups = if member group groups then groups else groups ++ group ∷ []

-- `subscribe`
unfoldable pub subscribe : Uuid → Uuid → Hub → Hub
subscribe device group hub = elim (get device hub.device_subs) [
  | none ↦ hub
  | some sender ↦ record hub {
    group_subs = add_sub group device sender hub.group_subs;
    device_groups =
        insert device
          (add_group group (elim (get device hub.device_groups) [ some gs ↦ gs | none ↦ [] ]))
          hub.device_groups;
  }
]

-- `is_connected`
unfoldable pub is_connected : Uuid → Hub → Bool
is_connected device hub = is_some (get device hub.device_subs)

-- `voice_join`, with the roster that it returns.
unfoldable pub voice_join : Uuid → Uuid → VoiceState → Hub → List (Uuid × VoiceState) × Hub
voice_join group device state hub =
    let members = insert device state (inner group hub.voice) in
    (members, record hub { voice = insert group members hub.voice })

-- `voice_set_state`
unfoldable pub voice_set_state : Uuid → Uuid → VoiceState → Hub → Hub
voice_set_state group device state hub =
    if is_some (get device (inner group hub.voice))
    then record hub { voice = insert group (insert device state (inner group hub.voice)) hub.voice }
    else hub

-- `voice_leave`, with the state that is left.
unfoldable pub voice_leave : Uuid → Uuid → Hub → Option VoiceState × Hub
voice_leave group device hub = elim (get group hub.voice) [
  | none ↦ (none, hub)
  | some members ↦ (
    get device members,
    record hub { voice = put_or_drop group (remove device members) hub.voice },
  )
]
