-- ===== src/Messaging/Backlog.antt =====
-- `message_stream`: what of the inbox of a device reaches its new stream.
use mathlib.Core.List.{append_assoc, append-nil}
use accord_rfc.Base.{
  ℕ, zero, suc, ◌-◌, ◌≡◌, ◌≢◌, refl, ap, sym, ◌∙◌, inl, inr, true, false, List, [], ◌∷◌, ◌++◌,
  length, take, filter_none, filter_twice, length-append, Option, none, some, Uuid, ltb, ◌==◌,
  ==_refl, if◌then◌else◌, Bool-cases, arith,
}
use accord_rfc.Base.Maps.{get, get-insert}
use accord_rfc.Store.{InboxEntry}
use accord_rfc.Store.Groups.{group_ids_for_user}
use accord_rfc.Store.Mailbox.{drain_inbox}
use accord_rfc.Hub.{
  Hub, Sender, ServerMessage, client_buffer, try_send, register, deliver_to_device,
}
use accord_rfc.Api.Server.{Server}
use accord_rfc.Messaging.Private.{Codec}
use accord_rfc.Messaging.Stream.{notification, or_deliver, send_backlog, open_stream}

-- What is sent of an inbox.
abbrev pub or_skip : Option ServerMessage → List ServerMessage → List ServerMessage
or_skip none messages = messages
or_skip (some m) messages = m ∷ messages

pub notifications : Codec → List InboxEntry → List ServerMessage
notifications codec [] = []
notifications codec (item ∷ items) = or_skip (notification codec item) (notifications codec items)

-- A queue that is offered messages takes what it has room for.
offered : List ServerMessage → List ServerMessage → List ServerMessage
offered queue messages = queue ++ take (client_buffer - length queue) messages

append-nil-take : (queue : List ServerMessage) (n : ℕ) → queue ++ take n [] ≡ queue
append-nil-take queue zero = append-nil queue
append-nil-take queue (suc n) = append-nil queue

offered-full :
    (queue : List ServerMessage) (m : ServerMessage) (messages : List ServerMessage)
    → ltb (length queue) client_buffer ≡ false
    → offered queue (m ∷ messages) ≡ offered queue messages
unfolding offered
offered-full queue m messages h =
    let e : client_buffer - length queue ≡ 0 = ground arith in rw e refl

offered-room :
    (queue : List ServerMessage) (m : ServerMessage) (messages : List ServerMessage)
    → ltb (length queue) client_buffer ≡ true
    → offered queue (m ∷ messages) ≡ offered (queue ++ m ∷ []) messages
unfolding offered
offered-room queue m messages h =
    let e : client_buffer - length queue ≡ suc (client_buffer - suc (length queue)) =
      ground arith in
    let f : length (queue ++ m ∷ []) ≡ suc (length queue) =
      omega (arith, length-append queue (m ∷ [])) in
    rw (e, f) (sym (append_assoc queue (m ∷ []) _))

-- A message for a device with an open stream.
module _ (device : Uuid) (sender : Sender) (m : ServerMessage) (hub : Hub)
    (connected : get device hub.device_subs ≡ some sender) where
  full_lem :
      ltb (length (hub.queues sender)) client_buffer ≡ false → deliver_to_device device m hub ≡ hub
  unfolding deliver_to_device try_send
  full_lem e = rw (deliver_to_device, connected) (rw e refl)

  room_lem :
      ltb (length (hub.queues sender)) client_buffer ≡ true
      → deliver_to_device device m hub
        ≡ record hub { queues = λ s. if s == sender then hub.queues s ++ m ∷ [] else hub.queues s }
  unfolding deliver_to_device try_send
  room_lem e = rw (deliver_to_device, connected) (rw e refl)

queue-send_backlog :
    (codec : Codec) (device : Uuid) (sender : Sender) (items : List InboxEntry) (hub : Hub)
    → get device hub.device_subs ≡ some sender
    → (send_backlog codec device items hub).queues sender
      ≡ offered (hub.queues sender) (notifications codec items)
unfolding send_backlog notifications offered
queue-send_backlog codec device sender [] hub connected =
    sym (append-nil-take (hub.queues sender) (client_buffer - length (hub.queues sender)))
queue-send_backlog codec device sender (item ∷ items) hub connected =
    step (notification codec item) (queue-send_backlog codec device sender items)
  where
    step :
        (o : Option ServerMessage)
        → ((h : Hub)
            → get device h.device_subs ≡ some sender
            → (send_backlog codec device items h).queues sender
              ≡ offered (h.queues sender) (notifications codec items))
        → (send_backlog codec device items (or_deliver o device hub)).queues sender
          ≡ offered (hub.queues sender) (or_skip o (notifications codec items))
    step none rest = rest hub connected
    step (some m) rest = elim (Bool-cases (ltb (length (hub.queues sender)) client_buffer)) [
      | inl room ↦ rw (room_lem device sender m hub connected room) (
          rest _ connected
          ∙ ap
              (λ b.
                offered (if b then hub.queues sender ++ m ∷ [] else hub.queues sender)
                  (notifications codec items))
              (==_refl sender)
          ∙ sym (offered-room (hub.queues sender) m (notifications codec items) room))
      | inr full ↦ rw (full_lem device sender m hub connected full) (
          rest hub connected
          ∙ sym (offered-full (hub.queues sender) m (notifications codec items) full))
    ]

-- The new stream gets what is sent of the inbox, up to the room in its queue; the inbox of the
-- device is empty then, and those of the others are as before.
pub record Opened (codec : Codec) (device : Uuid) (sender : Sender) (s s' : Server) : Type 0 where
  pub queue : s'.hub.queues sender ≡ take 128 (notifications codec (drain_inbox device s.db).0)
  pub drained : (drain_inbox device s'.db).0 ≡ []
  pub others : (d : Uuid) → d ≢ device → (drain_inbox d s'.db).0 ≡ (drain_inbox d s.db).0

-- The stream that a device opens, on a channel that is empty, holds the first 128 of the
-- notifications of its inbox, in order, and no more; its inbox is empty then, and the inboxes of
-- the others are as before.
pub open_stream-Opened :
    (codec : Codec) (user device : Uuid) (s : Server)
    → s.hub.queues s.ticks ≡ []
    → Opened codec device s.ticks s (open_stream codec user device s)
unfolding open_stream drain_inbox register offered
open_stream-Opened codec user device s fresh = record {
  queue =
      queue-send_backlog codec device s.ticks (drain_inbox device s.db).0
        (register device (group_ids_for_user s.db user) s.ticks s.hub)
        (get-insert device device s.ticks s.hub.device_subs ∙ rw (==_refl device) refl)
      ∙ rw fresh refl;
  drained = filter_none _ _ s.db.mls_inbox (λ e h. ground arith);
  others = λ d n. filter_twice _ _ s.db.mls_inbox (λ e h. ground (arith, n));
}
