-- ===== src/Hub/Delivery.antt =====
-- Which streams a message to a group reaches.
use accord_rfc.Base.{
  ℕ, zero, suc, ◌≡◌, refl, ap, ◌∙◌, Bool, true, false, not, ◌&&◌, List, [], ◌∷◌, ◌++◌, Option, Uuid,
  length, ltb, ◌==◌, ==_iff, Bool-cases, inl, inr, if◌then◌else◌,
}
use accord_rfc.Base.Maps.{inner}
use accord_rfc.Hub.{
  Hub, Sender, ServerMessage, client_buffer, is_excluded, try_send, deliver, deliver_to_group,
}

-- How many of the subscriptions are of the stream, but for those of the excluded device.
abbrev pub hits : Option Uuid → Sender → List (Uuid × Sender) → ℕ
hits exclude s [] = 0
hits exclude s ((device, sender) ∷ members) =
    let rest = hits exclude s members in
    if not (is_excluded exclude device) && s == sender then suc rest else rest

abbrev offer : ServerMessage → List ServerMessage → List ServerMessage
offer message queue = if ltb (length queue) client_buffer then queue ++ message ∷ [] else queue

-- The queue after the message was offered a number of times; a full queue takes nothing.
abbrev pub fill : ℕ → ServerMessage → List ServerMessage → List ServerMessage
fill zero message queue = queue
fill (suc n) message queue = fill n message (offer message queue)

queues-try_send :
    (sender : Sender) (message : ServerMessage) (hub : Hub) (s : Sender)
    → (try_send sender message hub).queues s
      ≡ (if s == sender then offer message (hub.queues s) else hub.queues s)
unfolding try_send
queues-try_send sender message hub s =
    elim (Bool-cases (ltb (length (hub.queues sender)) client_buffer)) [
      | inl room ↦
          rw (try_send, room)
            (elim (Bool-cases (s == sender)) [
              | inl h ↦ rw (h, there room h) refl
              | inr h ↦ rw h refl
            ])
      | inr full ↦
          rw (try_send, full)
            (elim (Bool-cases (s == sender)) [
              | inl h ↦ rw (h, there full h) refl
              | inr h ↦ rw h refl
            ])
    ]
  where
    there :
        {b : Bool}
        → ltb (length (hub.queues sender)) client_buffer ≡ b
        → (s == sender) ≡ true
        → ltb (length (hub.queues s)) client_buffer ≡ b
    there e h = ap (λ t. ltb (length (hub.queues t)) client_buffer) ((==_iff s sender).0 h) ∙ e

queues-deliver :
    (members : List (Uuid × Sender)) (exclude : Option Uuid) (message : ServerMessage) (hub : Hub)
    (s : Sender)
    → (deliver members exclude message hub).queues s
      ≡ fill (hits exclude s members) message (hub.queues s)
unfolding deliver
queues-deliver [] exclude message hub s = refl
queues-deliver ((device, sender) ∷ members) exclude message hub s =
    elim (Bool-cases (is_excluded exclude device)) [
      | inl e ↦ rw (deliver, e) (queues-deliver members exclude message hub s)
      | inr e ↦
          rw (deliver, e)
            (queues-deliver members exclude message (try_send sender message hub) s
              ∙ ap (fill (hits exclude s members) message) (queues-try_send sender message hub s)
              ∙ count (s == sender))
    ]
  where
    count :
        (hit : Bool)
        → fill
            (hits exclude s members)
            message
            (if hit then offer message (hub.queues s) else hub.queues s)
          ≡ fill
              (if hit then suc (hits exclude s members) else hits exclude s members)
              message
              (hub.queues s)
    count true = refl
    count false = refl

-- `deliver_to_group` offers the message to each stream as often as the stream is subscribed to
-- the group by a device that is not excluded, and to no other stream; a stream with a full queue
-- loses it.
pub queues-deliver_to_group :
    (group : Uuid) (message : ServerMessage) (exclude : Option Uuid) (hub : Hub) (s : Sender)
    → (deliver_to_group group message exclude hub).queues s
      ≡ fill (hits exclude s (inner group hub.group_subs)) message (hub.queues s)
unfolding deliver_to_group
queues-deliver_to_group group message exclude hub s =
    queues-deliver (inner group hub.group_subs) exclude message hub s
