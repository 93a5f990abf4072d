-- ===== src/Hub/History.antt =====
-- Sequences of calls of the hub that change its registry.
use accord_rfc.Base.{
  ◌≡◌, ap, ◌∙◌, false, List, [], ◌∷◌, Option, none, some, Uuid, ◌==◌, if◌then◌else◌,
}
use accord_rfc.Hub.{
  Hub, Sender, ServerMessage, register, unregister, subscribe, deliver_to_group, is_connected,
  forget, drop_voice,
}
use accord_rfc.Base.Maps.{inner, get}
use accord_rfc.Hub.Subscriptions.{sub, deliver-SameRegistry, announce_left-SameRegistry}
use accord_rfc.Hub.Registry.{
  Consistent, Consistent-SameRegistry, register-Consistent, subscribe-Consistent,
  unregister-Consistent, forgotten,
}

-- A call, with the number of the new channel where one is made.
pub data Event : Type 0 where
  registered : (device : Uuid) (groups : List Uuid) (sender : Sender) → Event
  unregistered : (device : Uuid) → Event
  subscribed : (device group : Uuid) → Event
  delivered : (group : Uuid) (message : ServerMessage) (exclude : Option Uuid) → Event

abbrev pub step : Event → Hub → Hub
step (registered device groups sender) hub = register device groups sender hub
step (unregistered device) hub = unregister device hub
step (subscribed device group) hub = subscribe device group hub
step (delivered group message exclude) hub = deliver_to_group group message exclude hub

abbrev pub run : List Event → Hub → Hub
run [] hub = hub
run (event ∷ events) hub = run events (step event hub)

-- A stream is opened for a device that has none.
abbrev pub IsNew : Event → Hub → Type 0
IsNew (registered device _ _) hub = is_connected device hub ≡ false
IsNew _ hub = Unit

-- No stream of the history is opened while the device has another.
abbrev pub NoReconnect : List Event → Hub → Type 0
NoReconnect [] hub = Unit
NoReconnect (event ∷ events) hub = IsNew event hub × NoReconnect events (step event hub)

step-Consistent :
    (event : Event) (hub : Hub) → IsNew event hub → Consistent hub → Consistent (step event hub)
unfolding deliver_to_group
step-Consistent (registered device groups sender) hub new c =
    register-Consistent device groups sender hub new c
step-Consistent (unregistered device) hub new c = unregister-Consistent device hub c
step-Consistent (subscribed device group) hub new c = subscribe-Consistent device group hub c
step-Consistent (delivered group message exclude) hub new c =
    Consistent-SameRegistry hub _
      (deliver-SameRegistry (inner group hub.group_subs) exclude message hub) c

pub run-Consistent :
    (events : List Event) (hub : Hub)
    → NoReconnect events hub
    → Consistent hub
    → Consistent (run events hub)
run-Consistent [] hub new c = c
run-Consistent (event ∷ events) hub new c =
    run-Consistent events (step event hub) new.1 (step-Consistent event hub new.0 c)

-- After any sequence of calls that register, unregister, subscribe or deliver, from a consistent
-- registry, in which no device opens a stream while it has another, a device is subscribed to a
-- group only by the channel of its open stream.
pub subscribed_by_stream :
    (events : List Event) (hub : Hub) (group device : Uuid) (sender : Sender)
    → NoReconnect events hub
    → Consistent hub
    → sub group device (run events hub).group_subs ≡ some sender
    → get device (run events hub).device_subs ≡ some sender
subscribed_by_stream events hub group device sender new c h =
    ((run-Consistent events hub new c).registered group device sender h).0

-- In a consistent registry, `unregister` leaves the subscriptions of the other devices, and no
-- others.
pub sub-unregister :
    (device : Uuid) (hub : Hub) (group d : Uuid)
    → Consistent hub
    → sub group d (unregister device hub).group_subs
      ≡ (if d == device then none else sub group d hub.group_subs)
unfolding unregister forget
sub-unregister device hub group d c =
    ap (sub group d)
      (announce_left-SameRegistry device (drop_voice device hub.voice).1
        (forget device hub)).group_subs
    ∙ forgotten device hub group d c
