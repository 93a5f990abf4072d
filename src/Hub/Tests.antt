-- ===== src/Hub/Tests.antt =====
-- Instances of the theorems on the hub, and what a reconnect leaves.
use accord_rfc.Base.{◌≡◌, refl, arith, false, List, [], ◌∷◌, none, some}
use accord_rfc.Base.Maps.{get, inner}
use accord_rfc.Hub.{
  Hub, empty_hub, register, add_subs, unregister, subscribe, is_connected, forget, drop_subs,
  drop_voice, announce_left, deliver_to_group, commit_notification,
}
use accord_rfc.Hub.Subscriptions.{sub}
use accord_rfc.Hub.Registry.{Consistent}
use accord_rfc.Hub.Delivery.{fill, hits, queues-deliver_to_group}
use accord_rfc.Hub.History.{Event, registered, unregistered, subscribed, run, subscribed_by_stream}

empty-Consistent : Consistent empty_hub
empty-Consistent = record { registered = λ g d s h. absurd (ground arith) }

abbrev events : List Event
events = registered 7 (1 ∷ []) 100 ∷ subscribed 7 2 ∷ []

new_stream : is_connected 7 empty_hub ≡ false
unfolding is_connected
new_stream = refl

subscribed_to_two : sub 2 7 (run events empty_hub).group_subs ≡ some 100
unfolding register add_subs subscribe
subscribed_to_two = refl

subscribed_by_stream_example : get 7 (run events empty_hub).device_subs ≡ some 100
subscribed_by_stream_example =
    subscribed_by_stream events empty_hub 2 7 100 (new_stream, (tt, tt)) empty-Consistent
      subscribed_to_two

-- A device that opens a second stream with other groups keeps the subscription of the first, also
-- when the stream ends.
reconnected : Hub
unfolding register unregister add_subs forget drop_subs drop_voice announce_left
reconnected = run (registered 7 (1 ∷ []) 100 ∷ registered 7 [] 101 ∷ unregistered 7 ∷ []) empty_hub

stale_subscription : sub 1 7 reconnected.group_subs ≡ some 100
unfolding reconnected
stale_subscription = refl

queues-deliver_to_group_example :
    (deliver_to_group 2 (commit_notification 2 [] 0) none (run events empty_hub)).queues 100
    ≡ fill
        (hits none 100 (inner 2 (run events empty_hub).group_subs))
        (commit_notification 2 [] 0)
        ((run events empty_hub).queues 100)
queues-deliver_to_group_example =
    queues-deliver_to_group 2 (commit_notification 2 [] 0) none (run events empty_hub) 100
