-- ===== src/Hub/Subscriptions.antt =====
-- The subscriptions of the hub's registry after its elementary changes.
use accord_rfc.Base.{
  ◌≡◌, refl, sym, ap, ◌∙◌, ◌⊎◌, inl, inr, Bool, true, false, ◌&&◌, List, [], ◌∷◌, Option, none,
  some, Uuid, member, length, ltb, ◌==◌, ==_iff, Bool-cases, Option-cases, if◌then◌else◌, arith,
}
use accord_rfc.Base.Maps.{
  Map, get, remove, insert, inner, get-remove, get-insert, inner-insert, inner-remove,
}
use accord_rfc.Hub.{
  Hub, Sender, ServerMessage, VoiceState, add_sub, add_subs, put_or_drop, drop_sub, drop_subs,
  deliver, deliver_to_group, try_send, client_buffer, announce_left, is_excluded,
}

-- The channel by which the device gets what goes to the group.
abbrev pub sub : Uuid → Uuid → Map (Map Sender) → Option Sender
sub group device subs = get device (inner group subs)

pub sub-add_sub :
    (group device : Uuid) (sender : Sender) (subs : Map (Map Sender)) (g d : Uuid)
    → sub g d (add_sub group device sender subs)
      ≡ (if g == group && d == device then some sender else sub g d subs)
sub-add_sub group device sender subs g d =
    ap (get d) (inner-insert group g (insert device sender (inner group subs)) subs)
    ∙ split (Bool-cases (g == group))
  where
    split :
        ((g == group) ≡ true) ⊎ ((g == group) ≡ false)
        → get d (if g == group then insert device sender (inner group subs) else inner g subs)
          ≡ (if g == group && d == device then some sender else sub g d subs)
    split (inl e) = rw e (
        get-insert device d sender (inner group subs)
        ∙ ap (λ k. if d == device then some sender else sub k d subs) (sym ((==_iff g group).0 e)))
    split (inr e) = rw e refl

inner-put_or_drop :
    (group g : Uuid) (members : Map Sender) (m : Map (Map Sender))
    → inner g (put_or_drop group members m) ≡ (if g == group then members else inner g m)
inner-put_or_drop group g [] m = inner-remove group g m
inner-put_or_drop group g (e ∷ es) m = inner-insert group g (e ∷ es) m

sub-drop_sub :
    (device group : Uuid) (subs : Map (Map Sender)) (g d : Uuid)
    → sub g d (drop_sub device group subs)
      ≡ (if g == group && d == device then none else sub g d subs)
sub-drop_sub device group subs g d = elim (Option-cases (get group subs)) [
  | inl n ↦ rw (drop_sub, n) (absent n (Bool-cases (g == group)))
  | inr (members, e) ↦
      rw (drop_sub, e)
        (ap (get d) (inner-put_or_drop group g (remove device members) subs)
          ∙ present members e (Bool-cases (g == group)))
]
  where
    here : (g == group) ≡ true → inner g subs ≡ inner group subs
    here h = ap (λ k. inner k subs) ((==_iff g group).0 h)

    absent :
        get group subs ≡ none
        → ((g == group) ≡ true) ⊎ ((g == group) ≡ false)
        → sub g d subs ≡ (if g == group && d == device then none else sub g d subs)
    absent n (inl h) = rw (h, here h, n) (same (d == device))
      where
        same : (b : Bool) → ◌≡◌ {A = Option Sender} none (if b then none else none)
        same true = refl
        same false = refl
    absent n (inr h) = rw h refl

    present :
        (members : Map Sender)
        → get group subs ≡ some members
        → ((g == group) ≡ true) ⊎ ((g == group) ≡ false)
        → get d (if g == group then remove device members else inner g subs)
          ≡ (if g == group && d == device then none else sub g d subs)
    present members e (inl h) = rw (h, here h, e) (get-remove device d members)
    present members e (inr h) = rw h refl

pub sub-add_subs :
    (groups : List Uuid) (device : Uuid) (sender : Sender) (subs : Map (Map Sender)) (g d : Uuid)
    → sub g d (add_subs groups device sender subs)
      ≡ (if member g groups && d == device then some sender else sub g d subs)
unfolding add_subs
sub-add_subs [] device sender subs g d = refl
sub-add_subs (group ∷ groups) device sender subs g d =
    sub-add_subs groups device sender (add_sub group device sender subs) g d
    ∙ ap (λ o. if member g groups && d == device then some sender else o)
        (sub-add_sub group device sender subs g d)
    ∙ ground arith

pub sub-drop_subs :
    (groups : List Uuid) (device : Uuid) (subs : Map (Map Sender)) (g d : Uuid)
    → sub g d (drop_subs device groups subs)
      ≡ (if member g groups && d == device then none else sub g d subs)
unfolding drop_subs
sub-drop_subs [] device subs g d = refl
sub-drop_subs (group ∷ groups) device subs g d =
    sub-drop_subs groups device (drop_sub device group subs) g d
    ∙ ap (λ o. if member g groups && d == device then none else o)
        (sub-drop_sub device group subs g d)
    ∙ ground arith

-- Two hubs with the same registry.
pub record SameRegistry (a b : Hub) : Type 0 where
  pub group_subs : b.group_subs ≡ a.group_subs
  pub device_subs : b.device_subs ≡ a.device_subs
  pub device_groups : b.device_groups ≡ a.device_groups

pub SameRegistry-refl : (hub : Hub) → SameRegistry hub hub
SameRegistry-refl hub = record { group_subs = refl; device_subs = refl; device_groups = refl }

SameRegistry-trans : (a b c : Hub) → SameRegistry a b → SameRegistry b c → SameRegistry a c
SameRegistry-trans a b c p q = record {
  group_subs = q.group_subs ∙ p.group_subs;
  device_subs = q.device_subs ∙ p.device_subs;
  device_groups = q.device_groups ∙ p.device_groups;
}

try_send-SameRegistry :
    (sender : Sender) (message : ServerMessage) (hub : Hub)
    → SameRegistry hub (try_send sender message hub)
unfolding try_send
try_send-SameRegistry sender message hub =
    elim (Bool-cases (ltb (length (hub.queues sender)) client_buffer)) [
      | inl e ↦ rw e (record { group_subs = refl; device_subs = refl; device_groups = refl })
      | inr e ↦ rw e (SameRegistry-refl hub)
    ]

pub deliver-SameRegistry :
    (members : List (Uuid × Sender)) (exclude : Option Uuid) (message : ServerMessage) (hub : Hub)
    → SameRegistry hub (deliver members exclude message hub)
unfolding deliver
deliver-SameRegistry [] exclude message hub = SameRegistry-refl hub
deliver-SameRegistry ((device, sender) ∷ members) exclude message hub =
    SameRegistry-trans hub (sent (is_excluded exclude device)) _ (one (is_excluded exclude device))
      (deliver-SameRegistry members exclude message (sent (is_excluded exclude device)))
  where
    sent : Bool → Hub
    sent skip = if skip then hub else try_send sender message hub

    one : (skip : Bool) → SameRegistry hub (sent skip)
    one true = SameRegistry-refl hub
    one false = try_send-SameRegistry sender message hub

pub announce_left-SameRegistry :
    (device : Uuid) (left : List (Uuid × VoiceState)) (hub : Hub)
    → SameRegistry hub (announce_left device left hub)
unfolding announce_left deliver_to_group
announce_left-SameRegistry device [] hub = SameRegistry-refl hub
announce_left-SameRegistry device ((group, state) ∷ left) hub =
    SameRegistry-trans hub _ _ (deliver-SameRegistry (inner group hub.group_subs) none _ hub)
      (announce_left-SameRegistry device left _)
