-- ===== src/Hub/Registry.antt =====
-- The registry of the hub: a device is subscribed where its stream says, and nowhere without one.
use accord_rfc.Base.{
  ◌≡◌, refl, sym, subst, ◌∙◌, ◌⊎◌, inl, inr, true, false, ◌&&◌, ◌||◌, List, [], ◌∷◌, Option, none,
  some, Uuid, member, any-append, or_absorbs, ◌==◌, ==_iff, Bool-cases, Option-cases, if◌then◌else◌,
  arith,
}
use accord_rfc.Base.Maps.{get, get-remove, get-insert}
use accord_rfc.Hub.{
  Hub, Sender, register, drop_subs, forget, unregister, subscribe, add_group, drop_voice,
  is_connected,
}
use accord_rfc.Hub.Subscriptions.{
  sub, sub-add_sub, sub-add_subs, sub-drop_subs, SameRegistry, announce_left-SameRegistry,
}

-- The device is subscribed to the groups of its list alone, by the channel of its stream.
abbrev pub Registered : Hub → Uuid → Sender → Uuid → Type 0
Registered hub device sender group =
    (get device hub.device_subs ≡ some sender)
    × ((groups : List Uuid) × (get device hub.device_groups ≡ some groups)
        × (member group groups ≡ true))

-- Each subscription belongs to a stream.
pub record Consistent (hub : Hub) : Type 0 where
  pub registered :
      (group device : Uuid) (sender : Sender)
      → sub group device hub.group_subs ≡ some sender
      → Registered hub device sender group

pub Consistent-SameRegistry : (a b : Hub) → SameRegistry a b → Consistent a → Consistent b
Consistent-SameRegistry a b same c = record {
  registered = λ group device sender h.
      rw (same.device_subs, same.device_groups)
        (c.registered group device sender (rw (sym same.group_subs) h));
}

-- A device without a stream is subscribed nowhere.
pub nowhere :
    (hub : Hub) (device group : Uuid)
    → Consistent hub
    → is_connected device hub ≡ false
    → sub group device hub.group_subs ≡ none
unfolding is_connected
nowhere hub device group c off = elim (Option-cases (sub group device hub.group_subs)) [
  | inl e ↦ e
  | inr (sender, e) ↦ absurd (ground (arith, (c.registered group device sender e).0))
]

pub register-Consistent :
    (device : Uuid) (groups : List Uuid) (sender : Sender) (hub : Hub)
    → is_connected device hub ≡ false
    → Consistent hub
    → Consistent (register device groups sender hub)
unfolding register
register-Consistent device groups sender hub off c = record {
  registered = λ g d s h.
      rw (get-insert device d sender hub.device_subs, get-insert device d groups hub.device_groups)
        (cases g d s (sym (sub-add_subs groups device sender hub.group_subs g d) ∙ h)
          (Bool-cases (d == device)));
}
  where
    cases :
        (g d : Uuid) (s : Sender)
        → (if member g groups && d == device then some sender else sub g d hub.group_subs) ≡ some s
        → ((d == device) ≡ true) ⊎ ((d == device) ≡ false)
        → ((if d == device then some sender else get d hub.device_subs) ≡ some s)
          × ((gs : List Uuid) × ((if d == device then some groups else get d hub.device_groups)
                ≡ some gs)
              × (member g gs ≡ true))
    cases g d s h (inl e) =
        let same : d ≡ device = (==_iff d device).0 e in
        let off_here : sub g d hub.group_subs ≡ none = rw same (nowhere hub device g c off) in
        (ground (arith, off_here), (groups, rw e refl, ground (arith, off_here)))
    cases g d s h (inr e) =
        let (a, (gs, b, m)) = c.registered g d s (ground arith) in (rw e a, (gs, rw e b, m))

member-add_group :
    (group g : Uuid) (gs : List Uuid) → member g (add_group group gs) ≡ (member g gs || g == group)
member-add_group group g gs = elim (Bool-cases (member group gs)) [
  | inl e ↦
      rw (add_group, e) (or_absorbs (member g gs) (g == group) λ h. rw ((==_iff g group).0 h) e)
  | inr e ↦ rw (add_group, e) (any-append _ gs (group ∷ []) ∙ ground arith)
]

pub subscribe-Consistent :
    (device group : Uuid) (hub : Hub) → Consistent hub → Consistent (subscribe device group hub)
unfolding subscribe
subscribe-Consistent device group hub c = elim (Option-cases (get device hub.device_subs)) [
  | inl e ↦ rw (subscribe, e) c
  | inr (sender, e) ↦
      rw (subscribe, e)
        (record {
          registered = λ g d s h.
              rw
                (get-insert device d (add_group group (or_none (get device hub.device_groups)))
                  hub.device_groups)
                (cases sender e g d s (sym (sub-add_sub group device sender hub.group_subs g d) ∙ h)
                  (Bool-cases (d == device)));
        })
]
  where
    or_none : Option (List Uuid) → List Uuid
    or_none o = elim o [ some gs ↦ gs | none ↦ [] ]

    cases :
        (sender : Sender)
        → get device hub.device_subs ≡ some sender
        → (g d : Uuid) (s : Sender)
        → (if g == group && d == device then some sender else sub g d hub.group_subs) ≡ some s
        → ((d == device) ≡ true) ⊎ ((d == device) ≡ false)
        → (get d hub.device_subs ≡ some s)
          × ((gs : List Uuid) × ((if d == device
                  then some (add_group group (or_none (get device hub.device_groups)))
                  else get d hub.device_groups)
                ≡ some gs)
              × (member g gs ≡ true))
    cases sender on g d s h (inl e) =
        let same : d ≡ device = (==_iff d device).0 e in
        elim (Bool-cases (g == group)) [
          | inl k ↦ (
            rw (same, on) (ground arith),
            (
              add_group group (or_none (get device hub.device_groups)),
              rw e refl,
              ground (arith, member-add_group group g (or_none (get device hub.device_groups))),
            ),
          )
          | inr k ↦
              let (a, (gs, b, m)) = c.registered g d s (ground arith) in
              let b' : get device hub.device_groups ≡ some gs =
                subst (λ x. get x hub.device_groups ≡ some gs) same b in
              (
                a,
                (add_group group gs, rw (e, b') refl, ground (arith, member-add_group group g gs)),
              )
        ]
    cases sender on g d s h (inr e) =
        let (a, (gs, b, m)) = c.registered g d s (ground arith) in (a, (gs, rw e b, m))

-- The subscriptions that `unregister` leaves are those of the other devices.
pub forgotten :
    (device : Uuid) (hub : Hub) (g d : Uuid)
    → Consistent hub
    → sub g d (elim (get device hub.device_groups) [
      | some groups ↦ drop_subs device groups hub.group_subs
      | none ↦ hub.group_subs
    ])
      ≡ (if d == device then none else sub g d hub.group_subs)
forgotten device hub g d c = elim (Option-cases (get device hub.device_groups)) [
  | inl n ↦ rw n (unlisted n (Bool-cases (d == device)))
  | inr (gs, e) ↦
      rw e (sub-drop_subs gs device hub.group_subs g d ∙ listed gs e (Bool-cases (d == device)))
]
  where
    unlisted :
        get device hub.device_groups ≡ none
        → ((d == device) ≡ true) ⊎ ((d == device) ≡ false)
        → sub g d hub.group_subs ≡ (if d == device then none else sub g d hub.group_subs)
    unlisted n (inl h) = elim (Option-cases (sub g d hub.group_subs)) [
      | inl e ↦ rw (h, e) refl
      | inr (s, e) ↦
          let (a, (gs, b, m)) = c.registered g d s e in
          let b' : get device hub.device_groups ≡ some gs =
            subst (λ x. get x hub.device_groups ≡ some gs) ((==_iff d device).0 h) b in
          absurd (ground arith)
    ]
    unlisted n (inr h) = rw h refl

    listed :
        (gs : List Uuid)
        → get device hub.device_groups ≡ some gs
        → ((d == device) ≡ true) ⊎ ((d == device) ≡ false)
        → (if member g gs && d == device then none else sub g d hub.group_subs)
          ≡ (if d == device then none else sub g d hub.group_subs)
    listed gs e (inl h) = elim (Option-cases (sub g d hub.group_subs)) [
      | inl f ↦ rw (h, f) (ground arith)
      | inr (s, f) ↦
          let (a, (gs', b, m)) = c.registered g d s f in
          let b' : get device hub.device_groups ≡ some gs' =
            subst (λ x. get x hub.device_groups ≡ some gs') ((==_iff d device).0 h) b in
          let m' : member g gs ≡ true = cc in rw (h, m') refl
    ]
    listed gs e (inr h) = rw h (ground arith)

pub unregister-Consistent :
    (device : Uuid) (hub : Hub) → Consistent hub → Consistent (unregister device hub)
unfolding unregister forget
unregister-Consistent device hub c =
    Consistent-SameRegistry (forget device hub) (unregister device hub)
      (announce_left-SameRegistry device (drop_voice device hub.voice).1 (forget device hub))
      (record {
        registered = λ g d s h.
            rw (get-remove device d hub.device_subs, get-remove device d hub.device_groups)
              (cases g d s (sym (forgotten device hub g d c) ∙ h) (Bool-cases (d == device)));
      })
  where
    cases :
        (g d : Uuid) (s : Sender)
        → (if d == device then none else sub g d hub.group_subs) ≡ some s
        → ((d == device) ≡ true) ⊎ ((d == device) ≡ false)
        → ((if d == device then none else get d hub.device_subs) ≡ some s)
          × ((gs : List Uuid) × ((if d == device then none else get d hub.device_groups) ≡ some gs)
              × (member g gs ≡ true))
    cases g d s h (inl e) = absurd (ground arith)
    cases g d s h (inr e) =
        let (a, (gs, b, m)) = c.registered g d s (ground arith) in (rw e a, (gs, rw e b, m))
