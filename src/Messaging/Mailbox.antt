-- ===== src/Messaging/Mailbox.antt =====
-- `handle_private_message`: the loop that queues a message for the devices of a group.
use accord_rfc.Base.{
  ◌≡◌, ◌≢◌, ◌⊎◌, refl, subst, ap, sym, ◌∙◌, inl, inr, Bool, true, false, ◌&&◌, ◌||◌, List, [], ◌∷◌,
  text_eq, text_eq_refl, any-last, any-append_keep, filter-append_other, bytes_eq_refl, Uuid, Bytes,
  bytes_eq, any, member, ◌==◌, Bool-cases, arith,
}
use accord_rfc.Store.{InboxEntry, Device, Db}
use accord_rfc.Store.Mailbox.{enqueue_inbox, drain_inbox}
use accord_rfc.Hub.{is_connected}
use accord_rfc.Api.Server.{Server}
use accord_rfc.Messaging.Private.{queue_one, queue_each}

-- A message for the group with this payload waits in the inbox of the device.
abbrev pub is_wait : Uuid → Uuid → Bytes → InboxEntry → Bool
is_wait device group payload e =
    e.device_id == device
    && (text_eq e.kind "private" && (e.group_id == group && bytes_eq e.payload payload))

abbrev pub waits : Uuid → Uuid → Bytes → Db → Bool
waits device group payload db = any (is_wait device group payload) db.mls_inbox

abbrev pub has_row : Uuid → Db → Bool
has_row device db = any (λ (d : Device). d.id == device) db.devices

module _ (group : Uuid) (payload : Bytes) where
  -- A message that is queued, and the rest of the state.
  record Queued (dev : Uuid) (s s' : Server) : Type 0 where
    queued : has_row dev s.db ≡ true → waits dev group payload s'.db ≡ true
    keeps : (d : Uuid) → waits d group payload s.db ≡ true → waits d group payload s'.db ≡ true
    others : (d : Uuid) → d ≢ dev → (drain_inbox d s'.db).0 ≡ (drain_inbox d s.db).0
    same_hub : s'.hub ≡ s.hub
    same_devices : s'.db.devices ≡ s.db.devices
    same_messages : s'.db.private_messages ≡ s.db.private_messages

  queue_one-Queued : (dev : Uuid) (s : Server) → Queued dev s (queue_one group payload dev s)
  unfolding enqueue_inbox drain_inbox
  queue_one-Queued dev s = elim (Bool-cases (has_row dev s.db)) [
    | inl e ↦
        rw (queue_one, e)
          (record {
            queued = λ h.
                any-last (is_wait dev group payload) s.db.mls_inbox _
                  (ground (arith, text_eq_refl "private", bytes_eq_refl payload));
            keeps = λ d h. any-append_keep (is_wait d group payload) s.db.mls_inbox _ h;
            others = λ d n.
                filter-append_other (λ (e : InboxEntry). e.device_id == d) s.db.mls_inbox _
                  (ground (arith, n));
            same_hub = refl;
            same_devices = refl;
            same_messages = refl;
          })
    | inr e ↦
        rw (queue_one, e)
          (record {
            queued = λ h. ground (arith, h, e);
            keeps = λ d h. h;
            others = λ d n. refl;
            same_hub = refl;
            same_devices = refl;
            same_messages = refl;
          })
  ]

  -- What the loop over the devices has done.
  pub record Swept (sender : Uuid) (devices : List Uuid) (s s' : Server) : Type 0 where
    pub served :
        (d : Uuid)
        → member d devices ≡ true
        → d ≢ sender
        → has_row d s.db ≡ true
        → (is_connected d s.hub ≡ true) ⊎ (waits d group payload s'.db ≡ true)
    pub keeps : (d : Uuid) → waits d group payload s.db ≡ true → waits d group payload s'.db ≡ true
    pub spared :
        (d : Uuid)
        → (d ≡ sender) ⊎ (is_connected d s.hub ≡ true)
        → (drain_inbox d s'.db).0 ≡ (drain_inbox d s.db).0
    pub same_hub : s'.hub ≡ s.hub
    pub same_messages : s'.db.private_messages ≡ s.db.private_messages

  -- A device that needs no copy, and one that gets one.
  module _ (sender dev : Uuid) (devices : List Uuid) (s : Server) where
    Swept-skip :
        {s' : Server}
        → (dev == sender || is_connected dev s.hub) ≡ true
        → Swept sender devices s s'
        → Swept sender (dev ∷ devices) s s'
    Swept-skip skip r = record {
      served = λ d m n row. elim (Bool-cases (d == dev)) [
        | inl same ↦
            let e : dev ≡ d = ground arith in
            inl
              (ground (arith, n, subst (λ i. (i == sender || is_connected i s.hub) ≡ true) e skip))
        | inr apart ↦ r.served d (ground arith) n row
      ];
      keeps = r.keeps;
      spared = r.spared;
      same_hub = r.same_hub;
      same_messages = r.same_messages;
    }

    Swept-queue :
        {s1 s' : Server}
        → (dev == sender || is_connected dev s.hub) ≡ false
        → Queued dev s s1
        → Swept sender devices s1 s'
        → Swept sender (dev ∷ devices) s s'
    Swept-queue {s1} {s'} queue q r = record {
      served = λ d m n row. elim (Bool-cases (d == dev)) [
        | inl same ↦
            let e : dev ≡ d = ground arith in
            inr (
              r.keeps d (
                subst (λ i. waits i group payload s1.db ≡ true) e
                  (q.queued (subst (λ i. has_row i s.db ≡ true) (sym e) row))))
        | inr apart ↦
            subst (λ h. (is_connected d h ≡ true) ⊎ (waits d group payload s'.db ≡ true)) q.same_hub
              (r.served d (ground arith) n
                (ap (any (λ (x : Device). x.id == d)) q.same_devices ∙ row))
      ];
      keeps = λ d h. r.keeps d (q.keeps d h);
      spared = λ d h.
          r.spared d (subst (λ hub. (d ≡ sender) ⊎ (is_connected d hub ≡ true)) (sym q.same_hub) h)
          ∙ q.others d
              (λ e. not_both (subst (λ i. (i ≡ sender) ⊎ (is_connected i s.hub ≡ true)) e h));
      same_hub = r.same_hub ∙ q.same_hub;
      same_messages = r.same_messages ∙ q.same_messages;
    }
      where
        not_both : (dev ≡ sender) ⊎ (is_connected dev s.hub ≡ true) → ⊥
        not_both h = elim h [ inl e ↦ ground (arith, e, queue) | inr e ↦ ground (arith, e, queue) ]

  pub queue_each-Swept :
      (sender : Uuid) (devices : List Uuid) (s : Server)
      → Swept sender devices s (queue_each sender group payload devices s)
  unfolding queue_each
  queue_each-Swept sender [] s = record {
    served = λ d m n r. cc;
    keeps = λ d h. h;
    spared = λ d h. refl;
    same_hub = refl;
    same_messages = refl;
  }
  queue_each-Swept sender (dev ∷ devices) s =
      elim (Bool-cases (dev == sender || is_connected dev s.hub)) [
        | inl skip ↦
            rw skip (Swept-skip sender dev devices s skip (queue_each-Swept sender devices s))
        | inr queue ↦ rw queue (
            Swept-queue sender dev devices s queue (queue_one-Queued dev s)
              (queue_each-Swept sender devices (queue_one group payload dev s)))
      ]
