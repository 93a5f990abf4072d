-- ===== src/MlsRelay/Once.antt =====
-- crates/accord-server/src/mls_relay: key packages over a history of uploads and claims.
use accord_rfc.Base.{
  ◌++◌, ◌≡◌, ◌≢◌, refl, subst, ap, sym, ◌∙◌, inl, inr, Bool, true, false, not, ◌&&◌, ◌||◌, List, [],
  ◌∷◌, Uuid, any, any-filter, any_mono, any-update_on, filter, All, All-map, All-append, All-update,
  member, ◌==◌, Bool-cases, some, Option-cases, arith,
}
use accord_rfc.Store.{KeyPackage, Db}
use accord_rfc.Store.Mailbox.{
  is_fresh, oldest, consume, claim_each, distinct_devices, claim_key_packages_for_user,
}
use accord_rfc.MlsRelay.Packages.{
  is_open, Spent, Once, open_for, AreKeys, claim-Claimed, none_lem, some_lem, oldest-Found,
  oldest-none, oldest-All,
}
use accord_rfc.MlsRelay.Events.{
  Event, upload, claim, happen, handed, all_handed, AllUnused, happen-Spent,
}

handed-others :
    (id : Uuid) (e : Event) (db : Db)
    → Spent id db.key_packages
    → All (λ (p : KeyPackage). p.id ≢ id) (handed e db)
handed-others id (upload ids times tick user device packages) db h = tt
handed-others id (claim user) db h =
    All-map _ _ _
      (λ p was same. ground (arith, h.shut, subst (λ i. is_open i db.key_packages ≡ true) same was))
      (claim-Claimed user db).handed

-- A package that was claimed is not handed out again.
not_again :
    (id : Uuid) (events : List Event) (db : Db)
    → AllUnused events db
    → Spent id db.key_packages
    → All (λ (p : KeyPackage). p.id ≢ id) (all_handed events db)
unfolding all_handed
not_again id [] db new h = tt
not_again id (e ∷ events) db new h =
    All-append _ (handed e db) _ (handed-others id e db h)
      (not_again id events (happen e db) new.1 (happen-Spent id e db new.0 h))

handed-Spent :
    (e : Event) (db : Db)
    → All (λ (p : KeyPackage). Spent p.id (happen e db).key_packages) (handed e db)
handed-Spent (upload ids times tick user device packages) db = tt
handed-Spent (claim user) db = (claim-Claimed user db).spent

handed-Once : (e : Event) (db : Db) → Once (handed e db)
handed-Once (upload ids times tick user device packages) db = tt
handed-Once (claim user) db = (claim-Claimed user db).distinct

Once-append :
    (ps qs : List KeyPackage)
    → Once ps
    → Once qs
    → All (λ (p : KeyPackage). All (λ (q : KeyPackage). q.id ≢ p.id) qs) ps
    → Once (ps ++ qs)
Once-append [] qs h k apart = k
Once-append (p ∷ ps) qs h k apart =
    (All-append _ ps qs h.0 apart.0, Once-append ps qs h.1 k apart.1)

-- In any sequence of uploads and claims of key packages, no two of all the packages that are
-- handed out have the same id, if no upload draws the id of a package that is in the table at
-- that time.
pub handed_once :
    (events : List Event) (db : Db) → AllUnused events db → Once (all_handed events db)
unfolding all_handed
handed_once [] db new = tt
handed_once (e ∷ events) db new =
    Once-append (handed e db) _ (handed-Once e db) (handed_once events (happen e db) new.1) (
      All-map _ _ (handed e db) (λ p h. not_again p.id events (happen e db) new.1 h)
        (handed-Spent e db))

-- A claim of another device leaves the packages of a device.
open-consume :
    (owner : Uuid → Uuid) (p : KeyPackage) (device other : Uuid) (rows : List KeyPackage)
    → AreKeys owner rows
    → (owner p.id ≡ other) × (other ≢ device)
    → open_for device (consume p.id rows) ≡ open_for device rows
open-consume owner p device other rows keys (owned, n) =
    any-update_on (λ (q : KeyPackage). q.device_id ≡ owner q.id) (is_fresh device)
      (λ (q : KeyPackage). q.id == p.id) (λ (q : KeyPackage). record q { consumed = true }) rows
      keys λ q own same. ground (arith, closed_for q own same)
  where
    closed_for :
        (q : KeyPackage)
        → q.device_id ≡ owner q.id
        → (q.id == p.id) ≡ true
        → (q.device_id == device) ≡ false
    closed_for q own same =
        let e : q.id ≡ p.id = ground arith in
        let d : q.device_id ≡ other = own ∙ ap owner e ∙ owned in ground arith

consume-keys :
    (owner : Uuid → Uuid) (id : Uuid) (rows : List KeyPackage)
    → AreKeys owner rows
    → AreKeys owner (consume id rows)
consume-keys owner id rows keys = All-update _ _ _ rows (λ p e own. own) keys

fresh_for : Uuid → KeyPackage → Bool
fresh_for device p = p.device_id == device

-- A device that is asked and has a package gives one.
served :
    (owner : Uuid → Uuid) (device : Uuid) (devices : List Uuid) (rows : List KeyPackage)
    → AreKeys owner rows
    → member device devices ≡ true
    → open_for device rows ≡ true
    → any (fresh_for device) (claim_each devices rows).0 ≡ true
unfolding claim_each fresh_for
served owner device [] rows keys asked has = cc
served owner device (other ∷ devices) rows keys asked has =
    elim (Option-cases (oldest (filter (is_fresh other) rows))) [
      | inl e ↦
          rw (none_lem other rows e)
            (served owner device devices rows keys (not_other (oldest-none other rows e)) has)
      | inr (p, e) ↦ rw (some_lem other rows p e) (elim (Bool-cases (device == other)) [
        | inl same ↦ ground (arith, (oldest-Found other rows p e).fresh)
        | inr apart ↦ ground (
          arith,
          served owner device devices (consume p.id rows) (consume-keys owner p.id rows keys)
              (ground arith)
              (open-consume owner p device other rows keys
                  (owned_by p e, λ o. ground (arith, o, apart))
                ∙ has),
        )
      ])
    ]
  where
    owned_by :
        (p : KeyPackage) → oldest (filter (is_fresh other) rows) ≡ some p → owner p.id ≡ other
    owned_by p e =
        let own =
          oldest-All (λ (q : KeyPackage). q.device_id ≡ owner q.id) (is_fresh other) rows p keys
            e in
        sym own ∙ ground (arith, (oldest-Found other rows p e).fresh)

    not_other : open_for other rows ≡ false → member device devices ≡ true
    not_other none_left = elim (Bool-cases (device == other)) [
      | inl same ↦
          let e : device ≡ other = ground arith in
          absurd (ground (arith, none_left, subst (λ d. open_for d rows ≡ true) e has))
      | inr apart ↦ ground arith
    ]

member-distinct_devices :
    (device : Uuid) (rows : List KeyPackage)
    → member device (distinct_devices rows) ≡ any (λ (p : KeyPackage). device == p.device_id) rows
unfolding distinct_devices
member-distinct_devices device [] = refl
member-distinct_devices device (p ∷ rows) =
    let ih = member-distinct_devices device rows in
    elim (Bool-cases (member p.device_id (distinct_devices rows))) [
      | inl e ↦ rw e (ih ∙ there ih e)
      | inr e ↦ rw e (ground (arith, ih))
    ]
  where
    there :
        member device (distinct_devices rows) ≡ any (λ (q : KeyPackage). device == q.device_id) rows
        → member p.device_id (distinct_devices rows) ≡ true
        → any (λ (q : KeyPackage). device == q.device_id) rows
          ≡ (device == p.device_id || any (λ (q : KeyPackage). device == q.device_id) rows)
    there ih e = elim (Bool-cases (device == p.device_id)) [
      | inl same ↦
          let d : p.device_id ≡ device = ground arith in
          ground (arith, same, ih, subst (λ i. member i (distinct_devices rows) ≡ true) d e)
      | inr apart ↦ rw apart refl
    ]

-- A package of a device that an account uploaded and that was not handed out.
abbrev pub offers : Uuid → Uuid → KeyPackage → Bool
offers user device p = p.user_id == user && (not p.consumed && device == p.device_id)

-- A claim for an account gets a package of each device that has one of the account that was not
-- handed out, if each package id is that of packages of one device.
pub claim-serves :
    (owner : Uuid → Uuid) (user device : Uuid) (db : Db)
    → AreKeys owner db.key_packages
    → any (offers user device) db.key_packages ≡ true
    → any (λ (q : KeyPackage). q.device_id == device) (claim_key_packages_for_user user db).0 ≡ true
unfolding claim_key_packages_for_user fresh_for
claim-serves owner user device db keys has =
    served owner device _ db.key_packages keys
      (member-distinct_devices device _
        ∙ any-filter (λ (p : KeyPackage). device == p.device_id)
            (λ (p : KeyPackage). p.user_id == user && not p.consumed) db.key_packages
        ∙ any_mono (offers user device) _ db.key_packages (λ p e. ground arith) has)
      (any_mono (offers user device) (is_fresh device) db.key_packages (λ p e. ground arith) has)
