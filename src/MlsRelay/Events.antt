-- ===== src/MlsRelay/Events.antt =====
-- The events of mls_relay/service.rs on key packages: uploads and claims, and what they do to a
-- package that was claimed.
use accord_rfc.Base.{
  ℕ, suc, ◌≤◌, ◌++◌, Bytes, any-append_keep, ◌≡◌, ◌≢◌, subst, sym, ◌∙◌, Bool, true, false, not,
  ◌&&◌, List, [], ◌∷◌, Uuid, any-append, any-filter, any_mono, filter, ◌==◌, arith,
}
use accord_rfc.Store.{KeyPackage, Db}
use accord_rfc.Store.Mailbox.{
  insert_packages, cap_packages, store_key_packages, claim_key_packages_for_user,
}
use accord_rfc.MlsRelay.Packages.{is_open, has_id, Spent, still_closed, claim-Claimed}

pub data Event : Type 0 where
  upload : (ids times : ℕ → ℕ) (tick : ℕ) (user device : Uuid) (packages : List Bytes) → Event
  claim : (user : Uuid) → Event

abbrev pub happen : Event → Db → Db
happen (upload ids times tick user device packages) db =
    (store_key_packages ids times tick user device packages db).1
happen (claim user) db = (claim_key_packages_for_user user db).1

abbrev pub handed : Event → Db → List KeyPackage
handed (upload ids times tick user device packages) db = []
handed (claim user) db = (claim_key_packages_for_user user db).0

-- All that is handed out.
unfoldable pub all_handed : List Event → Db → List KeyPackage
all_handed [] db = []
all_handed (e ∷ events) db = handed e db ++ all_handed events (happen e db)

-- No id that is drawn for a new package is that of a package in the table.
abbrev pub DrawsUnused : Event → Db → Type 0
DrawsUnused (upload ids times tick user device packages) db =
    (n : ℕ) → tick ≤ n → has_id (ids n) db.key_packages ≡ false
DrawsUnused (claim user) db = Unit

-- No upload draws the id of a package that is in the table at that time.
abbrev pub AllUnused : List Event → Db → Type 0
AllUnused [] db = Unit
AllUnused (e ∷ events) db = DrawsUnused e db × AllUnused events (happen e db)

insert-Spent :
    (ids times : ℕ → ℕ) (user device : Uuid) (packages : List Bytes) (tick id : ℕ)
    (rows : List KeyPackage)
    → ((n : ℕ) → tick ≤ n → ids n ≢ id)
    → Spent id rows
    → Spent id (insert_packages ids times user device packages tick rows)
unfolding insert_packages
insert-Spent ids times user device [] tick id rows new h = h
insert-Spent ids times user device (blob ∷ packages) tick id rows new h =
    insert-Spent ids times user device packages (suc tick) id _ (λ n k. new n (omega arith))
      (record {
        there = any-append_keep (λ (p : KeyPackage). p.id == id) rows _ h.there;
        shut =
            any-append (λ (p : KeyPackage). p.id == id && not p.consumed) rows _
            ∙ ground (arith, h.shut, new tick (omega arith));
      })

-- The rows that stay, of which none is dropped that was claimed.
filter-Spent :
    (id : Uuid) (keep : KeyPackage → Bool) (rows : List KeyPackage)
    → ((p : KeyPackage) → p.consumed ≡ true → keep p ≡ true)
    → Spent id rows
    → Spent id (filter keep rows)
filter-Spent id keep rows k h = record {
  there = still_there rows h.there h.shut;
  shut = still_closed id rows (filter keep rows) h.shut λ e.
      any_mono (λ (p : KeyPackage). keep p && (p.id == id && not p.consumed))
        (λ (p : KeyPackage). p.id == id && not p.consumed) rows (λ p o. ground arith)
        (sym (any-filter (λ (p : KeyPackage). p.id == id && not p.consumed) keep rows) ∙ e);
}
  where
    still_there :
        (ps : List KeyPackage)
        → has_id id ps ≡ true
        → is_open id ps ≡ false
        → has_id id (filter keep ps) ≡ true
    still_there [] there shut = there
    still_there (p ∷ ps) there shut = ground (arith, k p, still_there ps)

pub happen-Spent :
    (id : Uuid) (e : Event) (db : Db)
    → DrawsUnused e db
    → Spent id db.key_packages
    → Spent id (happen e db).key_packages
unfolding store_key_packages cap_packages
happen-Spent id (upload ids times tick user device packages) db new h =
    filter-Spent id _ _ (λ p e. ground arith)
      (insert-Spent ids times user device packages tick id db.key_packages
        (λ n k same.
          ground (arith, h.there, subst (λ i. has_id i db.key_packages ≡ false) same (new n k)))
        h)
happen-Spent id (claim user) db new h =
    let c = claim-Claimed user db in
    record {
      there = c.stays id h.there;
      shut = still_closed id db.key_packages _ h.shut (c.kept id);
    }
