-- ===== src/Store/Mailbox.antt =====
-- The queries on key packages and on the offline inboxes of store/sqlite.rs.
use accord_rfc.Base.{
  ℕ, suc, Bool, true, false, not, ◌&&◌, ◌||◌, List, [], ◌∷◌, ◌++◌, Option, none, some, Text, Uuid,
  Bytes, any, filter, take, update, member, length, ltb, ◌==◌, if◌then◌else◌,
}
use accord_rfc.Store.{Device, KeyPackage, InboxEntry, Db}

-- The packages of a device that can be claimed.
abbrev pub is_fresh : Uuid → KeyPackage → Bool
is_fresh device_id p = p.device_id == device_id && not p.consumed

-- One INSERT for each package, given the ids and the times of the rows.
unfoldable pub insert_packages :
    (ids times : ℕ → ℕ) → Uuid → Uuid → List Bytes → ℕ → List KeyPackage → List KeyPackage
insert_packages ids times user_id device_id [] tick rows = rows
insert_packages ids times user_id device_id (blob ∷ packages) tick rows =
    insert_packages ids times user_id device_id packages (suc tick) (
      rows
      ++ record {
        id = ids tick;
        user_id = user_id;
        device_id = device_id;
        key_package = blob;
        consumed = false;
        created_at = times tick;
      }
        ∷ [])

abbrev pub insert_id : Uuid → List Uuid → List Uuid
insert_id id [] = id ∷ []
insert_id id (x ∷ xs) = let rest = insert_id id xs in if ltb x id then id ∷ x ∷ xs else x ∷ rest

-- `SELECT id … ORDER BY id DESC`
abbrev pub ids_down : List KeyPackage → List Uuid
ids_down [] = []
ids_down (p ∷ ps) = insert_id p.id (ids_down ps)

-- `MAX_UNCONSUMED_KEY_PACKAGES`
abbrev pub max_unconsumed : ℕ
max_unconsumed = 30

-- The DELETE that follows the insertions: of the fresh packages, the newest stay.
unfoldable pub cap_packages : Uuid → List KeyPackage → List KeyPackage
cap_packages device_id rows =
    let kept = take max_unconsumed (ids_down (filter (is_fresh device_id) rows)) in
    filter (λ (p : KeyPackage). not (is_fresh device_id p) || member p.id kept) rows

-- `store_key_packages`, from the tick at which the first row is inserted.
unfoldable pub store_key_packages : (ids times : ℕ → ℕ) → ℕ → Uuid → Uuid → List Bytes → Db → ℕ × Db
unfolding insert_packages cap_packages
store_key_packages ids times tick user_id device_id packages db = (
  length packages,
  record db {
    key_packages =
        cap_packages device_id
          (insert_packages ids times user_id device_id packages tick db.key_packages);
  },
)

-- `SELECT DISTINCT device_id`
unfoldable pub distinct_devices : List KeyPackage → List Uuid
distinct_devices [] = []
distinct_devices (p ∷ ps) =
    let rest = distinct_devices ps in if member p.device_id rest then rest else p.device_id ∷ rest

-- The older of a row and what was found in the rows after it.
abbrev pub older : KeyPackage → Option KeyPackage → Option KeyPackage
older p none = some p
older p (some q) = some (if ltb q.created_at p.created_at then q else p)

abbrev pub oldest : List KeyPackage → Option KeyPackage
oldest [] = none
oldest (p ∷ ps) = older p (oldest ps)

abbrev pub consume : Uuid → List KeyPackage → List KeyPackage
consume id =
    update (λ (p : KeyPackage). p.id == id) (λ (p : KeyPackage). record p { consumed = true })

-- The body of the loop of `claim_key_packages_for_user`, and the loop.
unfoldable pub claim_one : Uuid → List KeyPackage → Option KeyPackage × List KeyPackage
claim_one device_id rows = elim (oldest (filter (is_fresh device_id) rows)) [
  | none ↦ (none, rows)
  | some p ↦ (some p, consume p.id rows)
]

abbrev pub push {ℓ} : {A : Type ℓ} → Option A → List A → List A
push none xs = xs
push (some x) xs = x ∷ xs

unfoldable pub claim_each : List Uuid → List KeyPackage → List KeyPackage × List KeyPackage
unfolding claim_one
claim_each [] rows = ([], rows)
claim_each (device_id ∷ devices) rows =
    let (claimed, rows') = claim_one device_id rows in
    let (more, rows'') = claim_each devices rows' in (push claimed more, rows'')

-- `claim_key_packages_for_user`: the rows that are claimed.
unfoldable pub claim_key_packages_for_user : Uuid → Db → List KeyPackage × Db
unfolding claim_each distinct_devices
claim_key_packages_for_user user_id db =
    let devices =
      distinct_devices
        (filter (λ (p : KeyPackage). p.user_id == user_id && not p.consumed) db.key_packages) in
    let (claimed, rows) = claim_each devices db.key_packages in
    (claimed, record db { key_packages = rows })

-- `enqueue_inbox`, given the id of the row; none is a device without a row.
unfoldable pub enqueue_inbox : Uuid → Uuid → Text → Uuid → Bytes → Db → Option Db
enqueue_inbox id device_id kind group_id payload db =
    if any (λ (d : Device). d.id == device_id) db.devices
    then some (record db {
      mls_inbox =
          db.mls_inbox
          ++ record {
            id = id;
            device_id = device_id;
            kind = kind;
            group_id = group_id;
            payload = payload;
          }
            ∷ [];
    })
    else none

-- `drain_inbox`: the rows come back in the order in which they stand.
unfoldable pub drain_inbox : Uuid → Db → List InboxEntry × Db
drain_inbox device_id db = (
  filter (λ (e : InboxEntry). e.device_id == device_id) db.mls_inbox,
  record db {
    mls_inbox = filter (λ (e : InboxEntry). not (e.device_id == device_id)) db.mls_inbox;
  },
)
