-- ===== src/MlsRelay/Packages.antt =====
-- `claim_key_packages_for_user` of store/sqlite.rs: the packages before a claim and after it.
use accord_rfc.Base.{
  ◌⊎◌, ◌≡◌, ◌≢◌, ◌∙◌, any_mono, refl, subst, inl, inr, Bool, true, false, not, ◌&&◌, List, [], ◌∷◌,
  Option, none, some, Uuid, any, any-update_le, filter, All, All-map, ltb, ◌==◌, Bool-cases,
  Option-cases, arith,
}
use accord_rfc.Store.{KeyPackage, Db}
use accord_rfc.Store.Mailbox.{
  is_fresh, older, oldest, consume, claim_one, claim_each, claim_key_packages_for_user,
}

-- A package with this id can be claimed.
abbrev pub is_open : Uuid → List KeyPackage → Bool
is_open id = any (λ (p : KeyPackage). p.id == id && not p.consumed)

abbrev pub open_for : Uuid → List KeyPackage → Bool
open_for device_id = any (is_fresh device_id)

-- There is a package with this id, claimed or not.
abbrev pub has_id : Uuid → List KeyPackage → Bool
has_id id = any (λ (p : KeyPackage). p.id == id)

-- There is a package with this id, and it was claimed.
pub record Spent (id : Uuid) (rows : List KeyPackage) : Type 0 where
  pub there : has_id id rows ≡ true
  pub shut : is_open id rows ≡ false

-- No two of the packages share an id.
abbrev pub Once : List KeyPackage → Type 0
Once [] = Unit
Once (p ∷ ps) = All (λ (q : KeyPackage). q.id ≢ p.id) ps × Once ps

-- Every id is that of a package of one device.
abbrev pub AreKeys : (Uuid → Uuid) → List KeyPackage → Type 0
AreKeys owner = All (λ (p : KeyPackage). p.device_id ≡ owner p.id)

-- The row that a device gives.
pub record Found (device : Uuid) (rows : List KeyPackage) (p : KeyPackage) : Type 0 where
  pub listed : is_open p.id rows ≡ true
  pub fresh : is_fresh device p ≡ true

older-eq-some :
    (r : KeyPackage) (o : Option KeyPackage) (p : KeyPackage)
    → older r o ≡ some p
    → (r ≡ p) ⊎ (o ≡ some p)
older-eq-some r none p h = inl cc
older-eq-some r (some q) p h = elim (Bool-cases (ltb q.created_at r.created_at)) [
  | inl e ↦ inr (rw e at h)
  | inr e ↦ inl (let k : some r ≡ some p = rw e at h in cc)
]

pub oldest-Found :
    (device : Uuid) (rows : List KeyPackage) (p : KeyPackage)
    → oldest (filter (is_fresh device) rows) ≡ some p
    → Found device rows p
oldest-Found device [] p h = cc
oldest-Found device (r ∷ rows) p h = elim (Bool-cases (is_fresh device r)) [
  | inl e ↦ elim (older-eq-some r _ p (rw e at h)) [
    | inl same ↦
        subst (Found device (r ∷ rows)) same (record { listed = ground (arith, e); fresh = e })
    | inr later ↦ in_rest (oldest-Found device rows p later)
  ]
  | inr e ↦ in_rest (oldest-Found device rows p (rw e at h))
]
  where
    in_rest : Found device rows p → Found device (r ∷ rows) p
    in_rest f = record { listed = ground (arith, f.listed); fresh = f.fresh }

pub oldest-All :
    (P : KeyPackage → Type 0) (q : KeyPackage → Bool) (rows : List KeyPackage) (p : KeyPackage)
    → All P rows
    → oldest (filter q rows) ≡ some p
    → P p
oldest-All P q [] p h e = cc
oldest-All P q (r ∷ rows) p h e = elim (Bool-cases (q r)) [
  | inl t ↦ elim (older-eq-some r _ p (rw t at e)) [
    | inl same ↦ subst P same h.0
    | inr later ↦ oldest-All P q rows p h.1 later
  ]
  | inr f ↦ oldest-All P q rows p h.1 (rw f at e)
]

pub oldest-none :
    (device : Uuid) (rows : List KeyPackage)
    → oldest (filter (is_fresh device) rows) ≡ none
    → open_for device rows ≡ false
oldest-none device [] h = refl
oldest-none device (r ∷ rows) h = elim (Bool-cases (is_fresh device r)) [
  | inl e ↦ absurd (some_older (oldest (filter (is_fresh device) rows)) (rw e at h))
  | inr e ↦ ground (arith, oldest-none device rows (rw e at h))
]
  where
    some_older : (o : Option KeyPackage) → older r o ≡ none → ⊥
    some_older none k = cc
    some_older (some q) k = elim (Bool-cases (ltb q.created_at r.created_at)) [
      | inl e ↦ ground (arith, e)
      | inr e ↦ ground (arith, e)
    ]

closed : (id : Uuid) (rows : List KeyPackage) → is_open id (consume id rows) ≡ false
closed id [] = refl
closed id (r ∷ rows) = ground (arith, closed id rows)

consume-le :
    (id other : Uuid) (rows : List KeyPackage)
    → is_open other (consume id rows) ≡ true
    → is_open other rows ≡ true
consume-le id other rows =
    any-update_le (λ (p : KeyPackage). p.id == other && not p.consumed)
      (λ (p : KeyPackage). p.id == id) (λ (p : KeyPackage). record p { consumed = true }) rows
      λ p e k. ground arith

has_id-consume :
    (id other : Uuid) (rows : List KeyPackage) → has_id other (consume id rows) ≡ has_id other rows
has_id-consume id other [] = refl
has_id-consume id other (r ∷ rows) = ground (arith, has_id-consume id other rows)

has_open : (id : Uuid) (rows : List KeyPackage) → is_open id rows ≡ true → has_id id rows ≡ true
has_open id rows =
    any_mono (λ (p : KeyPackage). p.id == id && not p.consumed) (λ (p : KeyPackage). p.id == id)
      rows λ p h. ground arith

-- What a claim hands out could be claimed and can no longer be, and no two packages of it share an
-- id; nothing else is opened, and no package has gone.
pub record Claimed (rows : List KeyPackage) (claimed rows' : List KeyPackage) : Type 0 where
  pub handed : All (λ (p : KeyPackage). is_open p.id rows ≡ true) claimed
  pub spent : All (λ (p : KeyPackage). Spent p.id rows') claimed
  pub distinct : Once claimed
  pub stays : (id : Uuid) → has_id id rows ≡ true → has_id id rows' ≡ true
  pub kept : (id : Uuid) → is_open id rows' ≡ true → is_open id rows ≡ true

-- `claim_one`, by whether the device has a package.
module _ (device : Uuid) (rows : List KeyPackage) where
  pub none_lem :
      oldest (filter (is_fresh device) rows) ≡ none → claim_one device rows ≡ (none, rows)
  unfolding claim_one
  none_lem e = rw (claim_one, e) refl

  pub some_lem :
      (p : KeyPackage)
      → oldest (filter (is_fresh device) rows) ≡ some p
      → claim_one device rows ≡ (some p, consume p.id rows)
  unfolding claim_one
  some_lem p e = rw (claim_one, e) refl

pub still_closed :
    (id : Uuid) (rows rows' : List KeyPackage)
    → is_open id rows ≡ false
    → (is_open id rows' ≡ true → is_open id rows ≡ true)
    → is_open id rows' ≡ false
still_closed id rows rows' h k = elim (Bool-cases (is_open id rows')) [
  | inl e ↦ absurd (ground (arith, k e, h))
  | inr e ↦ e
]

Claimed-push :
    (device : Uuid) (rows : List KeyPackage) (p : KeyPackage) (more rows'' : List KeyPackage)
    → Found device rows p
    → Claimed (consume p.id rows) more rows''
    → Claimed rows (p ∷ more) rows''
Claimed-push device rows p more rows'' f c = record {
  handed = (f.listed, All-map _ _ more (λ q h. consume-le p.id q.id rows h) c.handed);
  spent = (
    record {
      there = stay p.id (has_open p.id rows f.listed);
      shut = still_closed p.id (consume p.id rows) rows'' (closed p.id rows) (c.kept p.id);
    },
    c.spent,
  );
  distinct = (
    All-map (λ (q : KeyPackage). is_open q.id (consume p.id rows) ≡ true) _ more
        (λ q was same.
          ground
            (arith, closed p.id rows, subst (λ i. is_open i (consume p.id rows) ≡ true) same was))
        c.handed,
    c.distinct,
  );
  stays = stay;
  kept = λ id h. consume-le p.id id rows (c.kept id h);
}
  where
    stay : (id : Uuid) → has_id id rows ≡ true → has_id id rows'' ≡ true
    stay id h = c.stays id (has_id-consume p.id id rows ∙ h)

claim_each-Claimed :
    (devices : List Uuid) (rows : List KeyPackage)
    → Claimed rows (claim_each devices rows).0 (claim_each devices rows).1
unfolding claim_each
claim_each-Claimed [] rows = record {
  handed = tt;
  spent = tt;
  distinct = tt;
  stays = λ id h. h;
  kept = λ id h. h;
}
claim_each-Claimed (device ∷ devices) rows =
    elim (Option-cases (oldest (filter (is_fresh device) rows))) [
      | inl e ↦ rw (none_lem device rows e) (claim_each-Claimed devices rows)
      | inr (p, e) ↦ rw (some_lem device rows p e) (
          Claimed-push device rows p _ _ (oldest-Found device rows p e)
            (claim_each-Claimed devices (consume p.id rows)))
    ]

-- A claim takes packages that could be claimed, and they cannot be claimed again.
pub claim-Claimed :
    (user_id : Uuid) (db : Db)
    → Claimed db.key_packages
        (claim_key_packages_for_user user_id db).0
        (claim_key_packages_for_user user_id db).1.key_packages
unfolding claim_key_packages_for_user
claim-Claimed user_id db = claim_each-Claimed _ db.key_packages
