-- ===== src/Store/Roles/Keys.antt =====
-- The primary key of `roles`: at most one row has an id, and each query that writes keeps it so.
use accord_rfc.Base.{
  ◌≡◌, ◌≢◌, refl, sym, ◌∙◌, subst, Bool, List, [], ◌∷◌, ◌++◌, some, Uuid, find, filter, update,
  ◌==◌, All, All-map, All-filter, All-append, All-update, arith, Bool-cases, inl, inr,
}
use accord_rfc.Store.{Role, RoleWrite, Db}
use accord_rfc.Store.Roles
use accord_rfc.Store.Roles.{get_role, set_position, reorder_rows, written, new_role}

-- No row has the id.
abbrev pub Unused : Uuid → List Role → Type 0
Unused id = All λ (r : Role). r.id ≢ id

-- No two rows have one id.
abbrev pub UniqueIds : List Role → Type 0
UniqueIds [] = Unit
UniqueIds (r ∷ rs) = Unused r.id rs × UniqueIds rs

module _ (P : Role → Type 0) (id : Uuid) where
  -- What holds of the row that a search by id finds holds of each row with that id.
  pub All-with_id :
      (rs : List Role) {role : Role}
      → UniqueIds rs
      → find (λ (r : Role). r.id == id) rs ≡ some role
      → P role
      → All (λ (r : Role). r.id ≡ id → P r) rs
  All-with_id [] h e p = tt
  All-with_id (r ∷ rs) {role} h e p = elim (Bool-cases (r.id == id)) [
    | inl same ↦ (
      λ _. subst P (ground arith) p,
      All-map _ _ rs (λ x other eq. absurd (other (ground arith))) h.0,
    )
    | inr differs ↦ (λ eq. absurd (ground arith), All-with_id rs {role = role} h.1 (ground arith) p)
  ]

module _ (p : Role → Bool) where
  filter-UniqueIds : (rs : List Role) → UniqueIds rs → UniqueIds (filter p rs)
  filter-UniqueIds [] h = tt
  filter-UniqueIds (r ∷ rs) h = elim (Bool-cases (p r)) [
    | inl e ↦ rw e (All-filter _ p rs h.0, filter-UniqueIds rs h.1)
    | inr e ↦ rw e (filter-UniqueIds rs h.1)
  ]

  -- An update that leaves the ids alone.
  module _ (f : Role → Role) (same_id : (r : Role) → (f r).id ≡ r.id) where
    Unused-update : (id : Uuid) (rs : List Role) → Unused id rs → Unused id (update p f rs)
    Unused-update id rs h =
        All-update (λ r. r.id ≢ id) p f rs (λ r _ ne eq. ne (sym (same_id r) ∙ eq)) h

    update-UniqueIds : (rs : List Role) → UniqueIds rs → UniqueIds (update p f rs)
    update-UniqueIds [] h = tt
    update-UniqueIds (r ∷ rs) h = elim (Bool-cases (p r)) [
      | inl e ↦ rw (e, same_id r) (Unused-update r.id rs h.0, update-UniqueIds rs h.1)
      | inr e ↦ rw e (Unused-update r.id rs h.0, update-UniqueIds rs h.1)
    ]

append-UniqueIds :
    (r : Role) (rs : List Role) → UniqueIds rs → Unused r.id rs → UniqueIds (rs ++ r ∷ [])
append-UniqueIds r [] h k = (tt, tt)
append-UniqueIds r (x ∷ rs) h k =
    (All-append _ rs (r ∷ []) h.0 (λ eq. k.0 (sym eq), tt), append-UniqueIds r rs h.1 k.1)

-- The key of the table.
abbrev pub Keyed : Db → Type 0
Keyed db = UniqueIds db.roles

pub create_role-Keyed :
    (fresh : Uuid) (write : RoleWrite) (db : Db)
    → Keyed db
    → Unused fresh db.roles
    → Keyed (Roles.create_role fresh write db)
unfolding Roles.create_role
create_role-Keyed fresh write db h k = append-UniqueIds _ db.roles h k

pub update_role-Keyed :
    (id : Uuid) (write : RoleWrite) (db : Db) → Keyed db → Keyed (Roles.update_role id write db)
unfolding Roles.update_role
update_role-Keyed id write db h = update-UniqueIds _ (written write) (λ r. refl) db.roles h

pub delete_role-Keyed : (id : Uuid) (db : Db) → Keyed db → Keyed (Roles.delete_role id db)
unfolding Roles.delete_role
delete_role-Keyed id db h = filter-UniqueIds _ db.roles h

reorder_rows-UniqueIds :
    (ids : List Uuid) (rs : List Role) → UniqueIds rs → UniqueIds (reorder_rows ids rs)
unfolding reorder_rows
reorder_rows-UniqueIds [] rs h = h
reorder_rows-UniqueIds (id ∷ ids) rs h =
    reorder_rows-UniqueIds ids _ (update-UniqueIds _ _ (λ r. refl) rs h)

pub reorder_roles-Keyed :
    (ids : List Uuid) (db : Db) → Keyed db → Keyed (Roles.reorder_roles ids db)
unfolding Roles.reorder_roles
reorder_roles-Keyed ids db h = reorder_rows-UniqueIds ids db.roles h
