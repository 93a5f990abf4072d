-- ===== src/Store/Roles/Thresholds.antt =====
-- The thresholds that a user's rank passes, after each query: they stay the same where the roles
-- that the query touches are below `bound`, and stay below it.
use accord_rfc.Base.{
  ℕ, suc, ◌≤◌, ◌<◌, ◌+◌, ◌≡◌, ◌≢◌, refl, ◌∙◌, Bool, true, false, not, ◌&&◌, List, [], ◌∷◌, Uuid,
  any, any-filter, any-append, any-update, any-update_on, any_cong, ltb, ◌==◌, All, All-map,
  All-update, arith, member, length,
}
use accord_rfc.Store.{Role, RoleWrite, MemberRole, Db}
use accord_rfc.Store.Roles
use accord_rfc.Store.Roles.{
  has_role, set_position, is_movable, moved, reorder_rows, written, new_role,
}
use accord_rfc.Store.Roles.Assignments.{
  has_role-delete_role, has_role-unassign_role, has_role-assign_role,
}
use accord_rfc.Store.Roles.Ranks.{holds_above}

-- Each row with the id is below the bound.
abbrev pub IdBelow : ℕ → Uuid → List Role → Type 0
IdBelow bound id = All λ (r : Role). r.id ≡ id → r.position < bound

-- Each row that `reorder_roles` may move is below the bound.
abbrev pub Movable : ℕ → List Uuid → List Role → Type 0
Movable bound ids =
    All λ (r : Role). member r.id ids ≡ true → r.is_default ≡ false → r.position < bound

pub assign_role-roles : (user id : Uuid) (db : Db) → (Roles.assign_role user id db).roles ≡ db.roles
unfolding Roles.assign_role
assign_role-roles user id db = ground arith

module _ (u : Uuid) (t : ℕ) where
  pub holds_above-update_role :
      (id : Uuid) (write : RoleWrite) (db : Db)
      → holds_above (Roles.update_role id write db) u t ≡ holds_above db u t
  unfolding Roles.update_role has_role
  holds_above-update_role id write db = any-update _ _ (written write) db.roles (λ r _. refl)

  unassigned-has_role :
      (id : Uuid) (ms : List MemberRole)
      → All (λ (m : MemberRole). m.role_id ≢ id) ms
      → any (λ (m : MemberRole). m.user_id == u && m.role_id == id) ms ≡ false
  unassigned-has_role id [] h = refl
  unassigned-has_role id (m ∷ ms) h = ground (arith, unassigned-has_role id ms h.1, h.0)

  pub holds_above-create_role :
      (id : Uuid) (write : RoleWrite) (db : Db)
      → All (λ (m : MemberRole). m.role_id ≢ id) db.member_roles
      → holds_above (Roles.create_role id write db) u t ≡ holds_above db u t
  unfolding Roles.create_role has_role
  holds_above-create_role id write db h = ground (
    arith,
    any-append (λ (r : Role). has_role db u r.id && ltb t r.position) db.roles
        (new_role id write (Roles.max_position db.roles + 1) ∷ []),
    unassigned-has_role id db.member_roles h,
  )

  module _ (bound : ℕ) (high : bound ≤ t + 1) where
    pub holds_above-delete_role :
        (id : Uuid) (db : Db)
        → IdBelow bound id db.roles
        → holds_above (Roles.delete_role id db) u t ≡ holds_above db u t
    unfolding Roles.delete_role
    holds_above-delete_role id db low =
        any-filter (λ (r : Role). has_role (Roles.delete_role id db) u r.id && ltb t r.position)
          (λ (r : Role). not (r.id == id && not r.is_default)) db.roles
        ∙ any_cong _ _ _ db.roles low
            (λ r below. ground (arith, has_role-delete_role u r.id id db, below))

    pub holds_above-assign_role :
        (user id : Uuid) (db : Db)
        → IdBelow bound id db.roles
        → holds_above (Roles.assign_role user id db) u t ≡ holds_above db u t
    holds_above-assign_role user id db low = simp (assign_role-roles user id db) (
        any_cong _ _ _ db.roles low
          (λ r below. ground (arith, has_role-assign_role u r.id user id db, below)))

    pub holds_above-unassign_role :
        (user id : Uuid) (db : Db)
        → IdBelow bound id db.roles
        → holds_above (Roles.unassign_role user id db) u t ≡ holds_above db u t
    unfolding Roles.unassign_role
    holds_above-unassign_role user id db low =
        any_cong _ _ _ db.roles low
          (λ r below. ground (arith, has_role-unassign_role u r.id user id db, below))

    module _ (db : Db) where
      abbrev passes : Role → Bool
      passes r = has_role db u r.id && ltb t r.position

      abbrev CanMove : List Uuid → Role → Type 0
      CanMove ids r = member r.id ids ≡ true → r.is_default ≡ false → r.position < bound

      set_position-passes :
          (id : Uuid) (ids : List Uuid) (position : ℕ) (rs : List Role)
          → position < bound
          → Movable bound (id ∷ ids) rs
          → any passes (set_position id position rs) ≡ any passes rs
      set_position-passes id ids position rs new low =
          any-update_on _ passes (is_movable id) (moved position) rs low
            (λ r below hit. ground (arith, below, new))

      set_position-Movable :
          (id : Uuid) (ids : List Uuid) (position : ℕ) (rs : List Role)
          → position < bound
          → Movable bound (id ∷ ids) rs
          → Movable bound ids (set_position id position rs)
      set_position-Movable id ids position rs new low =
          All-update (CanMove ids) (is_movable id) (moved position) rs (λ r hit below _ _. new)
            (All-map _ (CanMove ids) rs (λ r below among. below (ground (arith, among))) low)

      reorder_rows-passes :
          (ids : List Uuid) (rs : List Role)
          → length ids < bound
          → Movable bound ids rs
          → any passes (reorder_rows ids rs) ≡ any passes rs
      unfolding reorder_rows
      reorder_rows-passes [] rs new low = refl
      reorder_rows-passes (id ∷ ids) rs new low =
          reorder_rows-passes ids _ (omega arith)
            (set_position-Movable id ids (suc (length ids)) rs new low)
          ∙ set_position-passes id ids (suc (length ids)) rs new low

    pub holds_above-reorder_roles :
        (ids : List Uuid) (db : Db)
        → length ids < bound
        → Movable bound ids db.roles
        → holds_above (Roles.reorder_roles ids db) u t ≡ holds_above db u t
    unfolding Roles.reorder_roles has_role
    holds_above-reorder_roles ids db new low = reorder_rows-passes db ids db.roles new low
