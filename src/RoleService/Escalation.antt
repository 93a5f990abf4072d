-- ===== src/RoleService/Escalation.antt =====
-- ADMINISTRATOR under the handlers of `RoleService`: who is none gives it to nobody.
use accord_rfc.Base.{
  suc, ◌+◌, ◌≡◌, refl, sym, ◌∙◌, Bool, true, false, not, ◌&&◌, List, [], ◌∷◌, Uuid, length, any,
  any-append, any-filter, any_mono, any-update, any-update_le, any_cong, ◌==◌, arith, All,
}
use accord_rfc.Base.Bits.{has_bit}
use accord_rfc.Perms.{Permissions, is_admin}
use accord_rfc.Perms.Sets.{contains-pow}
use accord_rfc.Store.{Role, RoleWrite, Db}
use accord_rfc.Store.Roles
use accord_rfc.Store.Roles.{get_role, has_role, reorder_rows, written, new_role, is_movable, moved}
use accord_rfc.Store.Roles.Keys.{Keyed, All-with_id}
use accord_rfc.Store.Roles.Assignments.{
  has_role-delete_role, has_role-unassign_role, has_role-assign_role,
}
use accord_rfc.Store.Roles.Thresholds.{assign_role-roles}
use accord_rfc.Authz.{effective}
use accord_rfc.Authz.Effective.{counts, some_role_has, is_admin-effective}
use accord_rfc.RoleService.{guard_admin_escalation}
use accord_rfc.RoleService.Changes.{
  Change, create, update, delete, reorder, assign, unassign, Guarded,
}
use accord_rfc.RoleService.Hierarchy.{users-kept, is_owner_of_users, is_user_guest_of_users}

is_admin-has_bit : (p : Permissions) → is_admin p ≡ has_bit 0 p
unfolding is_admin
is_admin-has_bit p = contains-pow p 0

-- What an account that is no administrator writes or grants has no ADMINISTRATOR.
Guarded-no_admin :
    (db : Db) (who : Uuid) (p : Permissions)
    → Guarded db who p
    → is_admin (effective db who) ≡ false
    → has_bit 0 p ≡ false
unfolding guard_admin_escalation
Guarded-no_admin db who p h e = ground (arith, is_admin-has_bit p)

module _ (u : Uuid) where
  abbrev grants : Db → Role → Bool
  grants db r = counts db u r && has_bit 0 r.permissions

  create_role-grants :
      (fresh : Uuid) (write : RoleWrite) (db : Db)
      → has_bit 0 write.permissions ≡ false
      → some_role_has (Roles.create_role fresh write db) u 0 ≡ some_role_has db u 0
  unfolding Roles.create_role has_role
  create_role-grants fresh write db none_new = ground (
    arith,
    any-append (grants db) db.roles (new_role fresh write (Roles.max_position db.roles + 1) ∷ []),
  )

  update_role-grants :
      (id : Uuid) (write : RoleWrite) (db : Db)
      → has_bit 0 write.permissions ≡ false
      → some_role_has (Roles.update_role id write db) u 0 ≡ true
      → some_role_has db u 0 ≡ true
  unfolding Roles.update_role has_role
  update_role-grants id write db none_new e =
      any-update_le (grants db) (λ (r : Role). r.id == id) (written write) db.roles
        (λ r _ h. absurd (ground arith)) e

  delete_role-grants :
      (id : Uuid) (db : Db)
      → some_role_has (Roles.delete_role id db) u 0 ≡ true
      → some_role_has db u 0 ≡ true
  unfolding Roles.delete_role
  delete_role-grants id db e =
      any_mono _ (grants db) db.roles (λ r h. ground (arith, has_role-delete_role u r.id id db))
        (sym (
            any-filter (grants (Roles.delete_role id db))
              (λ (r : Role). not (r.id == id && not r.is_default)) db.roles)
          ∙ e)

  reorder_rows-grants :
      (db : Db) (ids : List Uuid) (rs : List Role)
      → any (grants db) (reorder_rows ids rs) ≡ any (grants db) rs
  unfolding reorder_rows
  reorder_rows-grants db [] rs = refl
  reorder_rows-grants db (id ∷ ids) rs =
      reorder_rows-grants db ids _
      ∙ any-update (grants db) (is_movable id) (moved (suc (length ids))) rs (λ r _. refl)

  reorder_roles-grants :
      (ids : List Uuid) (db : Db)
      → some_role_has (Roles.reorder_roles ids db) u 0 ≡ some_role_has db u 0
  unfolding Roles.reorder_roles has_role
  reorder_roles-grants ids db = reorder_rows-grants db ids db.roles

  assign_role-grants :
      (user id : Uuid) (db : Db)
      → All (λ (r : Role). r.id ≡ id → has_bit 0 r.permissions ≡ false) db.roles
      → some_role_has (Roles.assign_role user id db) u 0 ≡ some_role_has db u 0
  assign_role-grants user id db none_new = simp (assign_role-roles user id db) (
      any_cong _ _ _ db.roles none_new
        (λ r lacks. ground (arith, has_role-assign_role u r.id user id db, lacks)))

  unassign_role-grants :
      (user id : Uuid) (db : Db)
      → some_role_has (Roles.unassign_role user id db) u 0 ≡ true
      → some_role_has db u 0 ≡ true
  unfolding Roles.unassign_role
  unassign_role-grants user id db e =
      any_mono _ (grants db) db.roles
        (λ r h. ground (arith, has_role-unassign_role u r.id user id db)) e

  grants-Change :
      {who : Uuid} {db db' : Db}
      → Keyed db
      → Change who db db'
      → is_admin (effective db who) ≡ false
      → some_role_has db' u 0 ≡ true
      → some_role_has db u 0 ≡ true
  unfolding get_role
  grants-Change {who} {db} key (create fresh write _ _ guarded e) plain h =
      sym (create_role-grants fresh write db (Guarded-no_admin db who _ guarded plain))
      ∙ (rw e at h)
  grants-Change {who} {db} key (update id role write _ _ _ guarded e) plain h =
      update_role-grants id write db (Guarded-no_admin db who _ guarded plain) (rw e at h)
  grants-Change {db} key (delete id role _ _ _ _ e) plain h = delete_role-grants id db (rw e at h)
  grants-Change {db} key (reorder ids _ _ e) plain h =
      sym (reorder_roles-grants ids db) ∙ (rw e at h)
  grants-Change {who} {db} key (assign user id role _ found guarded _ _ e) plain h =
      sym (
        assign_role-grants user id db (
          All-with_id (λ (r : Role). has_bit 0 r.permissions ≡ false) id db.roles {role = role} key
            found (Guarded-no_admin db who _ guarded plain)))
      ∙ (rw e at h)
  grants-Change {db} key (unassign user id role _ _ _ _ e) plain h =
      unassign_role-grants user id db (rw e at h)

-- A permitted change by an account that is no administrator makes nobody one.
pub is_admin-Change :
    {who : Uuid} {db db' : Db} (u : Uuid)
    → Keyed db
    → Change who db db'
    → is_admin (effective db who) ≡ false
    → is_admin (effective db' u) ≡ true
    → is_admin (effective db u) ≡ true
is_admin-Change {who} {db} {db'} u key c plain h = ground (
  arith,
  is_admin-effective db u,
  is_admin-effective db' u,
  is_owner_of_users db db' u (users-kept c),
  is_user_guest_of_users db db' u (users-kept c),
  grants-Change u key c plain,
)
