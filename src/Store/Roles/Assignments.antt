-- ===== src/Store/Roles/Assignments.antt =====
-- Who holds a role, after each query that writes `member_roles`.
use accord_rfc.Base.{
  ◌≡◌, refl, Bool, not, ◌&&◌, ◌||◌, List, [], ◌∷◌, ◌++◌, Uuid, any, any-append, filter, ◌==◌, arith,
}
use accord_rfc.Store.{MemberRole, Db}
use accord_rfc.Store.Roles
use accord_rfc.Store.Roles.{has_role}

module _ (u r : Uuid) where
  abbrev pairs : MemberRole → Bool
  pairs m = m.user_id == u && m.role_id == r

  any-dropped_role :
      (id : Uuid) (ms : List MemberRole)
      → any pairs (filter (λ (m : MemberRole). not (m.role_id == id)) ms)
        ≡ (any pairs ms && not (id == r))
  any-dropped_role id [] = refl
  any-dropped_role id (m ∷ ms) = ground (arith, any-dropped_role id ms)

  any-dropped_pair :
      (user id : Uuid) (ms : List MemberRole)
      → any pairs (filter (λ (m : MemberRole). not (m.user_id == user && m.role_id == id)) ms)
        ≡ (any pairs ms && not (user == u && id == r))
  any-dropped_pair user id [] = refl
  any-dropped_pair user id (m ∷ ms) = ground (arith, any-dropped_pair user id ms)

  pub has_role-delete_role :
      (id : Uuid) (db : Db)
      → has_role (Roles.delete_role id db) u r ≡ (has_role db u r && not (id == r))
  unfolding Roles.delete_role has_role
  has_role-delete_role id db = any-dropped_role id db.member_roles

  pub has_role-unassign_role :
      (user id : Uuid) (db : Db)
      → has_role (Roles.unassign_role user id db) u r
        ≡ (has_role db u r && not (user == u && id == r))
  unfolding Roles.unassign_role has_role
  has_role-unassign_role user id db = any-dropped_pair user id db.member_roles

  has_role-appended :
      (m : MemberRole) (db : Db)
      → has_role (record db { member_roles = db.member_roles ++ m ∷ [] }) u r
        ≡ (has_role db u r || pairs m)
  unfolding has_role
  has_role-appended m db = ground (arith, any-append pairs db.member_roles (m ∷ []))

  pub has_role-assign_role :
      (user id : Uuid) (db : Db)
      → has_role (Roles.assign_role user id db) u r ≡ (has_role db u r || (user == u && id == r))
  unfolding Roles.assign_role
  has_role-assign_role user id db =
      ground (arith, has_role-appended (record { user_id = user; role_id = id }) db)
