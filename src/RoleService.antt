-- ===== src/RoleService.antt =====
-- crates/accord-server/src/roles/service.rs: the handlers of `RoleService`, over the database.
pub mod Changes
pub mod Hierarchy
pub mod Escalation
pub mod History
mod Tests
use accord_rfc.Base.{
  ℕ, suc, ◌+◌, ◌-◌, Bool, true, false, not, ◌&&◌, ◌||◌, List, [], ◌∷◌, Option, none, some, Text,
  Uuid, trim, is_empty, length, ltb, leb, if◌then◌else◌,
}
use Prim.Native.String
use accord_rfc.Perms.{Permissions, manage_roles, is_admin, empty}
use accord_rfc.Perms.Decimal.{from_str, display}
use accord_rfc.Store.{Role, RoleWrite, Db}
use accord_rfc.Store.Users.{is_owner}
use accord_rfc.Store.Roles
use accord_rfc.Store.Roles.{get_role}
use accord_rfc.Authz
use accord_rfc.Authz.{effective, rank}
use accord_rfc.Api.Error.{
  Result, ok, err, ServerError, to_status, denied, bad_argument, missing, permit, ok_or,
}
use accord_rfc.Api.Request.{Env, caller, parse_uuid, require_id}
use accord_rfc.Api.Action.{Action, pure, lift, reads, gets, modify, ◌>>=◌, ◌>>◌}

-- `CreateRoleRequest`, and `UpdateRoleRequest` with its `id`.
pub record RoleRequest : Type 0 where
  pub id : Text
  pub name : Text
  pub permissions : Text
  pub color : Text
  pub icon : Text
  pub hoist : Bool
  pub mentionable : Bool

-- `parse_perms`
unfoldable pub parse_perms : Text → Result Permissions
parse_perms s =
    if is_empty (trim s)
    then ok empty
    else ok_or (from_str (trim s)) (bad_argument "bad permissions")

-- `guard_admin_escalation`
unfoldable pub guard_admin_escalation : Db → Uuid → Permissions → Result (Unit {0})
guard_admin_escalation db caller_id target =
    permit (not (is_admin target && not (is_admin (effective db caller_id))))

abbrev pub role_missing {ℓ} : {A : Type ℓ} → Result A
role_missing = missing "role"

abbrev pub role_write : Text → Permissions → RoleRequest → RoleWrite
role_write name perms req = record {
  name = name;
  permissions = perms;
  color = req.color;
  icon = req.icon;
  hoist = req.hoist;
  mentionable = req.mentionable;
}

-- The checks of `reorder_roles` on the ids that are left; the first of them gets the position
-- that is their number.
pub check_order : Db → ℕ → List Uuid → Result (Unit {0})
check_order db caller_rank [] = ok tt
check_order db caller_rank (id ∷ ids) =
    let rest = check_order db caller_rank ids in
    elim (get_role db id) [
      | none ↦ role_missing
      | some role ↦
          if role.is_default
          then bad_argument "the @everyone role cannot be reordered"
          else if leb caller_rank role.position || leb caller_rank (suc (length ids))
          then denied
          else rest
    ]

abbrev permit_name : Text → Result (Unit {0})
permit_name name = if is_empty name then bad_argument "role name is required" else ok tt

abbrev refuse_default : Role → Result (Unit {0})
refuse_default role =
    if role.is_default then bad_argument "cannot delete the @everyone role" else ok tt

abbrev fetch_role : Uuid → Action Db Role
fetch_role id = reads λ db. ok_or (get_role db id) role_missing

module _ (env : Env) where
  -- `RoleSvc::caller`
  abbrev role_caller : Option Text → Action Db Uuid
  role_caller header = lift (caller env header "invalid user id in token")

  abbrev parse_role_id : Text → Action Db Uuid
  parse_role_id s = lift (parse_uuid env s "invalid role id")

  -- `.map(parse_uuid).collect::<Result<_, _>>()`
  pub parse_role_ids : List Text → Result (List Uuid)
  parse_role_ids [] = ok []
  parse_role_ids (s ∷ ss) =
      let rest = parse_role_ids ss in
      elim (parse_uuid env s "invalid role id") [
        | ok id ↦ elim rest [ ok ids ↦ ok (id ∷ ids) | err e ↦ err e ]
        | err e ↦ err e
      ]

  -- `require_user_id`
  abbrev role_user_id : Option Text → Action Db Uuid
  role_user_id id = lift (require_id env id "user_id is required" "invalid user id")

  -- `create_role`, given the id that the store draws.
  pub create_role : Option Text → Uuid → RoleRequest → Action Db Role
  create_role header fresh req = do
    who ← role_caller header
    reads (λ db. Authz.require db who manage_roles)
    perms ← lift (parse_perms req.permissions)
    reads (λ db. guard_admin_escalation db who perms)
    lift (permit_name (trim req.name))
    modify (Roles.create_role fresh (role_write (trim req.name) perms req))
    fetch_role fresh

  -- `update_role`
  pub update_role : Option Text → RoleRequest → Action Db Role
  update_role header req = do
    who ← role_caller header
    reads (λ db. Authz.require db who manage_roles)
    id ← parse_role_id req.id
    perms ← lift (parse_perms req.permissions)
    reads (λ db. guard_admin_escalation db who perms)
    existing ← fetch_role id
    reads (λ db. Authz.require_role_below db who existing.position)
    modify (Roles.update_role id (role_write (trim req.name) perms req))
    fetch_role id

  -- `delete_role`
  pub delete_role : Option Text → Text → Action Db Unit
  delete_role header role_id = do
    who ← role_caller header
    reads (λ db. Authz.require db who manage_roles)
    id ← parse_role_id role_id
    role ← fetch_role id
    lift (refuse_default role)
    reads (λ db. Authz.require_role_below db who role.position)
    modify (Roles.delete_role id)

  -- `reorder_roles`
  pub reorder_roles : Option Text → List Text → Action Db Unit
  unfolding parse_role_ids check_order
  reorder_roles header role_ids = do
    who ← role_caller header
    reads (λ db. Authz.require db who manage_roles)
    ids ← lift (parse_role_ids role_ids)
    caller_rank ← gets (λ db. rank db who)
    reads (λ db. check_order db caller_rank ids)
    modify (Roles.reorder_roles ids)

  -- `assign_role`
  pub assign_role : Option Text → Option Text → Text → Action Db Unit
  assign_role header user_id role_id = do
    who ← role_caller header
    reads (λ db. Authz.require db who manage_roles)
    user ← role_user_id user_id
    id ← parse_role_id role_id
    role ← fetch_role id
    reads (λ db. guard_admin_escalation db who role.permissions)
    reads (λ db. Authz.require_role_below db who role.position)
    reads (λ db. Authz.require_outranks db who user)
    modify (Roles.assign_role user id)

  -- `unassign_role`
  pub unassign_role : Option Text → Option Text → Text → Action Db Unit
  unassign_role header user_id role_id = do
    who ← role_caller header
    reads (λ db. Authz.require db who manage_roles)
    user ← role_user_id user_id
    id ← parse_role_id role_id
    role ← fetch_role id
    reads (λ db. Authz.require_role_below db who role.position)
    reads (λ db. Authz.require_outranks db who user)
    modify (Roles.unassign_role user id)

  -- `get_my_permissions`
  pub get_my_permissions : Option Text → Action Db (Text × Bool)
  get_my_permissions header = do
    who ← role_caller header
    perms ← gets (λ db. effective db who)
    owner ← gets (λ db. is_owner db who)
    pure (display perms, owner)

-- A request that may change the roles, with the header that it comes with.
pub data Call : Type 0 where
  create_role_call : Uuid → RoleRequest → Call
  update_role_call : RoleRequest → Call
  delete_role_call : Text → Call
  reorder_roles_call : List Text → Call
  assign_role_call : Option Text → Text → Call
  unassign_role_call : Option Text → Text → Call

-- The database that a request leaves.
unfoldable pub perform : Env → Option Text → Call → Db → Db
perform env header (create_role_call fresh req) db = (create_role env header fresh req db).1
perform env header (update_role_call req) db = (update_role env header req db).1
perform env header (delete_role_call id) db = (delete_role env header id db).1
perform env header (reorder_roles_call ids) db = (reorder_roles env header ids db).1
perform env header (assign_role_call user id) db = (assign_role env header user id db).1
perform env header (unassign_role_call user id) db = (unassign_role env header user id db).1

-- The database that a sequence of requests leaves.
pub serve : Env → List (Option Text × Call) → Db → Db
serve env [] db = db
serve env ((header, call) ∷ calls) db = serve env calls (perform env header call db)
