-- ===== src/RoleService/Changes.antt =====
-- What the handlers of `RoleService` may do to the database: nothing, or one permitted change.
use accord_rfc.Base.{
  ℕ, ◌<◌, ◌≡◌, ◌≢◌, ◌⊎◌, inl, inr, refl, All, true, false, List, Option, some, Text, Uuid, arith,
  ◌+◌, trim, ==_refl, find-append_last, find-update,
}
use accord_rfc.Perms.{Permissions, manage_roles}
use accord_rfc.Store.{Role, RoleWrite, MemberRole, Db}
use accord_rfc.Store.Roles.Keys.{Unused}
use accord_rfc.Store.Roles
use accord_rfc.Store.Roles.{get_role}
use accord_rfc.Authz.{rank, can_act_on, require, require_outranks, require_role_below}
use accord_rfc.Api.Error.{Result, ok, err, Status, ok_or}
use accord_rfc.Api.Request.{Env, caller, parse_uuid, require_id}
use accord_rfc.Api.Action.{Action, continue}
use accord_rfc.RoleService
use accord_rfc.RoleService.{Call, perform}

-- The checks of the handlers, by what they establish.
abbrev pub Manages : Db → Uuid → Type 0
Manages db who = require db who manage_roles ≡ ok tt

abbrev pub Guarded : Db → Uuid → Permissions → Type 0
Guarded db who perms = RoleService.guard_admin_escalation db who perms ≡ ok tt

-- No role and no assignment has the id: what a uuid that was just drawn promises.
pub record IsFresh (id : Uuid) (db : Db) : Type 0 where
  pub unused : Unused id db.roles
  pub unassigned : All (λ (m : MemberRole). m.role_id ≢ id) db.member_roles

-- A change of the roles that `who` may make.
pub data Change (who : Uuid) (db : Db) (db' : Db) : Type 0 where
  create :
      (fresh : Uuid) (write : RoleWrite)
      → IsFresh fresh db
      → Manages db who
      → Guarded db who write.permissions
      → db' ≡ Roles.create_role fresh write db
      → Change who db db'
  update :
      (id : Uuid) (role : Role) (write : RoleWrite)
      → Manages db who
      → get_role db id ≡ some role
      → role.position < rank db who
      → Guarded db who write.permissions
      → db' ≡ Roles.update_role id write db
      → Change who db db'
  delete :
      (id : Uuid) (role : Role)
      → Manages db who
      → get_role db id ≡ some role
      → role.is_default ≡ false
      → role.position < rank db who
      → db' ≡ Roles.delete_role id db
      → Change who db db'
  reorder :
      (ids : List Uuid)
      → Manages db who
      → RoleService.check_order db (rank db who) ids ≡ ok tt
      → db' ≡ Roles.reorder_roles ids db
      → Change who db db'
  assign :
      (user id : Uuid) (role : Role)
      → Manages db who
      → get_role db id ≡ some role
      → Guarded db who role.permissions
      → role.position < rank db who
      → can_act_on db who user ≡ true
      → db' ≡ Roles.assign_role user id db
      → Change who db db'
  unassign :
      (user id : Uuid) (role : Role)
      → Manages db who
      → get_role db id ≡ some role
      → role.position < rank db who
      → can_act_on db who user ≡ true
      → db' ≡ Roles.unassign_role user id db
      → Change who db db'

-- What a handler has done for the account that called it, by how it ended.
abbrev pub Outcome : {A : Type 0} → Uuid → Db → Result A × Db → Type 0
Outcome who db (ok _, db') = Change who db db'
Outcome who db (err _, db') = db' ≡ db

-- The same as a family, which determines its arguments.
record Sound {A : Type 0} (who : Uuid) (db : Db) (p : Result A × Db) : Type 0 where
  outcome : Outcome who db p

-- A step that only reads: where it fails nothing has changed.
step :
    {A B : Type 0} {who : Uuid} {db : Db} (r : Result A) (f : A → Action Db B)
    → ((a : A) → r ≡ ok a → Sound who db (f a db))
    → Sound who db (continue f r db)
step (ok a) f next = next a refl
step (err e) f next = record { outcome = refl }

below :
    (db : Db) (who : Uuid) (n : ℕ) (u : Unit {0})
    → require_role_below db who n ≡ ok u
    → n < rank db who
unfolding require_role_below
below db who n u h = ground arith

outranked :
    (db : Db) (who user : Uuid) (u : Unit {0})
    → require_outranks db who user ≡ ok u
    → can_act_on db who user ≡ true
unfolding require_outranks
outranked db who user u h = ground arith

-- The row that the store has just written is found again.
get_role-create_role :
    (fresh : Uuid) (write : RoleWrite) (db : Db)
    → (r : Role) × (get_role (Roles.create_role fresh write db) fresh ≡ some r)
unfolding Roles.create_role get_role
get_role-create_role fresh write db =
    find-append_last _ db.roles (Roles.new_role fresh write (Roles.max_position db.roles + 1))
      (==_refl fresh)

get_role-update_role :
    (id : Uuid) (write : RoleWrite) (db : Db) {role : Role}
    → get_role db id ≡ some role
    → (r : Role) × (get_role (Roles.update_role id write db) id ≡ some r)
unfolding Roles.update_role get_role
get_role-update_role id write db {role} h =
    (Roles.written write role, find-update _ (Roles.written write) db.roles (λ r. refl) h)

-- A handler that ends by reading back the row.
finish :
    {who : Uuid} {db : Db} (db' : Db) (id : Uuid)
    → (r : Role) × (get_role db' id ≡ some r)
    → Change who db db'
    → Sound who db (RoleService.fetch_role id db')
finish db' id (r, e) c = rw e (record { outcome = c })

found :
    (db : Db) (id : Uuid) (role : Role)
    → ok_or (get_role db id) RoleService.role_missing ≡ ok role
    → get_role db id ≡ some role
found db id role h = ground arith

not_default : (role : Role) → RoleService.refuse_default role ≡ ok tt → role.is_default ≡ false
not_default role h = ground arith

module _ (env : Env) (header : Option Text) (who : Uuid) (db : Db)
    (known : caller env header "invalid user id in token" ≡ ok who) where
  create_role-Sound :
      (fresh : Uuid) (req : RoleService.RoleRequest)
      → IsFresh fresh db
      → Sound who db (RoleService.create_role env header fresh req db)
  unfolding RoleService.create_role
  create_role-Sound fresh req free = rw known (
      step (require db who manage_roles) _ λ _ e1.
        step (RoleService.parse_perms req.permissions) _ λ perms e2.
          step (RoleService.guard_admin_escalation db who perms) _ λ _ e3.
            step (RoleService.permit_name (trim req.name)) _ λ _ e4.
              let write : RoleWrite = RoleService.role_write (trim req.name) perms req in
              finish (Roles.create_role fresh write db) fresh (get_role-create_role fresh write db)
                (create fresh write free e1 e3 refl))

  update_role-Sound :
      (req : RoleService.RoleRequest) → Sound who db (RoleService.update_role env header req db)
  unfolding RoleService.update_role
  update_role-Sound req = rw known (
      step (require db who manage_roles) _ λ _ e1.
        step (parse_uuid env req.id "invalid role id") _ λ id e2.
          step (RoleService.parse_perms req.permissions) _ λ perms e3.
            step (RoleService.guard_admin_escalation db who perms) _ λ _ e4.
              step (ok_or (get_role db id) RoleService.role_missing) _ λ role e5.
                step (require_role_below db who role.position) _ λ _ e6.
                  let write : RoleWrite = RoleService.role_write (trim req.name) perms req in
                  finish (Roles.update_role id write db) id
                    (get_role-update_role id write db (found db id role e5))
                    (update id role write e1 (found db id role e5)
                      (below db who role.position tt e6) e4 refl))

  delete_role-Sound :
      (role_id : Text) → Sound who db (RoleService.delete_role env header role_id db)
  unfolding RoleService.delete_role
  delete_role-Sound role_id = rw known (
      step (require db who manage_roles) _ λ _ e1.
        step (parse_uuid env role_id "invalid role id") _ λ id e2.
          step (ok_or (get_role db id) RoleService.role_missing) _ λ role e3.
            step (RoleService.refuse_default role) _ λ _ e4.
              step (require_role_below db who role.position) _ λ _ e5. record {
                outcome =
                    delete id role e1 (found db id role e3) (not_default role e4)
                      (below db who role.position tt e5) refl;
              })

  reorder_roles-Sound :
      (role_ids : List Text) → Sound who db (RoleService.reorder_roles env header role_ids db)
  unfolding RoleService.reorder_roles
  reorder_roles-Sound role_ids = rw known (
      step (require db who manage_roles) _ λ _ e1.
        step (RoleService.parse_role_ids env role_ids) _ λ ids e2.
          step (RoleService.check_order db (rank db who) ids) _
            λ _ e3. record { outcome = reorder ids e1 e3 refl })

  assign_role-Sound :
      (user_id : Option Text) (role_id : Text)
      → Sound who db (RoleService.assign_role env header user_id role_id db)
  unfolding RoleService.assign_role
  assign_role-Sound user_id role_id = rw known (
      step (require db who manage_roles) _ λ _ e1.
        step (require_id env user_id "user_id is required" "invalid user id") _ λ user e2.
          step (parse_uuid env role_id "invalid role id") _ λ id e3.
            step (ok_or (get_role db id) RoleService.role_missing) _ λ role e4.
              step (RoleService.guard_admin_escalation db who role.permissions) _ λ _ e5.
                step (require_role_below db who role.position) _ λ _ e6.
                  step (require_outranks db who user) _ λ _ e7. record {
                    outcome =
                        assign user id role e1 (found db id role e4) e5
                          (below db who role.position tt e6) (outranked db who user tt e7) refl;
                  })

  unassign_role-Sound :
      (user_id : Option Text) (role_id : Text)
      → Sound who db (RoleService.unassign_role env header user_id role_id db)
  unfolding RoleService.unassign_role
  unassign_role-Sound user_id role_id = rw known (
      step (require db who manage_roles) _ λ _ e1.
        step (require_id env user_id "user_id is required" "invalid user id") _ λ user e2.
          step (parse_uuid env role_id "invalid role id") _ λ id e3.
            step (ok_or (get_role db id) RoleService.role_missing) _ λ role e4.
              step (require_role_below db who role.position) _ λ _ e5.
                step (require_outranks db who user) _ λ _ e6. record {
                  outcome =
                      unassign user id role e1 (found db id role e4)
                        (below db who role.position tt e5) (outranked db who user tt e6) refl;
                })

-- What a request has done: nothing, or one permitted change.
abbrev pub Permitted : Uuid → Db → Db → Type 0
Permitted who db db' = (db' ≡ db) ⊎ Change who db db'

-- A request is fresh if the id that it draws is.
abbrev pub IsFreshCall : Call → Db → Type 0
IsFreshCall (RoleService.create_role_call fresh _) db = IsFresh fresh db
IsFreshCall _ db = Unit

Sound-Permitted :
    {A : Type 0} {who : Uuid} {db : Db} (p : Result A × Db) → Sound who db p → Permitted who db p.1
Sound-Permitted (ok a, db') s = inr s.outcome
Sound-Permitted (err e, db') s = inl s.outcome

pub perform-Permitted :
    (env : Env) (header : Option Text) (call : Call) (who : Uuid) (db : Db)
    → caller env header "invalid user id in token" ≡ ok who
    → IsFreshCall call db
    → Permitted who db (perform env header call db)
unfolding RoleService.perform
perform-Permitted env header (RoleService.create_role_call fresh req) who db known free =
    Sound-Permitted _ (create_role-Sound env header who db known fresh req free)
perform-Permitted env header (RoleService.update_role_call req) who db known free =
    Sound-Permitted _ (update_role-Sound env header who db known req)
perform-Permitted env header (RoleService.delete_role_call id) who db known free =
    Sound-Permitted _ (delete_role-Sound env header who db known id)
perform-Permitted env header (RoleService.reorder_roles_call ids) who db known free =
    Sound-Permitted _ (reorder_roles-Sound env header who db known ids)
perform-Permitted env header (RoleService.assign_role_call user id) who db known free =
    Sound-Permitted _ (assign_role-Sound env header who db known user id)
perform-Permitted env header (RoleService.unassign_role_call user id) who db known free =
    Sound-Permitted _ (unassign_role-Sound env header who db known user id)

-- A request that does not say who sends it does nothing.
pub perform_anonymous :
    (env : Env) (header : Option Text) (call : Call) (e : Status) (db : Db)
    → caller env header "invalid user id in token" ≡ err e
    → perform env header call db ≡ db
unfolding RoleService.perform RoleService.create_role RoleService.update_role
    RoleService.delete_role RoleService.reorder_roles RoleService.assign_role
    RoleService.unassign_role
perform_anonymous env header (RoleService.create_role_call fresh req) e db h = ground arith
perform_anonymous env header _ e db h = ground arith
