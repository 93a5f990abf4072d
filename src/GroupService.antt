-- ===== src/GroupService.antt =====
-- crates/accord-server/src/groups/service.rs: the handlers on channels, members and bans.
pub mod Guard
pub mod Bans
pub mod Joining
pub mod Leaving
pub mod Removal
pub mod Creation
pub mod Private
pub mod Layout
pub mod Listing
mod Tests
use accord_rfc.Base.{
  ℕ, suc, ◌+◌, Bool, true, false, not, ◌&&◌, List, [], ◌∷◌, Option, none, some, Text, Uuid, text_eq,
  trim, is_empty, format, map, filter, ◌==◌, if◌then◌else◌,
}
use accord_rfc.Perms.{
  administrator, manage_server, manage_channels, kick_members, ban_members, union,
}
use accord_rfc.Store.{Group, Db}
use accord_rfc.Store.Users.{is_owner, is_user_guest}
use accord_rfc.Store.Groups
use accord_rfc.Store.Groups.{find_group, groups_for_user, group_ids_for_user}
use accord_rfc.Store.Moderation
use accord_rfc.Store.Moderation.{is_banned, record_audit, admin_device_ids}
use accord_rfc.Authz
use accord_rfc.Hub.{Hub, Severity, mod_alert, send_mod_alert, subscribe}
use accord_rfc.Guardrails.{
  ActionClass, ActionContext, Guardrails, GuardrailDecision, allow, allow_flagged, throttle, deny,
  check_at, as_str,
}
use accord_rfc.Api.Server.{Server, reads_db, modify_db, draw}
use accord_rfc.Api.Error.{
  Result, ok, err, Status, Code, ServerError, to_status, denied, bad_argument, missing, ok_or,
}
use accord_rfc.Api.Request.{
  Env, Claims, authenticate, caller, parse_uuid, require_group_id, require_user_id,
}
use accord_rfc.Api.Action.{Action, pure, lift, reads, gets, modify, for_each, ◌>>=◌, ◌>>◌}

-- `alert_admins`
abbrev pub alert_admins : Uuid → Text → Text → Text → Severity → ℕ → Server → Server
alert_admins actor action target reason severity now s =
    let devices = admin_device_ids s.db (union administrator manage_server) in
    record s {
      hub = send_mod_alert devices (mod_alert actor action target reason severity now) s.hub;
    }

-- The verdict, the reason and the severity of a notable decision.
abbrev pub verdict_of : GuardrailDecision → Option (Text × (Text × Severity))
verdict_of allow = none
verdict_of (throttle _ reason) = some ("throttle", (reason, Severity.hostile))
verdict_of (deny reason) = some ("deny", (reason, Severity.hostile))
verdict_of (allow_flagged reason) = some ("flagged", (reason, Severity.warn))

-- The audit row and the alert of a notable decision.
abbrev pub record_decision : Uuid → ActionClass → Text → GuardrailDecision → Server → Server
record_decision actor action target decision s = elim (verdict_of decision) [
  | none ↦ s
  | some (verdict, (reason, severity)) ↦
      alert_admins actor (as_str action) target reason severity (s.times (suc s.ticks)) (record s {
        db =
            record_audit (s.ids s.ticks) actor (as_str action) target verdict reason
              (s.times s.ticks) s.db;
        ticks = suc (suc s.ticks);
      })
]

abbrev pub decision_result : GuardrailDecision → Result (Unit {0})
decision_result allow = ok tt
decision_result (allow_flagged _) = ok tt
decision_result (throttle _ reason) =
    err (record { code = Code.resource_exhausted; message = reason })
decision_result (deny reason) = err (record { code = Code.failed_precondition; message = reason })

-- `for gid in group_ids_for_user(target) { remove_member(gid, target) }`
pub leave_all : List Uuid → Uuid → Db → Db
leave_all [] target db = db
leave_all (gid ∷ gids) target db = leave_all gids target (Groups.remove_member gid target db)

abbrev pub refuse : Code → Text → Bool → Result (Unit {0})
refuse code message true = err (record { code = code; message = message })
refuse code message false = ok tt

abbrev pub channel_kind_of : Text → Text
channel_kind_of s = if text_eq (trim s) "voice" then "voice" else "text"

-- The names of the public channels that the account is in.
abbrev pub channel_names : Db → Uuid → List Text
channel_names db who =
    map (λ (g : Group). g.name)
      (filter (λ (g : Group). text_eq g.kind "public") (groups_for_user db who))

module _ (env : Env) where
  -- `guard`
  pub guard : Uuid → ActionClass → Text → Option Text → List Text → Action Server Unit
  guard actor action target name recent_names s =
      let ctx : ActionContext = record {
        name = name;
        recent_names = recent_names;
        is_owner = is_owner s.db actor;
      } in
      let (decision, guardrails) =
        check_at env.to_lowercase actor action ctx (s.instants s.ticks) s.guardrails in
      (
        decision_result decision,
        record_decision actor action target decision
            (record s { guardrails = guardrails; ticks = suc s.ticks }),
      )

  -- `authenticate`, and the account of the token.
  abbrev group_caller : Option Text → Action Server (Claims × Uuid)
  group_caller header = do
    claims ← lift (authenticate env header)
    who ← lift (parse_uuid env claims.sub "invalid id in token")
    pure (claims, who)

  -- `Uuid::parse_str` of the loops over `member_ids`
  abbrev parse_member : Text → Action Server Uuid
  parse_member s = lift (parse_uuid env s "member id is not a valid UUID")

  -- `get_group`
  abbrev get_group : Uuid → Action Server Group
  get_group id =
      reads_db λ db. ok_or (find_group db id) (missing (format ("group " ∷ env.show id ∷ [])))

  abbrev require_perm : Uuid → ℕ → Action Server Unit
  require_perm who perm = reads_db λ db. Authz.require db who perm

  abbrev pub subscribe_device : Text → Uuid → Action Server Unit
  subscribe_device device_id group s = elim (env.parse_str device_id) [
    | some device ↦ (ok tt, record s { hub = subscribe device group s.hub })
    | none ↦ (ok tt, s)
  ]

  -- `create_public_group`
  pub create_public_group : Option Text → Text → Text → Text → Text → Action Server Uuid
  unfolding guard
  create_public_group header name description channel_kind category_id = do
    (claims, who) ← group_caller header
    lift (if is_empty (trim name) then bad_argument "group name is required" else ok tt)
    require_perm who manage_channels
    recent ← (λ s. (ok (channel_names s.db who), s))
    guard who ActionClass.create_channel (trim name) (some (trim name)) recent
    (id, now) ← draw
    modify_db (
        Groups.create_public_group id (trim name) (trim description) (channel_kind_of channel_kind)
          (trim category_id))
    modify_db (Groups.add_member id who "owner")
    subscribe_device claims.device_id id
    pure id

  -- The body of the loop of `add_members`.
  add_one : Uuid → Text → Action Server Unit
  add_one group_id value = do
    uid ← parse_member value
    reads_db (λ db. if is_user_guest db uid then denied else ok tt)
    reads_db
        (λ db. refuse Code.failed_precondition "user is banned from this server" (is_banned db uid))
    reads_db (λ db.
        if Groups.can_add db group_id uid
        then ok tt
        else err (to_status (ServerError.internal "database error")))
    modify_db (Groups.add_member group_id uid "member")

  -- `add_members`
  pub add_members : Option Text → Option Text → List Text → Action Server Unit
  unfolding add_one
  add_members header group_id member_ids = do
    who ← lift (caller env header "invalid id in token")
    reads_db (λ db. if is_user_guest db who then denied else ok tt)
    id ← lift (require_group_id env group_id)
    group ← get_group id
    lift (
        refuse Code.unimplemented "adding members to private groups requires an MLS Commit"
          (not (text_eq group.kind "public")))
    for_each member_ids (add_one id)

  -- The checks of `remove_members` on another account.
  remove_other : Uuid → Uuid → Action Server Unit
  unfolding guard
  remove_other who uid = do
    require_perm who kick_members
    guard who ActionClass.kick_member (env.show uid) none []

  -- The body of the loop of `remove_members`.
  remove_one : Uuid → Uuid → Text → Action Server Unit
  unfolding remove_other
  remove_one who group_id value = do
    uid ← parse_member value
    if uid == who then pure tt else remove_other who uid
    modify_db (Groups.remove_member group_id uid)

  -- `remove_members`
  pub remove_members : Option Text → Option Text → List Text → Action Server Unit
  unfolding remove_one
  remove_members header group_id member_ids = do
    who ← lift (caller env header "invalid id in token")
    id ← lift (require_group_id env group_id)
    for_each member_ids (remove_one who id)

  -- `delete_group`
  pub delete_group : Option Text → Option Text → Action Server Unit
  unfolding guard
  delete_group header group_id = do
    who ← lift (caller env header "invalid id in token")
    id ← lift (require_group_id env group_id)
    group ← get_group id
    lift (
        refuse Code.failed_precondition "private groups are not deleted through this RPC"
          (not (text_eq group.kind "public")))
    require_perm who manage_channels
    guard who ActionClass.delete_channel group.name none []
    modify_db (Groups.delete_group id)

  -- The checks of `kick_member` on another account.
  kick_other : Uuid → Uuid → Action Server Unit
  unfolding guard
  kick_other who target = do
    require_perm who kick_members
    reads_db (λ db. Authz.require_outranks db who target)
    guard who ActionClass.kick_member (env.show target) none []

  -- `kick_member`
  pub kick_member : Option Text → Option Text → Option Text → Action Server Unit
  unfolding kick_other
  kick_member header group_id user_id = do
    who ← lift (caller env header "invalid id in token")
    id ← lift (require_group_id env group_id)
    target ← lift (require_user_id env user_id)
    if target == who then pure tt else kick_other who target
    modify_db (Groups.remove_member id target)

  -- `ban_member`
  pub ban_member : Option Text → Option Text → Text → Action Server Unit
  unfolding guard
  ban_member header user_id reason = do
    who ← lift (caller env header "invalid id in token")
    target ← lift (require_user_id env user_id)
    require_perm who ban_members
    reads_db
        (λ db. refuse Code.failed_precondition "cannot ban the server owner" (is_owner db target))
    reads_db (λ db. Authz.require_outranks db who target)
    guard who ActionClass.ban_member (env.show target) none []
    modify_db (λ db. leave_all (group_ids_for_user db target) target db)
    (id, now) ← draw
    modify_db (Moderation.ban_user target who (trim reason) now)

  -- `unban_member`
  pub unban_member : Option Text → Option Text → Action Server Unit
  unban_member header user_id = do
    who ← lift (caller env header "invalid id in token")
    target ← lift (require_user_id env user_id)
    require_perm who ban_members
    modify_db (Moderation.unban_user target)
