-- ===== src/Authz.antt =====
-- crates/accord-server/src/authz.rs: effective permissions and the role hierarchy.
pub mod Effective
pub mod Hierarchy
mod Tests
use accord_rfc.Base.{ℕ, Bool, true, false, Uuid, ltb, ◌==◌, if◌then◌else◌}
use accord_rfc.Perms.{Permissions, all_permissions, allows}
use accord_rfc.Store.{Db}
use accord_rfc.Store.Users.{is_owner, is_user_guest}
use accord_rfc.Store.Roles.{member_permissions, highest_role_position}
use accord_rfc.Api.Error.{Result, permit}

-- `i32::MAX`
abbrev pub owner_rank : ℕ
owner_rank = 2147483647

-- `effective`
unfoldable pub effective : Db → Uuid → Permissions
effective db user_id =
    if is_owner db user_id
    then all_permissions
    else if is_user_guest db user_id
    then 0
    else member_permissions db user_id

-- `require`
unfoldable pub require : Db → Uuid → Permissions → Result (Unit {0})
require db user_id perm = permit (allows (effective db user_id) perm)

-- `rank`
unfoldable pub rank : Db → Uuid → ℕ
rank db user_id = if is_owner db user_id then owner_rank else highest_role_position db user_id

-- `can_act_on`
unfoldable pub can_act_on : Db → Uuid → Uuid → Bool
can_act_on db actor target =
    if actor == target
    then true
    else if is_owner db target
    then false
    else ltb (rank db target) (rank db actor)

-- `require_outranks`
unfoldable pub require_outranks : Db → Uuid → Uuid → Result (Unit {0})
require_outranks db actor target = permit (can_act_on db actor target)

-- `require_role_below`
unfoldable pub require_role_below : Db → Uuid → ℕ → Result (Unit {0})
require_role_below db actor role_position = permit (ltb role_position (rank db actor))
