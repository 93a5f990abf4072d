-- ===== src/Authz/Tests.antt =====
-- Instances of the theorems on the hierarchy: the owner 1 above 2, a moderator above 3.
use accord_rfc.Base.{ℕ, ◌≡◌, ◌≢◌, refl, ◌↔◌, true, false, arith, ◌^◌}
use accord_rfc.Store.Users.{is_owner}
use accord_rfc.Store.Roles.{highest_role_position}
use accord_rfc.Store.Examples.{tavern}
use accord_rfc.Authz.{rank, can_act_on, require}
use accord_rfc.Authz.Effective.{granted, require_iff}
use accord_rfc.Authz.Hierarchy.{can_act_on_order}
use accord_rfc.Api.Error.{ok}

owner_over_moderator : can_act_on tavern 1 2 ≡ true
unfolding can_act_on rank is_owner highest_role_position
owner_over_moderator = refl

moderator_over_member : can_act_on tavern 2 3 ≡ true
unfolding can_act_on rank is_owner highest_role_position
moderator_over_member = refl

can_act_on_order_example :
    (can_act_on tavern 2 1 ≡ false) × (◌≢◌ {A = ℕ} 1 3) × (can_act_on tavern 1 3 ≡ true)
can_act_on_order_example =
    can_act_on_order tavern 1 2 3 (omega arith) (omega arith) owner_over_moderator
      moderator_over_member

require_iff_example : (require tavern 2 (2 ^ 5) ≡ ok tt) ↔ (granted tavern 2 5 ≡ true)
require_iff_example = require_iff tavern 2 5
