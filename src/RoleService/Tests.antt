-- ===== src/RoleService/Tests.antt =====
-- Instances of the theorems on `RoleService`: the owner 1, a moderator 2 and a member 3.
use accord_rfc.Base.{
  ◌≡◌, refl, subst, true, false, List, [], ◌∷◌, Option, some, Text, Uuid, ◌≤◌, arith,
}
use accord_rfc.Perms.{is_admin, all_permissions, allows}
use accord_rfc.Store.{Db}
use accord_rfc.Store.Users.{is_owner, is_user_guest}
use accord_rfc.Store.Roles
use accord_rfc.Store.Roles.{highest_role_position, has_role, member_permissions, get_role}
use accord_rfc.Store.Roles.Ranks.{Above}
use accord_rfc.Store.Roles.Keys.{Keyed}
use accord_rfc.Authz.{effective, rank, require, require_role_below, require_outranks, can_act_on}
use accord_rfc.Api.Error.{ok}
use accord_rfc.Api.Request.{caller, require_id}
use accord_rfc.Api.Examples.{tally}
use accord_rfc.Store.Examples.{tavern}
use accord_rfc.RoleService.{
  Call, serve, perform, assign_role, delete_role, guard_admin_escalation, assign_role_call,
  delete_role_call,
}
use accord_rfc.RoleService.History.{SentBy, rank-serve, no_escalation}

-- Bob makes Cid a helper, and then tries to delete his own role.
abbrev requests : List (Option Text × Call)
requests =
    (some "Bearer ii", assign_role_call (some "iii") "iiiiiiiiiii")
    ∷ (some "ii", delete_role_call "iiiiiiiiiiii")
    ∷ []

sent_by_bob :
    (who : Uuid) → caller tally (some "Bearer ii") "invalid user id in token" ≡ ok who → 2 ≡ who
unfolding caller
sent_by_bob who e = ground arith

sent_by_bob_too :
    (who : Uuid) → caller tally (some "ii") "invalid user id in token" ≡ ok who → 2 ≡ who
unfolding caller
sent_by_bob_too who e = ground arith

bob_rank : rank tavern 2 ≡ 3
unfolding rank is_owner highest_role_position
bob_rank = refl

bob_plain : is_admin (effective tavern 2) ≡ false
unfolding is_admin effective is_owner is_user_guest member_permissions
bob_plain = refl

-- What the requests leave; the line lets the tests compute it.
left : Db
unfolding serve perform assign_role delete_role caller require_id require_role_below
    require_outranks require can_act_on guard_admin_escalation allows is_admin effective rank
    is_owner is_user_guest member_permissions highest_role_position get_role all_permissions
    Roles.assign_role
left = serve tally requests tavern

cid_served : (rank left 3 ≡ 1) × (rank left 2 ≡ 3) × (rank left 1 ≡ 2147483647)
unfolding left
cid_served = (refl, refl, refl)

tavern-Keyed : Keyed tavern
tavern-Keyed = omega arith

ann_stays : is_admin (effective (serve tally requests tavern) 1) ≡ true
unfolding left
ann_stays = refl

bob_low : (who : Uuid) → SentBy tally (some "Bearer ii") who → rank tavern who ≤ 3
bob_low who sent = subst (λ w. rank tavern w ≤ 3) (sent_by_bob who sent) (rw bob_rank (omega arith))

bob_low_too : (who : Uuid) → SentBy tally (some "ii") who → rank tavern who ≤ 3
bob_low_too who sent =
    subst (λ w. rank tavern w ≤ 3) (sent_by_bob_too who sent) (rw bob_rank (omega arith))

plain : (who : Uuid) → SentBy tally (some "Bearer ii") who → is_admin (effective tavern who) ≡ false
plain who sent = subst (λ w. is_admin (effective tavern w) ≡ false) (sent_by_bob who sent) bob_plain

plain_too : (who : Uuid) → SentBy tally (some "ii") who → is_admin (effective tavern who) ≡ false
plain_too who sent =
    subst (λ w. is_admin (effective tavern w) ≡ false) (sent_by_bob_too who sent) bob_plain

rank-serve_example : Above 3 (rank tavern 3) (rank (serve tally requests tavern) 3)
rank-serve_example =
    rank-serve tally 3 requests tavern 3 tavern-Keyed (tt, (tt, tt)) (bob_low, (bob_low_too, tt))

no_escalation_example : is_admin (effective tavern 1) ≡ true
no_escalation_example =
    no_escalation tally requests tavern 1 tavern-Keyed (tt, (tt, tt)) (plain, (plain_too, tt))
      ann_stays

sent : caller tally (some "Bearer ii") "invalid user id in token" ≡ ok 2
unfolding caller
sent = refl
