-- ===== src/GroupService/Tests.antt =====
-- Instances of the theorems on `GroupService`: the owner 1, a moderator 2 and a member 3 in the
-- channel 20, where the moderator may ban and kick.
use accord_rfc.Base.{
  none, true, ◌↔◌, not, ◌&&◌, ◌||◌, leb, ◌+◌, ◌≡◌, refl, false, [], ◌∷◌, some, arith,
}
use accord_rfc.Store.Examples.{lounge}
use accord_rfc.Store.Users.{is_owner, is_user_guest}
use accord_rfc.Store.Roles.{highest_role_position, member_permissions}
use accord_rfc.Authz.{require, require_outranks, effective, can_act_on, rank}
use accord_rfc.Perms.{allows}
use accord_rfc.Guardrails.{check_at, new_guardrails, ActionClass, ActionContext}
use accord_rfc.Guardrails.Bucket.{try_take, available, one_token}
use accord_rfc.Hub.{empty_hub}
use accord_rfc.Api.Error.{ok}
use accord_rfc.Api.Request.{caller, require_user_id, require_group_id, authenticate, parse_uuid}
use accord_rfc.Api.Examples.{tally}
use accord_rfc.Api.Server.{Server}
use accord_rfc.GroupService.Layout.{create_category}
use accord_rfc.GroupService.Listing.{AllNew, CategoryOutcome, create_category-CategoryOutcome}
use accord_rfc.GroupService.{
  guard, ban_member, kick_member, add_members, delete_group, remove_members, create_public_group,
}
use accord_rfc.GroupService.Bans.{BanOutcome, ban_member-BanOutcome}
use accord_rfc.GroupService.Joining.{AddOutcome, add_members-AddOutcome}
use accord_rfc.GroupService.Guard.{guard_iff}
use accord_rfc.Guardrails.Limits.{left}
use accord_rfc.GroupService.Creation.{AllUnused, CreateOutcome, create_public_group-CreateOutcome}
use accord_rfc.Store.Groups.{find_group}
use accord_rfc.GroupService.Removal.{Removed, remove_members-Removed}
use accord_rfc.GroupService.Leaving.{
  KickOutcome, kick_member-KickOutcome, DeleteOutcome, delete_group-DeleteOutcome,
}

abbrev server : Server
server = record {
  db = lounge;
  hub = empty_hub;
  guardrails = new_guardrails false;
  registrations = λ ip. [];
  ids = λ n. 100 + n;
  instants = λ n. n;
  times = λ n. n;
  ticks = 0;
}

bob : caller tally (some "Bearer ii") "invalid id in token" ≡ ok 2
unfolding caller
bob = refl

cid : require_user_id tally (some "iii") ≡ ok 3
unfolding require_user_id
cid = refl

the_lounge : require_group_id tally (some "iiiiiiiiiiiiiiiiiiii") ≡ ok 20
unfolding require_group_id
the_lounge = refl

ban_member-BanOutcome_example :
    BanOutcome 2 3 lounge (ban_member tally (some "Bearer ii") (some "iii") "spam" server)
ban_member-BanOutcome_example =
    ban_member-BanOutcome tally (some "Bearer ii") (some "iii") "spam" server 2 3 bob cid

kick_member-KickOutcome_example :
    KickOutcome 2 20 3 lounge
      (kick_member tally (some "Bearer ii") (some "iiiiiiiiiiiiiiiiiiii") (some "iii") server)
kick_member-KickOutcome_example =
    kick_member-KickOutcome tally (some "Bearer ii") (some "iiiiiiiiiiiiiiiiiiii") (some "iii")
      server 2 20 3 bob the_lounge cid

add_members-AddOutcome_example :
    AddOutcome tally 2 20
      ("i" ∷ [])
      lounge
      (add_members tally (some "Bearer ii") (some "iiiiiiiiiiiiiiiiiiii") ("i" ∷ []) server)
add_members-AddOutcome_example =
    add_members-AddOutcome tally (some "Bearer ii") (some "iiiiiiiiiiiiiiiiiiii") ("i" ∷ []) server
      2 20 bob the_lounge

delete_group-DeleteOutcome_example :
    DeleteOutcome 2 20 lounge
      (delete_group tally (some "Bearer ii") (some "iiiiiiiiiiiiiiiiiiii") server)
delete_group-DeleteOutcome_example =
    delete_group-DeleteOutcome tally (some "Bearer ii") (some "iiiiiiiiiiiiiiiiiiii") server 2 20
      bob the_lounge

ban_passes : (ban_member tally (some "Bearer ii") (some "iii") "spam" server).0 ≡ ok tt
unfolding ban_member guard caller require_user_id is_owner is_user_guest require require_outranks
    effective allows check_at try_take available can_act_on rank highest_role_position
    member_permissions
ban_passes = refl

kick_passes :
    (kick_member tally (some "Bearer ii") (some "iiiiiiiiiiiiiiiiiiii") (some "iii") server).0
    ≡ ok tt
unfolding kick_member guard caller require_user_id is_owner is_user_guest require require_outranks
    effective allows check_at try_take available can_act_on rank highest_role_position
    member_permissions require_group_id
kick_passes = refl

remove_members-Removed_example :
    Removed tally 2 20
      ("iii" ∷ [])
      lounge
      (remove_members tally (some "Bearer ii") (some "iiiiiiiiiiiiiiiiiiii") ("iii" ∷ []) server)
remove_members-Removed_example =
    remove_members-Removed tally (some "Bearer ii") (some "iiiiiiiiiiiiiiiiiiii") ("iii" ∷ [])
      server 2 20 bob the_lounge

token : authenticate tally (some "Bearer ii") ≡ ok (record { sub = "ii"; device_id = "ii" })
unfolding authenticate
token = refl

subject : parse_uuid tally "ii" "invalid id in token" ≡ ok 2
unfolding parse_uuid
subject = refl

drawn_unused : AllUnused server
unfolding find_group
drawn_unused n = ground arith

create_public_group-CreateOutcome_example :
    CreateOutcome 2 lounge (create_public_group tally (some "Bearer ii") "news" "" "text" "" server)
create_public_group-CreateOutcome_example =
    create_public_group-CreateOutcome tally (some "Bearer ii") "news" "" "text" "" server
      (record { sub = "ii"; device_id = "ii" }) 2 token subject drawn_unused

guard_iff_example : ((guard tally 2 ActionClass.ban_member "iii" none [] server).0 ≡ ok tt) ↔ (
    (is_owner lounge 2 && not false
      || leb one_token (left (new_guardrails false) 2 ActionClass.ban_member 0))
    ≡ true)
guard_iff_example = guard_iff tally 2 ActionClass.ban_member "iii" none [] server

abbrev plain : ActionContext
plain = record { name = none; recent_names = []; is_owner = is_owner lounge 2 }

abbrev shelved : Server
shelved = record server {
  db = record lounge { categories = record { id = 90; name = "Text Channels"; position = 0 } ∷ [] };
}

shelved-AllNew : AllNew shelved
shelved-AllNew n = ground arith

create_category-CategoryOutcome_example :
    CategoryOutcome 2 " News " shelved.db
      (create_category tally (some "Bearer ii") " News " shelved)
create_category-CategoryOutcome_example =
    create_category-CategoryOutcome tally (some "Bearer ii") " News " shelved 2 bob shelved-AllNew
