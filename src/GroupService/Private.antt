-- ===== src/GroupService/Private.antt =====
-- `create_private_group` of crates/accord-server/src/groups/service.rs. Its loop over the Welcomes
-- is the body of `relay_welcome`.
use accord_rfc.Base.{
  List, Option, none, some, Text, Uuid, trim, is_empty, format, [], ◌∷◌, if◌then◌else◌,
}
use accord_rfc.Store.Groups.{create_private_group_with_id, add_member}
use accord_rfc.Hub.{subscribe}
use accord_rfc.Api.Error.{ok, err, ServerError, to_status}
use accord_rfc.Api.Request.{Env, authenticate, parse_uuid, require_group_id}
use accord_rfc.Api.Server.{Server, modify_db}
use accord_rfc.Api.Action.{Action, pure, lift, modify, for_each, ◌>>=◌, ◌>>◌}
use accord_rfc.MlsRelay.{WelcomeTarget, relay_welcome}

abbrev name_of : Text → Text
name_of name = if is_empty (trim name) then "Direct message" else trim name

module _ (env : Env) where
  abbrev add_private_group : Uuid → Text → Action Server Unit
  add_private_group group_id name s = elim (create_private_group_with_id group_id name s.db) [
    | none ↦ (
      err (to_status (ServerError.already_exists (format ("group " ∷ env.show group_id ∷ [])))),
      s,
    )
    | some db ↦ (ok tt, record s { db = db })
  ]

  abbrev add_private_member : Uuid → Text → Action Server Unit
  add_private_member group_id member = do
    uid ← lift (parse_uuid env member "member id is not a valid UUID")
    modify_db (add_member group_id uid "member")

  -- `create_private_group`, with the id as a text.
  unfoldable pub create_private_group :
      Option Text → Option Text → Text → List Text → List WelcomeTarget → Action Server Text
  create_private_group header id name member_ids welcomes = do
    claims ← lift (authenticate env header)
    creator ← lift (parse_uuid env claims.sub "invalid id in token")
    creator_device ← lift (parse_uuid env claims.device_id "invalid id in token")
    group_id ← lift (require_group_id env id)
    add_private_group group_id (name_of name)
    modify_db (add_member group_id creator "owner")
    for_each member_ids (add_private_member group_id)
    for_each welcomes (relay_welcome env group_id)
    modify (λ (s : Server). record s { hub = subscribe creator_device group_id s.hub })
    pure (env.show group_id)
