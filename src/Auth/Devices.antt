-- ===== src/Auth/Devices.antt =====
-- Devices, the lookup of accounts, and invites of crates/accord-server/src/auth/service.rs.
use accord_rfc.Base.{[], ◌∷◌, Option, none, some, Text, Uuid, Bytes, trim, format}
use accord_rfc.Perms.{Permissions}
use accord_rfc.Perms
use accord_rfc.Store.Users.{find_user_by_username}
use accord_rfc.Store.Sessions
use accord_rfc.Authz.{require}
use accord_rfc.Api.Error.{ok, missing, ok_or}
use accord_rfc.Api.Request.{Env, authenticate, parse_uuid, caller, require_id}
use accord_rfc.Api.Server.{Server, reads_db, modify_db, draw}
use accord_rfc.Api.Action.{Action, pure, lift, ◌>>=◌, ◌>>◌}
use accord_rfc.Auth.Crypto.{Crypto}
use accord_rfc.Auth.Register.{failed}

module _ (env : Env) where
  -- `register_device`: the credential of the device of the token.
  unfoldable pub register_device : Option Text → Bytes → Action Server Text
  register_device header mls_credential = do
    claims ← lift (authenticate env header)
    device_id ← lift (parse_uuid env claims.device_id "invalid device id in token")
    modify_db (Sessions.set_device_credential device_id mls_credential)
    pure (env.show device_id)

  -- `revoke_device`
  unfoldable pub revoke_device : Option Text → Option Text → Action Server Unit
  revoke_device header id = do
    user_id ← lift (caller env header "invalid user id in token")
    device_id ← lift (require_id env id "device_id is required" "device_id is not a valid UUID")
    (fresh, now) ← draw
    modify_db (Sessions.revoke_device user_id device_id now)

  -- `lookup_user`: the id and the name that is shown.
  unfoldable pub lookup_user : Option Text → Text → Action Server (Text × Text)
  lookup_user header username = do
    lift (authenticate env header)
    user ← reads_db λ db.
        ok_or (find_user_by_username db (trim username))
          (missing (format ("user '" ∷ trim username ∷ "'" ∷ [])))
    pure (env.show user.id, user.display_name)

  -- `AuthSvc::require`
  abbrev pub require_perm : Option Text → Permissions → Action Server Uuid
  require_perm header perm = do
    user_id ← lift (caller env header "invalid user id in token")
    reads_db λ db. require db user_id perm
    pure user_id

  abbrev pub add_invite : Text → Uuid → Action Server Text
  add_invite token user_id s = elim (Sessions.create_invite token user_id s.db) [
    | none ↦ (failed, s)
    | some db ↦ (ok token, record s { db = db })
  ]

  -- `create_invite`, with a token of two uuids.
  unfoldable pub create_invite : Crypto → Option Text → Action Server Text
  create_invite crypto header = do
    user_id ← require_perm header Perms.create_invite
    (first, now) ← draw
    (second, later) ← draw
    add_invite (format (crypto.simple first ∷ crypto.simple second ∷ [])) user_id

  -- `revoke_invite`
  unfoldable pub revoke_invite : Option Text → Text → Action Server Unit
  revoke_invite header token = do
    require_perm header Perms.create_invite
    modify_db (Sessions.revoke_invite token)
