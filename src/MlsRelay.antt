-- ===== src/MlsRelay.antt =====
-- crates/accord-server/src/mls_relay/service.rs: key packages, Commits and Welcomes.
pub mod Packages
pub mod Events
pub mod Once
mod Tests
use accord_rfc.Base.{
  ℕ, suc, ◌+◌, Bool, true, false, List, [], ◌∷◌, length, Option, none, some, Text, text_eq, Uuid,
  Bytes, map, if◌then◌else◌,
}
use accord_rfc.Store.{KeyPackage, Db}
use accord_rfc.Store.Groups.{is_member}
use accord_rfc.Store.Mailbox.{store_key_packages, claim_key_packages_for_user, enqueue_inbox}
use accord_rfc.Hub.{Hub, welcome_event, commit_event, publish, subscribe}
use accord_rfc.Api.Error.{Result, ok, err, ServerError, to_status, bad_argument, permit, ok_or}
use accord_rfc.Api.Request.{Env, Claims, authenticate, parse_uuid, require_group_id}
use accord_rfc.Api.Server.{Server, reads_db}
use accord_rfc.Api.Action.{Action, pure, lift, for_each, ◌>>=◌, ◌>>◌}

-- `WelcomeTarget`
pub record WelcomeTarget : Type 0 where
  pub device_id : Option Text
  pub welcome : Bytes

-- `DeviceKeyPackage`
pub record DeviceKeyPackage : Type 0 where
  pub device_id : Text
  pub key_package : Bytes

-- The map of the response, by the text of the user id of the request.
abbrev pub Bundles : Type 0
Bundles = List (Text × List DeviceKeyPackage)

abbrev without : Text → Bundles → Bundles
without user [] = []
without user ((u, b) ∷ bundles) =
    let rest = without user bundles in if text_eq u user then rest else (u, b) ∷ rest

-- A user without packages has no entry.
abbrev insert_bundle : Text → List DeviceKeyPackage → Bundles → Bundles
insert_bundle user [] bundles = bundles
insert_bundle user (p ∷ ps) bundles = (user, p ∷ ps) ∷ without user bundles

abbrev store_packages : Uuid → Uuid → List Bytes → Action Server ℕ
store_packages user_id device_id packages s =
    let (count, db) = store_key_packages s.ids s.times s.ticks user_id device_id packages s.db in
    (ok count, record s { db = db; ticks = s.ticks + length packages })

abbrev claim : Uuid → Action Server (List KeyPackage)
claim uid s =
    let (claimed, db) = claim_key_packages_for_user uid s.db in (ok claimed, record s { db = db })

module _ (env : Env) where
  -- The durable copy; a device without a row is an error of the database.
  abbrev pub enqueue_welcome : Uuid → Uuid → Bytes → Action Server Unit
  enqueue_welcome device group_id welcome s =
      elim (enqueue_inbox (s.ids s.ticks) device "welcome" group_id welcome s.db) [
        | none ↦ (err (to_status (ServerError.internal "")), record s { ticks = suc s.ticks })
        | some db ↦ (ok tt, record s { db = db; ticks = suc s.ticks })
      ]

  -- The live copy, and the subscription of the device that is welcomed.
  abbrev pub push_welcome : Uuid → Uuid → Bytes → Action Server Unit
  push_welcome device group_id welcome s = (
    ok tt,
    record s {
      hub = subscribe device group_id (publish (welcome_event device group_id welcome) s.hub);
    },
  )

  abbrev pub target_device : WelcomeTarget → Result Uuid
  target_device target = elim target.device_id [
    | none ↦ bad_argument "welcome target needs device_id"
    | some value ↦ ok_or (env.parse_str value) (bad_argument "bad device id")
  ]

  -- `relay_welcome`
  pub relay_welcome : Uuid → WelcomeTarget → Action Server Unit
  relay_welcome group_id target = do
    device ← lift (target_device target)
    enqueue_welcome device group_id target.welcome
    push_welcome device group_id target.welcome

  abbrev token_id : Text → Action Server Uuid
  token_id s = lift (parse_uuid env s "invalid id in token")

  -- `upload_key_packages`: how many were stored.
  pub upload_key_packages : Option Text → List Bytes → Action Server ℕ
  upload_key_packages header key_packages = do
    claims ← lift (authenticate env header)
    user_id ← token_id claims.sub
    device_id ← token_id claims.device_id
    store_packages user_id device_id key_packages

  abbrev bundle_of : List KeyPackage → List DeviceKeyPackage
  bundle_of =
      map
        λ (p : KeyPackage). record { device_id = env.show p.device_id; key_package = p.key_package }

  -- The loop of `fetch_key_packages`.
  pub fetch_each : List Text → Bundles → Action Server Bundles
  fetch_each [] bundles = pure bundles
  fetch_each (user ∷ users) bundles = do
    uid ← lift (ok_or (env.parse_str user) (bad_argument "bad user id"))
    claimed ← claim uid
    fetch_each users (insert_bundle user (bundle_of claimed) bundles)

  -- `fetch_key_packages`
  pub fetch_key_packages : Option Text → List Text → Action Server Bundles
  unfolding fetch_each
  fetch_key_packages header user_ids = do lift (authenticate env header); fetch_each user_ids []

  abbrev pub publish_commit : Uuid → Bytes → Uuid → Action Server Unit
  publish_commit group_id commit device_id s =
      (ok tt, record s { hub = publish (commit_event group_id commit 0 device_id) s.hub })

  -- `send_commit`: the epoch of the response.
  pub send_commit : Option Text → Option Text → Bytes → List WelcomeTarget → Action Server ℕ
  unfolding relay_welcome
  send_commit header group commit welcomes = do
    claims ← lift (authenticate env header)
    user_id ← token_id claims.sub
    device_id ← token_id claims.device_id
    group_id ← lift (require_group_id env group)
    reads_db λ db. permit (is_member db group_id user_id)
    publish_commit group_id commit device_id
    for_each welcomes (relay_welcome group_id)
    pure 0

  -- `send_welcome`
  pub send_welcome : Option Text → Option Text → List WelcomeTarget → Action Server Unit
  unfolding relay_welcome
  send_welcome header group welcomes = do
    lift (authenticate env header)
    group_id ← lift (require_group_id env group)
    for_each welcomes (relay_welcome group_id)
