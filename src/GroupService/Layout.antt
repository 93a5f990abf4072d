-- ===== src/GroupService/Layout.antt =====
-- The handlers on categories, on the tavern and on profiles of
-- crates/accord-server/src/groups/service.rs.
use accord_rfc.Base.{
  ℕ, List, [], ◌∷◌, Option, none, some, Text, Uuid, trim, is_empty, find, ◌==◌, if◌then◌else◌,
}
use accord_rfc.Perms.{manage_channels, manage_server}
use accord_rfc.Store.{Category, Tavern, Db}
use accord_rfc.Store.Users
use accord_rfc.Store.Users.{user_profile}
use accord_rfc.Store.Categories
use accord_rfc.Store.Taverns
use accord_rfc.Authz
use accord_rfc.Guardrails.{ActionClass}
use accord_rfc.Api.Error.{Result, ok, err, bad_argument, missing, ok_or}
use accord_rfc.Api.Request.{Env, authenticate, caller, parse_uuid}
use accord_rfc.Api.Server.{Server, reads_db, modify_db, draw}
use accord_rfc.Api.Action.{Action, lift, ◌>>=◌, ◌>>◌}
use accord_rfc.GroupService.{guard}

-- `TAVERN_ID`
abbrev pub tavern_id : Uuid
tavern_id = 0x01900000000070008000000000000003

-- The category that was created, in the list.
abbrev pub find_category : Uuid → Db → Result Category
find_category id db =
    ok_or (find (λ (c : Category). c.id == id) (Categories.list_categories db)) (missing "category")

module _ (env : Env) where
  abbrev pub member_of_token : Option Text → Action Server Uuid
  member_of_token header = lift (caller env header "invalid id in token")

  abbrev pub may : Uuid → ℕ → Action Server Unit
  may who perm = reads_db λ db. Authz.require db who perm

  -- `list_categories`
  unfoldable pub list_categories : Option Text → Action Server (List Category)
  list_categories header = do
    lift (authenticate env header)
    reads_db λ db. ok (Categories.list_categories db)

  -- `create_category`
  unfoldable pub create_category : Option Text → Text → Action Server Category
  unfolding guard
  create_category header name = do
    who ← member_of_token header
    may who manage_channels
    lift (if is_empty (trim name) then bad_argument "category name is required" else ok tt)
    guard env who ActionClass.create_channel (trim name) (some (trim name)) []
    (id, now) ← draw
    modify_db (Categories.create_category id (trim name))
    reads_db (find_category id)

  -- `delete_category`
  unfoldable pub delete_category : Option Text → Text → Action Server Unit
  unfolding guard
  delete_category header value = do
    who ← member_of_token header
    may who manage_channels
    id ← lift (parse_uuid env value "invalid id in token")
    guard env who ActionClass.delete_channel (env.show id) none []
    modify_db (Categories.delete_category id (env.show id))

  -- `map(parse_uuid).collect::<Result<_, _>>()`
  unfoldable pub parse_ids : List Text → Result (List Uuid)
  parse_ids [] = ok []
  parse_ids (value ∷ values) =
      parsed (parse_uuid env value "invalid id in token") (parse_ids values)
    where
      parsed : Result Uuid → Result (List Uuid) → Result (List Uuid)
      parsed (err e) rest = err e
      parsed (ok id) (err e) = err e
      parsed (ok id) (ok ids) = ok (id ∷ ids)

  -- `reorder_categories`
  unfoldable pub reorder_categories : Option Text → List Text → Action Server Unit
  unfolding parse_ids
  reorder_categories header category_ids = do
    who ← member_of_token header
    may who manage_channels
    ids ← lift (parse_ids category_ids)
    modify_db (Categories.reorder_categories ids)

  -- `reorder_channels`
  unfoldable pub reorder_channels : Option Text → Text → List Text → Action Server Unit
  unfolding parse_ids
  reorder_channels header category_id group_ids = do
    who ← member_of_token header
    may who manage_channels
    ids ← lift (parse_ids group_ids)
    modify_db (Categories.reorder_channels (trim category_id) ids)

  -- `get_tavern`
  unfoldable pub get_tavern : Option Text → Action Server Tavern
  get_tavern header = do lift (authenticate env header); reads_db λ db. ok (Taverns.get_tavern db)

  -- `update_tavern`
  unfoldable pub update_tavern : Option Text → Text → Text → Text → Text → Action Server Tavern
  unfolding guard
  update_tavern header name icon_url description banner_url = do
    who ← member_of_token header
    may who manage_server
    guard env who ActionClass.update_server "tavern" none []
    modify_db (
        Taverns.upsert_tavern tavern_id (trim name) (trim icon_url) (trim description)
          (trim banner_url))
    reads_db λ db. ok (Taverns.get_tavern db)

  abbrev pub profile_of : Uuid → Db → Result (Text × Text × Text)
  profile_of who db = ok_or (user_profile db who) (missing "profile")

  -- `get_my_profile`
  unfoldable pub get_my_profile : Option Text → Action Server (Text × Text × Text)
  get_my_profile header = do who ← member_of_token header; reads_db (profile_of who)

  -- `update_profile`
  unfoldable pub update_profile : Option Text → Text → Text → Action Server (Text × Text × Text)
  update_profile header display_name avatar_url = do
    who ← member_of_token header
    lift (if is_empty (trim display_name) then bad_argument "display name is required" else ok tt)
    modify_db λ db. Users.update_profile db who (trim display_name) (trim avatar_url)
    reads_db (profile_of who)
