-- ===== src/Store/Examples.antt =====
-- A tavern of three: the owner 1, a moderator 2 and a member 3.
use accord_rfc.Base.{ℕ, Bool, true, false, [], ◌∷◌, none, Text, Uuid}
use accord_rfc.Store.{User, Role, Db, empty_db}

abbrev pub member : Uuid → Text → Bool → User
member id name owner = record {
  id = id;
  username = name;
  display_name = name;
  password_hash = "";
  is_owner = owner;
  is_guest = false;
  identity_key = none;
  avatar_url = "";
}

abbrev pub role : Uuid → Text → ℕ → ℕ → Bool → Role
role id name permissions position default = record {
  id = id;
  name = name;
  permissions = permissions;
  position = position;
  is_default = default;
  color = "";
  icon = "";
  hoist = false;
  mentionable = false;
}

abbrev pub tavern : Db
tavern = record empty_db {
  users = member 1 "ann" true ∷ member 2 "bob" false ∷ member 3 "cid" false ∷ [];
  roles =
      role 10 "everyone" 2 0 true
      ∷ role 11 "helper" 4 1 false
      ∷ role 12 "moderator" 32 3 false
      ∷ [];
  member_roles = record { user_id = 2; role_id = 12 } ∷ [];
}

-- The same with a channel of the members 2 and 3, where the moderator may ban, kick and manage
-- channels.
abbrev pub lounge : Db
lounge = record tavern {
  roles = role 10 "everyone" 2 0 true ∷ role 12 "moderator" 400 3 false ∷ [];
  groups =
      record {
        id = 20;
        name = "lounge";
        description = "";
        kind = "public";
        channel_kind = "text";
        category_id = "";
        position = 0;
      }
      ∷ [];
  group_members =
      record { group_id = 20; user_id = 2; role = "owner" }
      ∷ record { group_id = 20; user_id = 3; role = "member" }
      ∷ [];
}
