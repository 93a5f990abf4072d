-- ===== src/Store/Groups.antt =====
-- The channel and membership queries of store/sqlite.rs.
pub mod Members
use accord_rfc.Base.{
  ℕ, suc, max, Bool, not, ◌&&◌, ◌||◌, List, [], ◌∷◌, ◌++◌, map, Option, none, some, Text, text_eq,
  Uuid, find, filter, any, is_some, ◌==◌, if◌then◌else◌,
}
use accord_rfc.Store.{User, Group, GroupMember, PublicMessage, PrivateMessage, Db}

-- The row that `get_group` selects; no row is `NotFound`.
unfoldable pub find_group : Db → Uuid → Option Group
find_group db group_id = find (λ (g : Group). g.id == group_id) db.groups

-- `is_member`
unfoldable pub is_member : Db → Uuid → Uuid → Bool
is_member db group_id user_id =
    any (λ (m : GroupMember). m.group_id == group_id && m.user_id == user_id) db.group_members

-- The row that `add_member` inserts satisfies the foreign key on the accounts; no row is inserted
-- for a member.
abbrev pub can_add : Db → Uuid → Uuid → Bool
can_add db group_id user_id =
    is_member db group_id user_id || any (λ (u : User). u.id == user_id) db.users

-- `add_member`, where `can_add` holds: `ON CONFLICT (group_id, user_id) DO NOTHING`.
unfoldable pub add_member : Uuid → Uuid → Text → Db → Db
unfolding is_member
add_member group_id user_id role db = if is_member db group_id user_id then db else record db {
  group_members =
      db.group_members ++ record { group_id = group_id; user_id = user_id; role = role } ∷ [];
}

-- `remove_member`
unfoldable pub remove_member : Uuid → Uuid → Db → Db
remove_member group_id user_id db = record db {
  group_members =
      filter (λ (m : GroupMember). not (m.group_id == group_id && m.user_id == user_id))
        db.group_members;
}

-- `group_ids_for_user`
unfoldable pub group_ids_for_user : Db → Uuid → List Uuid
group_ids_for_user db user_id =
    map (λ (m : GroupMember). m.group_id)
      (filter (λ (m : GroupMember). m.user_id == user_id) db.group_members)

-- `member_ids`
unfoldable pub member_ids : Db → Uuid → List Uuid
member_ids db group_id =
    map (λ (m : GroupMember). m.user_id)
      (filter (λ (m : GroupMember). m.group_id == group_id) db.group_members)

-- `COALESCE(MAX(position), -1) + 1`
abbrev pub next_position : List Group → ℕ
next_position [] = 0
next_position (g ∷ gs) = max (suc g.position) (next_position gs)

-- `create_public_group`, given the id that `Uuid::now_v7` draws.
unfoldable pub create_public_group : Uuid → Text → Text → Text → Text → Db → Db
create_public_group id name description channel_kind category_id db = record db {
  groups =
      db.groups
      ++ record {
        id = id;
        name = name;
        description = description;
        kind = "public";
        channel_kind = channel_kind;
        category_id = category_id;
        position =
            next_position (filter (λ (g : Group). text_eq g.category_id category_id) db.groups);
      }
        ∷ [];
}

-- `create_private_group_with_id`: none is the unique violation on the primary key.
unfoldable pub create_private_group_with_id : Uuid → Text → Db → Option Db
unfolding find_group
create_private_group_with_id id name db =
    if is_some (find_group db id)
    then none
    else some (record db {
      groups =
          db.groups
          ++ record {
            id = id;
            name = name;
            description = "";
            kind = "private";
            channel_kind = "text";
            category_id = "";
            position = 0;
          }
            ∷ [];
    })

-- `delete_group`: the children first, then the row.
unfoldable pub delete_group : Uuid → Db → Db
delete_group id db = record db {
  group_members = filter (λ (m : GroupMember). not (m.group_id == id)) db.group_members;
  public_messages = filter (λ (m : PublicMessage). not (m.group_id == id)) db.public_messages;
  private_messages = filter (λ (m : PrivateMessage). not (m.group_id == id)) db.private_messages;
  groups = filter (λ (g : Group). not (g.id == id)) db.groups;
}

-- `list_groups_for_user`, without its order.
unfoldable pub groups_for_user : Db → Uuid → List Group
unfolding is_member
groups_for_user db user_id = filter (λ (g : Group). is_member db g.id user_id) db.groups
