-- ===== src/Store/Roles.antt =====
-- The role queries of store/sqlite.rs.
pub mod Thresholds
pub mod Assignments
pub mod Ranks
pub mod Keys
use accord_rfc.Base.{
  ℕ, suc, ◌+◌, ◌-◌, max, Bool, true, false, not, ◌&&◌, ◌||◌, List, [], ◌∷◌, ◌++◌, Option, none,
  some, Text, Uuid, find, filter, any, update, length, is_some, ◌==◌, if◌then◌else◌,
}
use Prim.Native.Nat.{bit_or}
use accord_rfc.Perms.{Permissions}
use accord_rfc.Store.{Role, RoleWrite, MemberRole, Db}

-- `get_role`
unfoldable pub get_role : Db → Uuid → Option Role
get_role db id = find (λ (r : Role). r.id == id) db.roles

-- Whether `member_roles` holds the pair.
unfoldable pub has_role : Db → Uuid → Uuid → Bool
has_role db user_id role_id =
    any (λ (m : MemberRole). m.user_id == user_id && m.role_id == role_id) db.member_roles

-- `MAX(position)` of the rows, and 0 for none.
abbrev pub max_position : List Role → ℕ
max_position [] = 0
max_position (r ∷ rs) = max r.position (max_position rs)

-- `ensure_default_role`: `ON CONFLICT (id) DO NOTHING`.
unfoldable pub ensure_default_role : Uuid → Text → Permissions → Db → Db
unfolding get_role
ensure_default_role id name permissions db =
    if is_some (get_role db id) then db else record db { roles = db.roles ++ row ∷ [] }
  where
    row : Role
    row = record {
      id = id;
      name = name;
      permissions = permissions;
      position = 0;
      is_default = true;
      color = "";
      icon = "";
      hoist = false;
      mentionable = false;
    }

-- The row that `create_role` inserts, at the position above all others.
abbrev pub new_role : Uuid → RoleWrite → ℕ → Role
new_role id write position = record {
  id = id;
  name = write.name;
  permissions = write.permissions;
  position = position;
  is_default = false;
  color = write.color;
  icon = write.icon;
  hoist = write.hoist;
  mentionable = write.mentionable;
}

-- `create_role`, given the id that `Uuid::now_v7` draws.
unfoldable pub create_role : Uuid → RoleWrite → Db → Db
create_role id write db = record db {
  roles = db.roles ++ new_role id write (max_position db.roles + 1) ∷ [];
}

abbrev pub written : RoleWrite → Role → Role
written write r = record r {
  name = write.name;
  permissions = write.permissions;
  color = write.color;
  icon = write.icon;
  hoist = write.hoist;
  mentionable = write.mentionable;
}

-- `update_role`
unfoldable pub update_role : Uuid → RoleWrite → Db → Db
update_role id write db = record db {
  roles = update (λ (r : Role). r.id == id) (written write) db.roles;
}

-- `delete_role`: the assignments first, then the row, unless it is the default role.
unfoldable pub delete_role : Uuid → Db → Db
delete_role id db = record db {
  member_roles = filter (λ (m : MemberRole). not (m.role_id == id)) db.member_roles;
  roles = filter (λ (r : Role). not (r.id == id && not r.is_default)) db.roles;
}

abbrev pub is_movable : Uuid → Role → Bool
is_movable id r = r.id == id && not r.is_default

abbrev pub moved : ℕ → Role → Role
moved position r = record r { position = position }

-- `UPDATE roles SET position = ? WHERE id = ? AND is_default = 0`
abbrev pub set_position : Uuid → ℕ → List Role → List Role
set_position id position = update (is_movable id) (moved position)

-- The loop of `reorder_roles`: the i-th of n ids gets n - i, so the last gets 1.
unfoldable pub reorder_rows : List Uuid → List Role → List Role
reorder_rows [] roles = roles
reorder_rows (id ∷ ids) roles = reorder_rows ids (set_position id (suc (length ids)) roles)

-- `reorder_roles`
unfoldable pub reorder_roles : List Uuid → Db → Db
unfolding reorder_rows
reorder_roles ordered_top_first db = record db { roles = reorder_rows ordered_top_first db.roles }

-- `assign_role`: `ON CONFLICT (user_id, role_id) DO NOTHING`.
unfoldable pub assign_role : Uuid → Uuid → Db → Db
unfolding has_role
assign_role user_id role_id db = if has_role db user_id role_id then db else record db {
  member_roles = db.member_roles ++ record { user_id = user_id; role_id = role_id } ∷ [];
}

-- `unassign_role`
unfoldable pub unassign_role : Uuid → Uuid → Db → Db
unassign_role user_id role_id db = record db {
  member_roles =
      filter (λ (m : MemberRole). not (m.user_id == user_id && m.role_id == role_id))
        db.member_roles;
}

-- The rows of `roles` that the user holds: the join with `member_roles`.
unfoldable pub held_roles : Db → Uuid → List Role
unfolding has_role
held_roles db user_id = filter (λ (r : Role). has_role db user_id r.id) db.roles

-- `highest_role_position`
unfoldable pub highest_role_position : Db → Uuid → ℕ
unfolding held_roles
highest_role_position db user_id = max_position (held_roles db user_id)

-- The fold of `member_permissions`.
abbrev pub or_permissions : Permissions → List Role → Permissions
or_permissions acc [] = acc
or_permissions acc (r ∷ rs) = or_permissions (bit_or acc r.permissions) rs

-- The rows that count for a user: the default role and those that the user holds.
unfoldable pub counted_roles : Db → Uuid → List Role
unfolding has_role
counted_roles db user_id = filter (λ (r : Role). r.is_default || has_role db user_id r.id) db.roles

-- `member_permissions`
unfoldable pub member_permissions : Db → Uuid → Permissions
unfolding counted_roles
member_permissions db user_id = or_permissions 0 (counted_roles db user_id)
