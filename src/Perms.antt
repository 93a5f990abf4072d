-- ===== src/Perms.antt =====
-- crates/accord-types/src/perms.rs: the permission bitfield. A `Permissions` is its u64.
pub mod Decimal
pub mod Sets
mod Tests
use Prim.Native.Nat.{bit_and, bit_or}
use accord_rfc.Base.{ℕ, ◌^◌, Bool, List, [], ◌∷◌, map, Text, filter, ◌==◌, ◌||◌}

abbrev pub Permissions : Type 0
Permissions = ℕ

abbrev pub administrator : Permissions
administrator = 2 ^ 0

abbrev pub view_channels : Permissions
view_channels = 2 ^ 1

abbrev pub send_messages : Permissions
send_messages = 2 ^ 2

abbrev pub manage_messages : Permissions
manage_messages = 2 ^ 3

abbrev pub manage_channels : Permissions
manage_channels = 2 ^ 4

abbrev pub manage_roles : Permissions
manage_roles = 2 ^ 5

abbrev pub create_invite : Permissions
create_invite = 2 ^ 6

abbrev pub kick_members : Permissions
kick_members = 2 ^ 7

abbrev pub ban_members : Permissions
ban_members = 2 ^ 8

abbrev pub manage_server : Permissions
manage_server = 2 ^ 9

abbrev pub create_private_chat : Permissions
create_private_chat = 2 ^ 10

abbrev pub mention_everyone : Permissions
mention_everyone = 2 ^ 11

abbrev pub attach_files : Permissions
attach_files = 2 ^ 12

abbrev pub add_reactions : Permissions
add_reactions = 2 ^ 13

-- The table `NAMES`.
abbrev pub names_table : List (Text × Permissions)
names_table =
    ("ADMINISTRATOR", administrator)
    ∷ ("VIEW_CHANNELS", view_channels)
    ∷ ("SEND_MESSAGES", send_messages)
    ∷ ("MANAGE_MESSAGES", manage_messages)
    ∷ ("MANAGE_CHANNELS", manage_channels)
    ∷ ("MANAGE_ROLES", manage_roles)
    ∷ ("CREATE_INVITE", create_invite)
    ∷ ("KICK_MEMBERS", kick_members)
    ∷ ("BAN_MEMBERS", ban_members)
    ∷ ("MANAGE_SERVER", manage_server)
    ∷ ("CREATE_PRIVATE_CHAT", create_private_chat)
    ∷ ("MENTION_EVERYONE", mention_everyone)
    ∷ ("ATTACH_FILES", attach_files)
    ∷ ("ADD_REACTIONS", add_reactions)
    ∷ []

-- `Permissions::empty`
abbrev pub empty : Permissions
empty = 0

-- `Permissions::contains`
unfoldable pub contains : Permissions → Permissions → Bool
contains self other = bit_and self other == other

-- `Permissions::is_admin`
unfoldable pub is_admin : Permissions → Bool
unfolding contains
is_admin self = contains self administrator

-- `Permissions::union`
unfoldable pub union : Permissions → Permissions → Permissions
union self other = bit_or self other

-- `Permissions::allows`
unfoldable pub allows : Permissions → Permissions → Bool
unfolding is_admin contains
allows self perm = is_admin self || contains self perm

-- The loop of `Permissions::all` over the rows of the table that are left.
union_rows : Permissions → List (Text × Permissions) → Permissions
union_rows bits [] = bits
union_rows bits ((_, p) ∷ rows) = union_rows (bit_or bits p) rows

-- `Permissions::all`
unfoldable pub all_permissions : Permissions
unfolding union_rows
all_permissions = union_rows 0 names_table

-- `Permissions::default_everyone`
unfoldable pub default_everyone : Permissions
default_everyone =
    bit_or
      (bit_or
        (bit_or (bit_or (bit_or view_channels send_messages) create_invite) create_private_chat)
        add_reactions)
      attach_files

-- `Permissions::names`
unfoldable pub names : Permissions → List Text
unfolding contains
names self =
    map (λ row. row.0) (filter (λ (row : Text × Permissions). contains self row.1) names_table)
