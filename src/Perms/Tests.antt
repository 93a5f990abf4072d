-- ===== src/Perms/Tests.antt =====
-- The unit tests of perms.rs, and instances of the theorems.
use accord_rfc.Base.{◌≡◌, refl, true, false, length, some, arith}
use accord_rfc.Perms.Decimal.{from_str, display}
use accord_rfc.Perms.Decimal.Roundtrip.{from_str-display}
use accord_rfc.Perms.{
  administrator, send_messages, create_invite, ban_members, manage_roles, union, allows, is_admin,
  all_permissions, names, names_table, default_everyone,
}

admin_allows_everything :
    (allows administrator ban_members ≡ true) × (is_admin administrator ≡ true)
unfolding allows is_admin
admin_allows_everything = (refl, refl)

union_and_contains :
    let p = union send_messages create_invite in
    (allows p send_messages ≡ true)
    × (allows p create_invite ≡ true)
    × (allows p ban_members ≡ false)
unfolding allows union
union_and_contains = (refl, refl, refl)

default_everyone_cannot_moderate :
    (allows default_everyone send_messages ≡ true) × (allows default_everyone manage_roles ≡ false)
unfolding allows default_everyone
default_everyone_cannot_moderate = (refl, refl)

all_includes_named : length (names all_permissions) ≡ length names_table
unfolding names all_permissions
all_includes_named = refl

from_str-display_example : from_str (display 1650) ≡ some 1650
from_str-display_example = from_str-display 1650 (omega arith)
