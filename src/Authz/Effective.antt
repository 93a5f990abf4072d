-- ===== src/Authz/Effective.antt =====
-- What the effective permissions are made of.
use accord_rfc.Base.{
  ℕ, ◌^◌, ◌≡◌, ◌↔◌, Bool, true, not, ◌&&◌, ◌||◌, List, [], ◌∷◌, Uuid, any, any-filter, arith,
}
use Prim.Native.Nat.{bit_or}
use accord_rfc.Base.Bits.{has_bit, has_bit-bit_or, bit-zero}
use accord_rfc.Perms.{allows, is_admin}
use accord_rfc.Perms.Sets.{contains-pow, allows-pow, allows-all, allows-none}
use accord_rfc.Store.{Role, Db}
use accord_rfc.Store.Users.{is_owner, is_user_guest}
use accord_rfc.Store.Roles.{has_role, counted_roles, or_permissions, member_permissions}
use accord_rfc.Authz.{effective, require}
use accord_rfc.Api.Error.{ok}

has_bit-or_permissions :
    (k acc : ℕ) (rs : List Role)
    → has_bit k (or_permissions acc rs)
      ≡ (has_bit k acc || any (λ (r : Role). has_bit k r.permissions) rs)
has_bit-or_permissions k acc [] = ground arith
has_bit-or_permissions k acc (r ∷ rs) = ground (
  arith,
  has_bit-or_permissions k (bit_or acc r.permissions) rs,
  has_bit-bit_or k acc r.permissions,
)

-- The role counts for the user.
abbrev pub counts : Db → Uuid → Role → Bool
counts db u r = r.is_default || has_role db u r.id

-- Whether some role that counts for the user has the digit.
abbrev pub some_role_has : Db → Uuid → ℕ → Bool
some_role_has db u k = any (λ (r : Role). counts db u r && has_bit k r.permissions) db.roles

pub has_bit-member_permissions :
    (db : Db) (u : Uuid) (k : ℕ) → has_bit k (member_permissions db u) ≡ some_role_has db u k
unfolding member_permissions
has_bit-member_permissions db u k = ground (
  arith,
  has_bit-or_permissions k 0 (counted_roles db u),
  bit-zero k,
  any-filter (λ (r : Role). has_bit k r.permissions) (counts db u) db.roles,
)

-- What an account is granted: everything for the owner, nothing for another guest, and else what
-- some role that counts for it grants, by the permission's own digit or by ADMINISTRATOR.
abbrev pub granted : Db → Uuid → ℕ → Bool
granted db u k =
    is_owner db u || (not (is_user_guest db u) && (some_role_has db u 0 || some_role_has db u k))

pub allows-effective :
    (db : Db) (u : Uuid) (k : ℕ) → allows (effective db u) (2 ^ k) ≡ granted db u k
unfolding effective
allows-effective db u k = ground (
  arith,
  allows-all (2 ^ k),
  allows-none k,
  allows-pow (member_permissions db u) k,
  has_bit-member_permissions db u k,
  has_bit-member_permissions db u 0,
)

-- A request for a single permission passes exactly when the account is the owner, or is no guest
-- and some role that counts for it (the default roles and those it holds) has ADMINISTRATOR or
-- the permission.
pub require_iff :
    (db : Db) (u : Uuid) (k : ℕ) → (require db u (2 ^ k) ≡ ok tt) ↔ (granted db u k ≡ true)
unfolding require
require_iff db u k = ground (arith, allows-effective db u k)

-- An account is an administrator exactly when it is the owner, or no guest and some role that
-- counts for it has ADMINISTRATOR.
pub is_admin-effective : (db : Db) (u : Uuid) → is_admin (effective db u) ≡ granted db u 0
unfolding is_admin
is_admin-effective db u =
    ground (
      arith,
      allows-effective db u 0,
      allows-pow (effective db u) 0,
      contains-pow (effective db u) 0,
    )
