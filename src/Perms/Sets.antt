-- ===== src/Perms/Sets.antt =====
-- A bitfield as the set of its digits: what `contains`, `union` and `allows` mean there.
use accord_rfc.Base.{ℕ, ◌^◌, max, ◌≡◌, refl, ◌↔◌, Bool, true, ◌||◌, arith, ==_iff}
use accord_rfc.Base.Bits.{
  bit, has_bit, bit-bit_or, bit_and-Within, bit-le-one, bit-pow, Within, bit-zero,
}
use accord_rfc.Perms.{Permissions, contains, union, allows, all_permissions}

-- `a` contains `b` exactly when every digit of `b` is a digit of `a`.
pub contains_iff : (a b : Permissions) → (contains a b ≡ true) ↔ Within b a
unfolding contains
contains_iff a b =
    (λ h. (bit_and-Within a b).0 ((==_iff _ b).0 h), λ h. (==_iff _ b).1 ((bit_and-Within a b).1 h))

-- A digit of the union is a digit of one of the two sets.
pub bit-union : (a b : Permissions) (k : ℕ) → bit k (union a b) ≡ max (bit k a) (bit k b)
unfolding union
bit-union a b k = bit-bit_or k a b

-- The union of two sets contains both, and is contained in every set that contains both.
pub union_least :
    (a b c : Permissions)
    → (contains (union a b) a ≡ true)
      × (contains (union a b) b ≡ true)
      × (contains c a ≡ true → contains c b ≡ true → contains c (union a b) ≡ true)
union_least a b c = (
  (contains_iff _ a).1 (λ k. omega (arith, bit-union a b k)),
  (contains_iff _ b).1 (λ k. omega (arith, bit-union a b k)),
  λ p q.
      (contains_iff c _).1
        (λ k. omega (arith, bit-union a b k, (contains_iff c a).0 p k, (contains_iff c b).0 q k)),
)

pub contains_trans :
    (a b c : Permissions) → contains a b ≡ true → contains b c ≡ true → contains a c ≡ true
contains_trans a b c p q =
    (contains_iff a c).1 λ k. omega (arith, (contains_iff a b).0 p k, (contains_iff b c).0 q k)

pow-Within : (a : Permissions) (k : ℕ) → has_bit k a ≡ true → Within (2 ^ k) a
pow-Within a k h j = ground (arith, bit-pow j k, bit-le-one j a)

-- A set contains a single permission exactly when its digit is set.
pub contains-pow : (a : Permissions) (k : ℕ) → contains a (2 ^ k) ≡ has_bit k a
contains-pow a k = ground (
  arith,
  bit-pow k k,
  bit-le-one k a,
  λ (h : has_bit k a ≡ true). (contains_iff a (2 ^ k)).1 (pow-Within a k h),
  λ (h : contains a (2 ^ k) ≡ true). (contains_iff a (2 ^ k)).0 h k,
)

-- A set allows a single permission exactly when it has the digit of ADMINISTRATOR or its own.
pub allows-pow : (a : Permissions) (k : ℕ) → allows a (2 ^ k) ≡ (has_bit 0 a || has_bit k a)
unfolding allows
allows-pow a k = ground (arith, contains-pow a k, contains-pow a 0)

-- All permissions allow whatever is asked for; no permissions allow no single permission.
pub allows-all : (p : Permissions) → allows all_permissions p ≡ true
unfolding allows all_permissions
allows-all p = refl

pub allows-none : (k : ℕ) → allows 0 (2 ^ k) ≡ Bool.false
allows-none k = ground (arith, allows-pow 0 k, bit-zero k)
