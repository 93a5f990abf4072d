-- ===== src/RoleService/Hierarchy.antt =====
-- The role hierarchy under the handlers of `RoleService`.
use accord_rfc.Base.{
  ℕ, suc, ◌≤◌, ◌<◌, ◌+◌, ◌≡◌, refl, sym, ◌∙◌, ap, true, false, List, [], ◌∷◌, some, Uuid, length,
  All-zip, member, arith, inl, inr, Option-cases, Bool-cases,
}
use accord_rfc.Store.{Role, Db}
use accord_rfc.Store.Users.{is_owner, is_user_guest}
use accord_rfc.Store.Roles
use accord_rfc.Store.Roles.{get_role, has_role, highest_role_position}
use accord_rfc.Store.Roles.Keys.{Keyed, All-with_id}
use accord_rfc.Store.Roles.Ranks.{
  holds_above, ltb-highest_role_position, Above, Above-of_thresholds,
}
use accord_rfc.Store.Roles.Thresholds
use accord_rfc.Store.Roles.Thresholds.{IdBelow, Movable, assign_role-roles}
use accord_rfc.Authz.{rank}
use accord_rfc.Api.Error.{ok}
use accord_rfc.RoleService.{check_order}
use accord_rfc.RoleService.Changes.{Change, create, update, delete, reorder, assign, unassign}

found_below :
    (db : Db) (bound : ℕ) (id : Uuid) (role : Role)
    → Keyed db
    → get_role db id ≡ some role
    → role.position < bound
    → IdBelow bound id db.roles
unfolding get_role
found_below db bound id role key e low =
    All-with_id (λ (r : Role). r.position < bound) id db.roles {role = role} key e low

-- What the checks of `reorder_roles` establish of the first id.
check_order-cons :
    (db : Db) (bound : ℕ) (id : Uuid) (ids : List Uuid)
    → check_order db bound (id ∷ ids) ≡ ok tt
    → (role : Role) × (get_role db id ≡ some role)
      × (role.position < bound)
      × (suc (length ids) < bound)
      × (check_order db bound ids ≡ ok tt)
unfolding check_order
check_order-cons db bound id ids h = elim (Option-cases (get_role db id)) [
  | inl e ↦ absurd (ground arith)
  | inr (role, e) ↦ (role, e, ground arith, ground arith, ground arith)
]

-- An order that the checks accept moves rows below the rank only, to positions below it.
check_order-Movable :
    (db : Db) (bound : ℕ) (ids : List Uuid)
    → Keyed db
    → check_order db bound ids ≡ ok tt
    → Movable bound ids db.roles
check_order-Movable db bound [] key h = none_moves db.roles
  where
    none_moves : (rs : List Role) → Movable bound [] rs
    none_moves [] = tt
    none_moves (r ∷ rs) = (λ e _. cc, none_moves rs)
check_order-Movable db bound (id ∷ ids) key h =
    let (role, e, low, new, rest) = check_order-cons db bound id ids h in
    All-zip (λ (r : Role). r.id ≡ id → r.position < bound)
      (λ (r : Role). member r.id ids ≡ true → r.is_default ≡ false → r.position < bound)
      (λ (r : Role). member r.id (id ∷ ids) ≡ true → r.is_default ≡ false → r.position < bound)
      db.roles (λ r here there. ground (arith, here, there))
      (found_below db bound id role key e low) (check_order-Movable db bound ids key rest)

holds_above-reorder :
    (db : Db) (u : Uuid) (t bound : ℕ) (ids : List Uuid)
    → bound ≤ t + 1
    → Keyed db
    → check_order db bound ids ≡ ok tt
    → holds_above (Roles.reorder_roles ids db) u t ≡ holds_above db u t
unfolding Roles.reorder_roles has_role
holds_above-reorder db u t bound [] high key h = refl
holds_above-reorder db u t bound (id ∷ ids) high key h =
    Thresholds.holds_above-reorder_roles u t bound high (id ∷ ids) db
      ((check_order-cons db bound id ids h).3) (check_order-Movable db bound (id ∷ ids) key h)

pub users-kept : {who : Uuid} {db db' : Db} → Change who db db' → db'.users ≡ db.users
unfolding Roles.create_role Roles.update_role Roles.delete_role Roles.reorder_roles
    Roles.assign_role Roles.unassign_role
users-kept (create fresh write _ _ _ e) = ap (λ (d : Db). d.users) e
users-kept (update id role write _ _ _ _ e) = ap (λ (d : Db). d.users) e
users-kept (delete id role _ _ _ _ e) = ap (λ (d : Db). d.users) e
users-kept (reorder ids _ _ e) = ap (λ (d : Db). d.users) e
users-kept {db} (assign user id role _ _ _ _ _ e) = ground arith
users-kept (unassign user id role _ _ _ _ e) = ap (λ (d : Db). d.users) e

pub is_owner_of_users : (d d' : Db) (u : Uuid) → d'.users ≡ d.users → is_owner d' u ≡ is_owner d u
unfolding is_owner
is_owner_of_users d d' u e = ground arith

-- No change moves anyone past a threshold at or above the caller's rank.
thresholds-Change :
    {who : Uuid} {db db' : Db} (u : Uuid) (t : ℕ)
    → Keyed db
    → Change who db db'
    → rank db who ≤ t + 1
    → holds_above db' u t ≡ holds_above db u t
thresholds-Change {db} u t key (create fresh write free _ _ e) high =
    rw e (Thresholds.holds_above-create_role u t fresh write db free.unassigned)
thresholds-Change {db} u t key (update id role write _ _ _ _ e) high =
    rw e (Thresholds.holds_above-update_role u t id write db)
thresholds-Change {who} {db} u t key (delete id role _ found _ low e) high = rw e (
    Thresholds.holds_above-delete_role u t (rank db who) high id db
      (found_below db (rank db who) id role key found low))
thresholds-Change {who} {db} u t key (reorder ids _ checked e) high =
    rw e (holds_above-reorder db u t (rank db who) ids high key checked)
thresholds-Change {who} {db} u t key (assign user id role _ found _ low _ e) high = rw e (
    Thresholds.holds_above-assign_role u t (rank db who) high user id db
      (found_below db (rank db who) id role key found low))
thresholds-Change {who} {db} u t key (unassign user id role _ found low _ e) high = rw e (
    Thresholds.holds_above-unassign_role u t (rank db who) high user id db
      (found_below db (rank db who) id role key found low))

pub is_user_guest_of_users :
    (d d' : Db) (u : Uuid) → d'.users ≡ d.users → is_user_guest d' u ≡ is_user_guest d u
unfolding is_user_guest
is_user_guest_of_users d d' u e = ground arith

rank-owner :
    (d d' : Db) (u : Uuid)
    → is_owner d u ≡ true
    → is_owner d' u ≡ is_owner d u
    → rank d u ≡ rank d' u
unfolding rank
rank-owner d d' u e same = ground arith

rank-member :
    (d d' : Db) (u : Uuid) (n : ℕ)
    → is_owner d u ≡ false
    → is_owner d' u ≡ is_owner d u
    → Above n (highest_role_position d u) (highest_role_position d' u)
    → Above n (rank d u) (rank d' u)
unfolding rank
rank-member d d' u n e same h = ground arith

ranks-Change :
    {who : Uuid} {db db' : Db} (u : Uuid)
    → Keyed db
    → Change who db db'
    → Above (rank db who) (highest_role_position db u) (highest_role_position db' u)
ranks-Change {who} {db} {db'} u key c =
    Above-of_thresholds (rank db who) (highest_role_position db u) (highest_role_position db' u)
      λ t high.
        ltb-highest_role_position db u t
        ∙ sym (thresholds-Change u t key c high)
        ∙ sym (ltb-highest_role_position db' u t)

-- A permitted change leaves an account's rank alone, or that rank was below the caller's and stays
-- below it.
pub rank-Change :
    {who : Uuid} {db db' : Db} (u : Uuid)
    → Keyed db
    → Change who db db'
    → Above (rank db who) (rank db u) (rank db' u)
rank-Change {who} {db} {db'} u key c = elim (Bool-cases (is_owner db u)) [
  | inl e ↦ inl (rank-owner db db' u e same)
  | inr e ↦ rank-member db db' u (rank db who) e same (ranks-Change u key c)
]
  where
    same : is_owner db' u ≡ is_owner db u
    same = is_owner_of_users db db' u (users-kept c)
