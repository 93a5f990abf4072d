-- ===== src/Store/Groups/Members.antt =====
-- Who is in which group after the writes of Store/Groups.
use accord_rfc.Base.{
  ◌≡◌, refl, sym, ◌∙◌, Bool, true, not, ◌&&◌, ◌||◌, List, [], ◌∷◌, map, Text, Uuid, any, filter,
  member, any-append, or_absorbs, or_last, ◌==◌, arith, Bool-cases, inl, inr,
}
use accord_rfc.Store.{GroupMember, Db}
use accord_rfc.Store.Groups.{is_member, add_member, remove_member, delete_group, group_ids_for_user}

abbrev is_row : Uuid → Uuid → GroupMember → Bool
is_row group user m = m.group_id == group && m.user_id == user

pub is_member-add_member :
    (group user : Uuid) (role : Text) (db : Db) (g u : Uuid)
    → is_member (add_member group user role db) g u
      ≡ (is_member db g u || (group == g && user == u))
unfolding is_member add_member
is_member-add_member group user role db g u = elim (Bool-cases (is_member db group user)) [
  | inl e ↦ rw e (or_absorbs (is_member db g u) (group == g && user == u) λ h. there e h)
  | inr e ↦ rw e (any-append (is_row g u) db.group_members _ ∙ or_last (is_member db g u) _)
]
  where
    there :
        is_member db group user ≡ true → (group == g && user == u) ≡ true → is_member db g u ≡ true
    there e h =
        let p : group ≡ g = ground arith in let q : user ≡ u = ground arith in rw (sym p, sym q) e

keeps :
    (group user g u : Uuid) (rows : List GroupMember)
    → any (is_row g u) (filter (λ (m : GroupMember). not (is_row group user m)) rows)
      ≡ (any (is_row g u) rows && not (g == group && u == user))
keeps group user g u [] = refl
keeps group user g u (m ∷ rows) = ground (arith, keeps group user g u rows)

pub is_member-remove_member :
    (group user : Uuid) (db : Db) (g u : Uuid)
    → is_member (remove_member group user db) g u
      ≡ (is_member db g u && not (g == group && u == user))
unfolding is_member remove_member
is_member-remove_member group user db g u = keeps group user g u db.group_members

keeps_others :
    (group g u : Uuid) (rows : List GroupMember)
    → any (is_row g u) (filter (λ (m : GroupMember). not (m.group_id == group)) rows)
      ≡ (any (is_row g u) rows && not (g == group))
keeps_others group g u [] = refl
keeps_others group g u (m ∷ rows) = ground (arith, keeps_others group g u rows)

pub is_member-delete_group :
    (group : Uuid) (db : Db) (g u : Uuid)
    → is_member (delete_group group db) g u ≡ (is_member db g u && not (g == group))
unfolding is_member delete_group
is_member-delete_group group db g u = keeps_others group g u db.group_members

listed :
    (g u : Uuid) (rows : List GroupMember)
    → member g
        (map (λ (m : GroupMember). m.group_id) (filter (λ (m : GroupMember). m.user_id == u) rows))
      ≡ any (is_row g u) rows
listed g u [] = refl
listed g u (m ∷ rows) = ground (arith, listed g u rows)

pub member-group_ids_for_user :
    (db : Db) (u g : Uuid) → member g (group_ids_for_user db u) ≡ is_member db g u
unfolding is_member group_ids_for_user
member-group_ids_for_user db u g = listed g u db.group_members
