-- ===== src/GroupService/Removal.antt =====
-- `remove_members`: who is put out of a group, and by whom.
use accord_rfc.Base.{
  ◌≡◌, refl, sym, ap, subst, ◌∙◌, ◌⊎◌, inl, inr, true, false, ◌&&◌, List, [], ◌∷◌, Option, none,
  Text, Uuid, All, ◌==◌, ==_refl, Bool-cases, arith,
}
use accord_rfc.Perms.{kick_members}
use accord_rfc.Store.{GroupMember, Audit, Db}
use accord_rfc.Store.Users.{is_owner, is_user_guest}
use accord_rfc.Store.Roles.{member_permissions}
use accord_rfc.Store.Groups.{is_member, remove_member}
use accord_rfc.Store.Groups.Members.{is_member-remove_member}
use accord_rfc.Authz.{require, effective}
use accord_rfc.Api.Error.{Result, ok, err, Status}
use accord_rfc.Api.Request.{Env, caller, parse_uuid, require_group_id}
use accord_rfc.Api.Server.{Server}
use accord_rfc.Api.Action.{after, for_each}
use accord_rfc.Guardrails.{ActionClass}
use accord_rfc.GroupService.{remove_other, remove_one, remove_members}
use accord_rfc.GroupService.Guard.{Audited, guard-Audited, Audited-SameStanding}

-- Only memberships and the audit log differ.
abbrev OtherRows : Db → Db → Type 0
OtherRows db db' =
    (rows : List GroupMember) × (log : List Audit) × (db'
      ≡ record db { group_members = rows; audit_log = log })

-- The account may put the member out: itself, or anyone with KICK_MEMBERS.
abbrev pub MayRemove : Db → Uuid → Uuid → Type 0
MayRemove db who u = (u ≡ who) ⊎ (require db who kick_members ≡ ok tt)

-- Of the database only memberships and the audit log have changed, nobody is new in a group, and
-- who is out of one was in `group` and may be removed by `who`.
pub record Left (who group : Uuid) (db db' : Db) : Type 0 where
  pub others : OtherRows db db'
  pub nobody_new : (g u : Uuid) → is_member db' g u ≡ true → is_member db g u ≡ true
  pub removed :
      (g u : Uuid)
      → is_member db g u ≡ true
      → is_member db' g u ≡ false
      → (g ≡ group) × MayRemove db who u

require-OtherRows :
    (db db' : Db) (who : Uuid)
    → OtherRows db db'
    → require db' who kick_members ≡ require db who kick_members
unfolding require effective is_owner is_user_guest member_permissions
require-OtherRows db db' who (rows, log, e) = rw e refl

Left-refl : (who group : Uuid) (db : Db) → Left who group db db
Left-refl who group db = record {
  others = (db.group_members, db.audit_log, refl);
  nobody_new = λ g u h. h;
  removed = λ g u h k. ground arith;
}

Left-trans :
    (who group : Uuid) (a b c : Db) → Left who group a b → Left who group b c → Left who group a c
Left-trans who group a b c p q = record {
  others = (
    q.others.0,
    q.others.1,
    q.others.2
        ∙ ap (λ (d : Db). record d { group_members = q.others.0; audit_log = q.others.1 })
            p.others.2,
  );
  nobody_new = λ g u h. p.nobody_new g u (q.nobody_new g u h);
  removed = λ g u h k. elim (Bool-cases (is_member b g u)) [
    | inr e ↦ p.removed g u h e
    | inl e ↦
        let (same, may) = q.removed g u e k in
        (
          same,
          elim may [ inl s ↦ inl s | inr r ↦ inr (sym (require-OtherRows a b who p.others) ∙ r) ],
        )
  ];
}

Audited-Left : (who group : Uuid) (db db' : Db) → Audited db db' → Left who group db db'
Audited-Left who group db db' (log, e) =
    let same = Audited-SameStanding (log, e) in
    record {
      others = (db.group_members, log, e);
      nobody_new = λ g u h. sym (same.same_members g u) ∙ h;
      removed = λ g u h k. absurd (ground (arith, same.same_members g u));
    }

remove_member-Left :
    (who group u : Uuid) (db : Db)
    → MayRemove db who u
    → Left who group db (remove_member group u db)
unfolding remove_member
remove_member-Left who group u db may = record {
  others = (_, db.audit_log, refl);
  nobody_new = λ g v h. ground (arith, is_member-remove_member group u db g v);
  removed = λ g v h k.
      let here : (g == group && v == u) ≡ true =
        ground (arith, is_member-remove_member group u db g v) in
      let same : u ≡ v = ground arith in (ground arith, subst (MayRemove db who) same may);
}

module _ (env : Env) (who group : Uuid) where
  -- The value is an id of an account that is not in the group.
  abbrev pub IsOut : Db → Text → Type 0
  IsOut db value =
      (u : Uuid) × (parse_uuid env value "member id is not a valid UUID" ≡ ok u)
      × (is_member db group u ≡ false)

  -- What `remove_members` has done on the ids `values`.
  pub record Removed (values : List Text) (db : Db) (p : Result (Unit {0}) × Server) : Type 0 where
    pub left : Left who group db p.1.db
    pub all_out : p.0 ≡ ok tt → All (IsOut p.1.db) values

  -- The checks on another account.
  record Allowed (db : Db) (p : Result (Unit {0}) × Server) : Type 0 where
    same : Left who group db p.1.db
    may : p.0 ≡ ok tt → require db who kick_members ≡ ok tt

  remove_other-Allowed : (uid : Uuid) (s : Server) → Allowed s.db (remove_other env who uid s)
  unfolding remove_other
  remove_other-Allowed uid s =
      after (Allowed s.db) (require s.db who kick_members) _ s
        (λ e h. record { same = Left-refl who group s.db; may = λ k. ground arith })
        λ _ e1. record {
          same =
              Audited-Left who group s.db _
                (guard-Audited env who ActionClass.kick_member (env.show uid) none [] s);
          may = λ k. e1;
        }

  -- The last step of the loop's body.
  removal :
      (value : Text) (uid : Uuid) (db : Db) (s : Server)
      → parse_uuid env value "member id is not a valid UUID" ≡ ok uid
      → Left who group db s.db
      → MayRemove s.db who uid
      → Removed (value ∷ []) db (ok tt, record s { db = remove_member group uid s.db })
  removal value uid db s parsed before may = record {
    left = Left-trans who group db s.db _ before (remove_member-Left who group uid s.db may);
    all_out = λ h. (
      (
        uid,
        parsed,
        rw (is_member-remove_member group uid s.db group uid, ==_refl group, ==_refl uid)
            (ground arith),
      ),
      tt,
    );
  }

  remove_one-Removed :
      (value : Text) (s : Server) → Removed (value ∷ []) s.db (remove_one env who group value s)
  unfolding remove_one
  remove_one-Removed value s =
      after P (parse_uuid env value "member id is not a valid UUID") _ s (λ e h. failed e)
        λ uid e1. elim (Bool-cases (uid == who)) [
          | inl e ↦
              rw e (removal value uid s.db s e1 (Left-refl who group s.db) (inl (ground arith)))
          | inr e ↦ rw e (
              let checked = remove_other-Allowed uid s in
              after P (remove_other env who uid s).0 _ (remove_other env who uid s).1
                (λ f h. record { left = checked.same; all_out = λ k. ground arith })
                λ _ h.
                  removal value uid s.db (remove_other env who uid s).1 e1 checked.same
                    (inr (require-OtherRows s.db _ who checked.same.others ∙ checked.may h)))
        ]
    where
      P : Result (Unit {0}) × Server → Type 0
      P = Removed (value ∷ []) s.db

      failed : (e : Status) → P (err e, s)
      failed e = record { left = Left-refl who group s.db; all_out = λ h. ground arith }

  stays_out :
      (db db' : Db) (u : Uuid)
      → Left who group db db'
      → is_member db group u ≡ false
      → is_member db' group u ≡ false
  stays_out db db' u l h = ground (arith, l.nobody_new group u)

  loop-Removed :
      (values : List Text) (s : Server)
      → Removed values s.db (for_each values (remove_one env who group) s)
  unfolding for_each
  loop-Removed [] s = record { left = Left-refl who group s.db; all_out = λ h. tt }
  loop-Removed (value ∷ values) s =
      after (Removed (value ∷ values) s.db) first.0 _ first.1
        (λ e h. record { left = now.left; all_out = λ k. ground arith })
        λ _ h.
          let later = loop-Removed values first.1 in
          record {
            left = Left-trans who group s.db first.1.db _ now.left later.left;
            all_out = λ k.
                let (u, parsed, out) = (now.all_out h).0 in
                ((u, parsed, stays_out first.1.db _ u later.left out), later.all_out k);
          }
    where
      first : Result (Unit {0}) × Server
      first = remove_one env who group value s

      now : Removed (value ∷ []) s.db first
      now = remove_one-Removed value s

-- A request of a known account to remove members from a group changes memberships and the audit
-- log only, lets nobody in, and puts out of that group alone, and only the account itself or, if
-- it has KICK_MEMBERS, others, also where it ends in an error; if it succeeds, every id of the
-- request is that of an account outside the group.
pub remove_members-Removed :
    (env : Env) (header group_id : Option Text) (values : List Text) (s : Server) (who group : Uuid)
    → caller env header "invalid id in token" ≡ ok who
    → require_group_id env group_id ≡ ok group
    → Removed env who group values s.db (remove_members env header group_id values s)
unfolding remove_members
remove_members-Removed env header group_id values s who group known named =
    rw (known, named) (loop-Removed env who group values s)
