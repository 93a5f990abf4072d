-- ===== src/GroupService/Joining.antt =====
-- `add_members`: who gets into a channel.
use accord_rfc.Base.{
  ◌≡◌, refl, ap, ◌∙◌, ◌⊎◌, inl, inr, Bool, true, false, not, ◌&&◌, List, [], ◌∷◌, Option, some,
  Text, Uuid, text_eq, All, ◌==◌, Bool-cases, arith, subst, format, if◌then◌else◌,
}
use accord_rfc.Store.{Group, GroupMember, Db}
use accord_rfc.Store.Users.{is_user_guest}
use accord_rfc.Store.Groups.{is_member, find_group, can_add, add_member}
use accord_rfc.Store.Groups.Members.{is_member-add_member}
use accord_rfc.Store.Moderation.{is_banned}
use accord_rfc.Api.Error.{
  Result, ok, err, Status, Code, ServerError, to_status, denied, missing, ok_or,
}
use accord_rfc.Api.Request.{Env, caller, parse_uuid, require_group_id}
use accord_rfc.Api.Action.{after, for_each}
use accord_rfc.Api.Server.{Server}
use accord_rfc.GroupService.{add_one, add_members, refuse}

-- The account may be in channels: it is no guest and not banned.
abbrev pub Welcome : Db → Uuid → Type 0
Welcome db u = (is_user_guest db u ≡ false) × (is_banned db u ≡ false)

-- The group is a channel.
abbrev pub IsPublic : Db → Uuid → Type 0
IsPublic db g =
    (group : Group) × (find_group db g ≡ some group) × (text_eq group.kind "public" ≡ true)

-- Only memberships differ.
abbrev OtherRows : Db → Db → Type 0
OtherRows db db' = (rows : List GroupMember) × (db' ≡ record db { group_members = rows })

-- Of the database only memberships have changed; nobody is out of a group; and who is new is in
-- `group` and welcome.
pub record Joined (group : Uuid) (db db' : Db) : Type 0 where
  pub others : OtherRows db db'
  pub stays : (g u : Uuid) → is_member db g u ≡ true → is_member db' g u ≡ true
  pub admitted :
      (g u : Uuid)
      → is_member db' g u ≡ true
      → (is_member db g u ≡ true) ⊎ ((group ≡ g) × Welcome db u)

pub Joined-refl : (group : Uuid) (db : Db) → Joined group db db
Joined-refl group db = record {
  others = (db.group_members, refl);
  stays = λ g u h. h;
  admitted = λ g u h. inl h;
}

Welcome-OtherRows : (db db' : Db) (u : Uuid) → OtherRows db db' → Welcome db' u → Welcome db u
unfolding is_user_guest is_banned
Welcome-OtherRows db db' u (rows, e) w = subst (λ d. Welcome d u) e w

Joined-trans : {group : Uuid} {a b c : Db} → Joined group a b → Joined group b c → Joined group a c
Joined-trans {a} {b} p q = record {
  others = (
    q.others.0,
    q.others.1 ∙ ap (λ (d : Db). record d { group_members = q.others.0 }) p.others.1,
  );
  stays = λ g u h. q.stays g u (p.stays g u h);
  admitted = λ g u h. elim (q.admitted g u h) [
    | inl k ↦ p.admitted g u k
    | inr (e, w) ↦ inr (e, Welcome-OtherRows a b u p.others w)
  ];
}

pub Joined-add_member :
    (group u : Uuid) (db : Db) → Welcome db u → Joined group db (add_member group u "member" db)
unfolding add_member
Joined-add_member group u db w = record {
  others = rows_of (is_member db group u) _;
  stays = λ g v h. ground (arith, is_member-add_member group u "member" db g v);
  admitted = λ g v h. elim (Bool-cases (is_member db g v)) [
    | inl k ↦ inl k
    | inr k ↦
        let new : (group == g && u == v) ≡ true =
          ground (arith, is_member-add_member group u "member" db g v) in
        let same : u ≡ v = ground arith in inr (ground arith, subst (Welcome db) same w)
  ];
}
  where
    rows_of :
        (found : Bool) (rows : List GroupMember)
        → OtherRows db (if found then db else record db { group_members = rows })
    rows_of true rows = (db.group_members, refl)
    rows_of false rows = (rows, refl)

module _ (env : Env) (group : Uuid) where
  -- The value is an id of a member.
  abbrev pub IsIn : Db → Text → Type 0
  IsIn db value =
      (u : Uuid) × (parse_uuid env value "member id is not a valid UUID" ≡ ok u)
      × (is_member db group u ≡ true)

  -- What the loop has done on some of the values.
  record Added (values : List Text) (db : Db) (p : Result (Unit {0}) × Server) : Type 0 where
    joined : Joined group db p.1.db
    all_in : p.0 ≡ ok tt → All (IsIn p.1.db) values

  add_one-Added : (value : Text) (s : Server) → Added (value ∷ []) s.db (add_one env group value s)
  unfolding add_one
  add_one-Added value s =
      after P (parse_uuid env value "member id is not a valid UUID") _ s (λ e h. failed e)
        λ u e1.
          after P (if is_user_guest s.db u then denied else ok tt) _ s (λ e h. failed e)
            λ _ e2.
              after P (refuse Code.failed_precondition text (is_banned s.db u)) _ s
                (λ e h. failed e)
                λ _ e3.
                  after P (if can_add s.db group u then ok tt else err failure) _ s
                    (λ e h. failed e)
                    λ _ e4. record {
                      joined = Joined-add_member group u s.db (ground arith, ground arith);
                      all_in = λ h. (
                        (u, e1, ground (arith, is_member-add_member group u "member" s.db group u)),
                        tt,
                      );
                    }
    where
      text : Text
      text = "user is banned from this server"

      P : Result (Unit {0}) × Server → Type 0
      P = Added (value ∷ []) s.db

      failure : Status
      failure = to_status (ServerError.internal "database error")

      failed : (e : Status) → P (err e, s)
      failed e = record { joined = Joined-refl group s.db; all_in = λ h. ground arith }

  loop-Added :
      (values : List Text) (s : Server) → Added values s.db (for_each values (add_one env group) s)
  unfolding for_each
  loop-Added [] s = record { joined = Joined-refl group s.db; all_in = λ h. tt }
  loop-Added (value ∷ values) s =
      after (Added (value ∷ values) s.db) first.0 _ first.1
        (λ e h. record { joined = now.joined; all_in = λ k. ground arith })
        λ _ h.
          let later = loop-Added values first.1 in
          record {
            joined = Joined-trans now.joined later.joined;
            all_in = λ k.
                let (u, parsed, there) = (now.all_in h).0 in
                ((u, parsed, later.joined.stays group u there), later.all_in k);
          }
    where
      first : Result (Unit {0}) × Server
      first = add_one env group value s

      now : Added (value ∷ []) s.db first
      now = add_one-Added value s

-- What `add_members` has done with the ids `values`.
pub record AddOutcome (env : Env) (who group : Uuid) (values : List Text) (db : Db)
    (p : Result (Unit {0}) × Server) : Type 0 where
  pub joined : Joined group db p.1.db
  pub done :
      p.0 ≡ ok tt
      → (is_user_guest db who ≡ false) × IsPublic db group × All (IsIn env group p.1.db) values

-- A request of a known account to add members to a group changes memberships only, puts nobody
-- out, and lets into that group alone, and only accounts that are no guests and not banned, also
-- where it ends in an error; if it succeeds, the caller is no guest, the group is a public
-- channel, and every id of the request is that of a member.
pub add_members-AddOutcome :
    (env : Env) (header group_id : Option Text) (values : List Text) (s : Server) (who group : Uuid)
    → caller env header "invalid id in token" ≡ ok who
    → require_group_id env group_id ≡ ok group
    → AddOutcome env who group values s.db (add_members env header group_id values s)
unfolding add_members
add_members-AddOutcome env header group_id values s who group known named = rw known (
    after P (if is_user_guest s.db who then denied else ok tt) _ s (λ e h. failed e)
      λ _ e1. rw named (
        after P (ok_or (find_group s.db group) (missing text)) _ s (λ e h. failed e)
          λ row e2.
            after P (refuse Code.unimplemented text' (not (text_eq row.kind "public"))) _ s
              (λ e h. failed e)
              λ _ e3.
                let all = loop-Added env group values s in
                record {
                  joined = all.joined;
                  done = λ h. (ground arith, (row, ground arith, ground arith), all.all_in h);
                }))
  where
    text : Text
    text = format ("group " ∷ env.show group ∷ [])

    text' : Text
    text' = "adding members to private groups requires an MLS Commit"

    P : Result (Unit {0}) × Server → Type 0
    P = AddOutcome env who group values s.db

    failed : (e : Status) → P (err e, s)
    failed e = record { joined = Joined-refl group s.db; done = λ h. ground arith }
