-- ===== src/GroupService/Leaving.antt =====
-- `kick_member` and `delete_group`: who gets out of a channel, and by whom.
use accord_rfc.Base.{
  ◌≡◌, ◌≢◌, refl, ap, ◌∙◌, ◌⊎◌, inl, inr, true, not, ◌&&◌, List, [], ◌∷◌, Option, none, Text, Uuid,
  format, text_eq, find, find-filter_same, filter, ◌==◌, Bool-cases, if◌then◌else◌, Bool, arith,
}
use accord_rfc.Perms.{kick_members, manage_channels}
use accord_rfc.Store.{Group, PublicMessage, PrivateMessage, Db}
use accord_rfc.Store.Groups
use accord_rfc.Store.Groups.{is_member, find_group}
use accord_rfc.Store.Groups.Members.{is_member-remove_member, is_member-delete_group}
use accord_rfc.Store.Moderation.{is_banned}
use accord_rfc.Authz.{require, require_outranks, can_act_on}
use accord_rfc.Api.Error.{Result, ok, err, Status, Code, missing, ok_or}
use accord_rfc.Api.Request.{Env, caller, require_user_id, require_group_id}
use accord_rfc.Api.Action.{after}
use accord_rfc.Guardrails.{ActionClass}
use accord_rfc.Api.Server.{Server}
use accord_rfc.GroupService.{guard, kick_other, kick_member, delete_group, refuse}
use accord_rfc.GroupService.Guard.{
  Audited, guard-Audited, SameStanding, SameStanding-refl, Audited-SameStanding, outranking,
}
use accord_rfc.GroupService.Joining.{IsPublic}

-- The account may put the member out of a channel.
abbrev pub MayKick : Db → Uuid → Uuid → Type 0
MayKick db who target =
    (target ≡ who) ⊎ ((require db who kick_members ≡ ok tt) × (can_act_on db who target ≡ true))

-- Only the membership of `target` in `group` has gone.
pub record Kicked (who group target : Uuid) (db db' : Db) : Type 0 where
  pub may_kick : MayKick db who target
  pub bans : (u : Uuid) → is_banned db' u ≡ is_banned db u
  pub members :
      (g u : Uuid) → is_member db' g u ≡ (is_member db g u && not (g == group && u == target))

abbrev pub KickOutcome : Uuid → Uuid → Uuid → Db → Result (Unit {0}) × Server → Type 0
KickOutcome who group target db (ok _, s') = Kicked who group target db s'.db
KickOutcome who group target db (err _, s') = SameStanding db s'.db

kicked :
    (who group target : Uuid) (db db' : Db)
    → MayKick db who target
    → SameStanding db db'
    → Kicked who group target db (Groups.remove_member group target db')
unfolding is_banned Groups.remove_member
kicked who group target db db' may same = record {
  may_kick = may;
  bans = same.same_bans;
  members =
      λ g u. ground (arith, is_member-remove_member group target db' g u, same.same_members g u);
}

-- What the checks of `kick_member` leave and establish.
record Checked (who target : Uuid) (db : Db) (p : Result (Unit {0}) × Server) : Type 0 where
  same : SameStanding db p.1.db
  may_kick : p.0 ≡ ok tt → MayKick db who target

kick_other-Checked :
    (env : Env) (who target : Uuid) (s : Server)
    → Checked who target s.db (kick_other env who target s)
unfolding kick_other
kick_other-Checked env who target s =
    after P (require s.db who kick_members) _ s (λ e h. stopped e)
      λ _ e1.
        after P (require_outranks s.db who target) _ s (λ e h. stopped e)
          λ _ e2. record {
            same =
                Audited-SameStanding
                  (guard-Audited env who ActionClass.kick_member (env.show target) none [] s);
            may_kick = λ h. inr (e1, outranking s.db who target e2);
          }
  where
    P : Result (Unit {0}) × Server → Type 0
    P = Checked who target s.db

    stopped : (e : Status) → P (err e, s)
    stopped e = record { same = SameStanding-refl s.db; may_kick = λ h. ground arith }

-- A request of a known account to kick a target from a group either ends in an error, and who is
-- in which group and who is banned is as before; or the target is the account itself, or the
-- account may kick and may act on it, and afterwards just the membership of the target in that
-- group is gone.
pub kick_member-KickOutcome :
    (env : Env) (header group_id user_id : Option Text) (s : Server) (who group target : Uuid)
    → caller env header "invalid id in token" ≡ ok who
    → require_group_id env group_id ≡ ok group
    → require_user_id env user_id ≡ ok target
    → KickOutcome who group target s.db (kick_member env header group_id user_id s)
unfolding kick_member
kick_member-KickOutcome env header group_id user_id s who group target known named aimed =
    rw (known, named, aimed)
      (elim (Bool-cases (target == who)) [
        | inl e ↦
            rw e (kicked who group target s.db s.db (inl (ground arith)) (SameStanding-refl s.db))
        | inr e ↦ rw e (
            let checked = kick_other-Checked env who target s in
            after (KickOutcome who group target s.db) (kick_other env who target s).0 _
              (kick_other env who target s).1 (λ e h. checked.same)
              λ _ h. kicked who group target s.db _ (checked.may_kick h) checked.same)
      ])

abbrev pub in_group : Uuid → PublicMessage → Bool
in_group g m = m.group_id == g

abbrev pub sealed_in : Uuid → PrivateMessage → Bool
sealed_in g m = m.group_id == g

-- The channel is gone, with everything that was in it; the other groups are as before, with their
-- members and their messages.
pub record Deleted (who group : Uuid) (db db' : Db) : Type 0 where
  pub may_delete : require db who manage_channels ≡ ok tt
  pub was_public : IsPublic db group
  pub gone : find_group db' group ≡ none
  pub members : (g u : Uuid) → is_member db' g u ≡ (is_member db g u && not (g == group))
  pub others : (g : Uuid) → g ≢ group → find_group db' g ≡ find_group db g
  pub messages :
      (g : Uuid)
      → filter (in_group g) db'.public_messages
        ≡ (if g == group then [] else filter (in_group g) db.public_messages)
  pub private_messages :
      (g : Uuid)
      → filter (sealed_in g) db'.private_messages
        ≡ (if g == group then [] else filter (sealed_in g) db.private_messages)

abbrev pub DeleteOutcome : Uuid → Uuid → Db → Result (Unit {0}) × Server → Type 0
DeleteOutcome who group db (ok _, s') = Deleted who group db s'.db
DeleteOutcome who group db (err _, s') = SameStanding db s'.db

find-filter-none :
    (group : Uuid) (rows : List Group)
    → find (λ (g : Group). g.id == group) (filter (λ (g : Group). not (g.id == group)) rows) ≡ none
find-filter-none group [] = refl
find-filter-none group (g ∷ rows) = ground (arith, find-filter-none group rows)

-- What is left with one key, of rows of which those with another are taken out.
rows_left :
    {A : Type 0} (of : A → Uuid) (group g : Uuid) (rows : List A)
    → filter (λ m. of m == g) (filter (λ m. not (of m == group)) rows)
      ≡ (if g == group then [] else filter (λ m. of m == g) rows)
rows_left {A = A} of group g rows = elim (Bool-cases (g == group)) [
  | inl e ↦ rw e (none_left rows (ground arith))
  | inr e ↦ rw e (all_left rows (ground arith))
]
  where
    none_left :
        (ms : List A)
        → g ≡ group
        → filter (λ m. of m == g) (filter (λ m. not (of m == group)) ms) ≡ []
    none_left [] e = refl
    none_left (m ∷ ms) e = ground (arith, none_left ms e)

    all_left :
        (ms : List A)
        → g ≢ group
        → filter (λ m. of m == g) (filter (λ m. not (of m == group)) ms)
          ≡ filter (λ m. of m == g) ms
    all_left [] n = refl
    all_left (m ∷ ms) n = ground (arith, all_left ms n)

deleted :
    (who group : Uuid) (db db' : Db)
    → require db who manage_channels ≡ ok tt
    → IsPublic db group
    → Audited db db'
    → Deleted who group db (Groups.delete_group group db')
unfolding Groups.delete_group find_group
deleted who group db db' may public (log, e) = record {
  may_delete = may;
  was_public = public;
  gone = find-filter-none group db'.groups;
  members = λ g u.
      is_member-delete_group group db' g u
      ∙ ap (λ x. x && not (g == group)) ((Audited-SameStanding (log, e)).same_members g u);
  others = λ g n. rw e (
      find-filter_same (λ (x : Group). x.id == g) (λ (x : Group). not (x.id == group)) db.groups
        (λ x h. ground arith));
  messages = λ g. rw e (rows_left (λ (m : PublicMessage). m.group_id) group g db.public_messages);
  private_messages =
      λ g. rw e (rows_left (λ (m : PrivateMessage). m.group_id) group g db.private_messages);
}

-- A request of a known account to delete a group either ends in an error, and who is in which
-- group and who is banned is as before; or the account may manage channels and the group was a
-- public channel, and afterwards the group, its memberships and its messages are gone, and the
-- other groups are as before, with their memberships and their public and private messages, in
-- order.
pub delete_group-DeleteOutcome :
    (env : Env) (header group_id : Option Text) (s : Server) (who group : Uuid)
    → caller env header "invalid id in token" ≡ ok who
    → require_group_id env group_id ≡ ok group
    → DeleteOutcome who group s.db (delete_group env header group_id s)
unfolding delete_group
delete_group-DeleteOutcome env header group_id s who group known named =
    rw (known, named)
      (after P (ok_or (find_group s.db group) (missing text)) _ s (λ e h. same)
        λ row e1.
          after P (refuse Code.failed_precondition text' (not (text_eq row.kind "public"))) _ s
            (λ e h. same)
            λ _ e2.
              after P (require s.db who manage_channels) _ s (λ e h. same)
                λ _ e3.
                  after P (guarded row).0 _ (guarded row).1
                    (λ e h. Audited-SameStanding (audited row))
                    λ _ e4.
                      deleted who group s.db (guarded row).1.db e3 (row, ground arith, ground arith)
                        (audited row))
  where
    text : Text
    text = format ("group " ∷ env.show group ∷ [])

    text' : Text
    text' = "private groups are not deleted through this RPC"

    P : Result (Unit {0}) × Server → Type 0
    P = DeleteOutcome who group s.db

    same : SameStanding s.db s.db
    same = SameStanding-refl s.db

    guarded : Group → Result (Unit {0}) × Server
    guarded row = guard env who ActionClass.delete_channel row.name none [] s

    audited : (row : Group) → Audited s.db (guarded row).1.db
    audited row = guard-Audited env who ActionClass.delete_channel row.name none [] s
