-- ===== src/GroupService/Bans.antt =====
-- `ban_member` and `unban_member`: what a ban does, and who may impose it.
use accord_rfc.Base.{
  ℕ, ◌≡◌, refl, sym, ap, ◌∙◌, true, false, not, ◌&&◌, ◌||◌, List, [], ◌∷◌, Option, none, Bool-cases,
  inl, inr, ==_iff, Text, Uuid, trim, member, ◌==◌, arith,
}
use accord_rfc.Perms.{ban_members}
use accord_rfc.Store.{Db}
use accord_rfc.Store.Users.{is_owner}
use accord_rfc.Store.Groups.{is_member, remove_member, group_ids_for_user}
use accord_rfc.Store.Groups.Members.{is_member-remove_member, member-group_ids_for_user}
use accord_rfc.Store.Moderation.{is_banned, ban_user}
use accord_rfc.Store.Moderation.Bans.{is_banned-ban_user}
use accord_rfc.Authz.{require, require_outranks, can_act_on}
use accord_rfc.Api.Error.{Result, ok, err, Code}
use accord_rfc.Api.Request.{Env, caller, require_user_id}
use accord_rfc.Api.Action.{after}
use accord_rfc.Guardrails.{ActionClass}
use accord_rfc.Api.Server.{Server}
use accord_rfc.GroupService.{guard, leave_all, ban_member, refuse}
use accord_rfc.GroupService.Guard.{
  Audited, guard-Audited, SameStanding, SameStanding-refl, Audited-SameStanding, outranking,
  not_refused,
}

is_member-leave_all :
    (gids : List Uuid) (target : Uuid) (db : Db) (g u : Uuid)
    → is_member (leave_all gids target db) g u
      ≡ (is_member db g u && not (member g gids && target == u))
unfolding leave_all
is_member-leave_all [] target db g u = ground arith
is_member-leave_all (gid ∷ gids) target db g u = ground (
  arith,
  is_member-leave_all gids target (remove_member gid target db) g u,
  is_member-remove_member gid target db g u,
)

is_banned-leave_all :
    (gids : List Uuid) (target : Uuid) (db : Db) (u : Uuid)
    → is_banned (leave_all gids target db) u ≡ is_banned db u
unfolding leave_all is_banned remove_member
is_banned-leave_all [] target db u = refl
is_banned-leave_all (gid ∷ gids) target db u = is_banned-leave_all gids target _ u

-- What a ban of `target` by `who` has done.
pub record Banned (who target : Uuid) (db db' : Db) : Type 0 where
  pub may_ban : require db who ban_members ≡ ok tt
  pub not_owner : is_owner db target ≡ false
  pub outranked : can_act_on db who target ≡ true
  pub banned : (u : Uuid) → is_banned db' u ≡ (is_banned db u || target == u)
  pub members : (g u : Uuid) → is_member db' g u ≡ (is_member db g u && not (target == u))

abbrev pub BanOutcome : Uuid → Uuid → Db → Result (Unit {0}) × Server → Type 0
BanOutcome who target db (ok _, s') = Banned who target db s'.db
BanOutcome who target db (err _, s') = SameStanding db s'.db

is_member-ban_user :
    (user by : Uuid) (reason : Text) (now : ℕ) (db : Db) (g u : Uuid)
    → is_member (ban_user user by reason now db) g u ≡ is_member db g u
unfolding is_member ban_user
is_member-ban_user user by reason now db g u = elim (Bool-cases (is_banned db user)) [
  | inl e ↦ rw e refl
  | inr e ↦ rw e refl
]

-- Leaving the groups that one is in is leaving all groups.
leaves_all :
    (db : Db) (target g u : Uuid)
    → (is_member db g u && not (is_member db g target && target == u))
      ≡ (is_member db g u && not (target == u))
leaves_all db target g u = elim (Bool-cases (target == u)) [
  | inl h ↦ rw (sym ((==_iff target u).0 h)) (ground arith)
  | inr h ↦ rw h (ground arith)
]

ban_all :
    (who target : Uuid) (reason : Text) (now : ℕ) (db db' : Db)
    → require db who ban_members ≡ ok tt
    → is_owner db target ≡ false
    → require_outranks db who target ≡ ok tt
    → Audited db db'
    → Banned who target db
        (ban_user target who reason now (leave_all (group_ids_for_user db' target) target db'))
ban_all who target reason now db db' a b c audited =
    let same = Audited-SameStanding audited in
    record {
      may_ban = a;
      not_owner = b;
      outranked = outranking db who target c;
      banned = λ u.
          is_banned-ban_user target who reason now _ u
          ∙ ap (λ x. x || target == u) (is_banned-leave_all _ target db' u ∙ same.same_bans u);
      members = λ g u.
          is_member-ban_user target who reason now _ g u
          ∙ is_member-leave_all (group_ids_for_user db' target) target db' g u
          ∙ ap (λ x. is_member db' g u && not (x && target == u))
              (member-group_ids_for_user db' target g)
          ∙ leaves_all db' target g u
          ∙ ap (λ x. x && not (target == u)) (same.same_members g u);
    }

-- A request of a known account to ban a target either ends in an error, and who is in which group
-- and who is banned is as before; or the account may ban and may act on the target, which is not
-- the owner, and afterwards exactly the target is banned beside those who were and is in no
-- group, and the others are where they were.
pub ban_member-BanOutcome :
    (env : Env) (header user_id : Option Text) (reason : Text) (s : Server) (who target : Uuid)
    → caller env header "invalid id in token" ≡ ok who
    → require_user_id env user_id ≡ ok target
    → BanOutcome who target s.db (ban_member env header user_id reason s)
unfolding ban_member
ban_member-BanOutcome env header user_id reason s who target known aimed =
    rw (known, aimed)
      (after P (require s.db who ban_members) _ s (λ e h. same)
        λ _ e1.
          after P (refuse code text (is_owner s.db target)) _ s (λ e h. same)
            λ _ e2.
              after P (require_outranks s.db who target) _ s (λ e h. same)
                λ _ e3.
                  after P guarded.0 _ guarded.1 (λ e h. Audited-SameStanding audited)
                    λ _ e4.
                      ban_all who target (trim reason) _ s.db guarded.1.db e1
                        (not_refused code text _ e2) e3 audited)
  where
    P : Result (Unit {0}) × Server → Type 0
    P = BanOutcome who target s.db

    same : SameStanding s.db s.db
    same = SameStanding-refl s.db

    code : Code
    code = Code.failed_precondition

    text : Text
    text = "cannot ban the server owner"

    guarded : Result (Unit {0}) × Server
    guarded = guard env who ActionClass.ban_member (env.show target) none [] s

    audited : Audited s.db guarded.1.db
    audited = guard-Audited env who ActionClass.ban_member (env.show target) none [] s
