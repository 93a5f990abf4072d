-- ===== src/GroupService/Guard.antt =====
-- The guard of the handlers: when it lets an action pass, and what it leaves of the database.
use accord_rfc.Base.{
  ◌↔◌, sym, ◌+◌, not, ◌&&◌, ◌||◌, leb, length, length-append, if◌then◌else◌, ◌≡◌, refl, Bool, true,
  false, arith, List, Option, Text, Uuid,
}
use accord_rfc.Store.{Audit, Db}
use accord_rfc.Store.Groups.{is_member}
use accord_rfc.Store.Moderation.{is_banned, record_audit}
use accord_rfc.Authz.{can_act_on, require_outranks}
use accord_rfc.Store.Users.{is_owner}
use accord_rfc.Guardrails.Bucket.{one_token}
use accord_rfc.Guardrails.Limits.{left}
use accord_rfc.Guardrails.Passing.{allowed-check_at}
use accord_rfc.Api.Error.{ok, Code}
use accord_rfc.Api.Request.{Env}
use accord_rfc.Guardrails.{
  check_at, ActionContext, allowed, is_notable, ActionClass, GuardrailDecision, allow,
  allow_flagged, throttle, deny,
}
use accord_rfc.Api.Server.{Server}
use accord_rfc.GroupService.{record_decision, decision_result, refuse, guard}

-- The database with another audit log.
abbrev pub Audited : Db → Db → Type 0
Audited db db' = (log : List Audit) × (db' ≡ record db { audit_log = log })

record_decision-Audited :
    (actor : Uuid) (action : ActionClass) (target : Text) (decision : GuardrailDecision)
    (s : Server)
    → Audited s.db (record_decision actor action target decision s).db
unfolding record_audit
record_decision-Audited actor action target allow s = (s.db.audit_log, refl)
record_decision-Audited actor action target (allow_flagged reason) s = (_, refl)
record_decision-Audited actor action target (throttle secs reason) s = (_, refl)
record_decision-Audited actor action target (deny reason) s = (_, refl)

pub guard-Audited :
    (env : Env) (actor : Uuid) (action : ActionClass) (target : Text) (name : Option Text)
    (recent_names : List Text) (s : Server)
    → Audited s.db (guard env actor action target name recent_names s).1.db
unfolding guard
guard-Audited env actor action target name recent_names s =
    record_decision-Audited actor action target _ _

-- Who is in which group, and who is banned, is as before.
pub record SameStanding (db db' : Db) : Type 0 where
  pub same_bans : (u : Uuid) → is_banned db' u ≡ is_banned db u
  pub same_members : (g u : Uuid) → is_member db' g u ≡ is_member db g u

pub SameStanding-refl : (db : Db) → SameStanding db db
SameStanding-refl db = record { same_bans = λ u. refl; same_members = λ g u. refl }

pub Audited-SameStanding : {db db' : Db} → Audited db db' → SameStanding db db'
unfolding is_banned is_member
Audited-SameStanding (log, e) = rw e (record { same_bans = λ u. refl; same_members = λ g u. refl })

pub outranking :
    (db : Db) (who target : Uuid)
    → require_outranks db who target ≡ ok tt
    → can_act_on db who target ≡ true
unfolding require_outranks
outranking db who target h = ground arith

pub not_refused : (code : Code) (text : Text) (b : Bool) → refuse code text b ≡ ok tt → b ≡ false
not_refused code text b h = ground arith

-- The uuids that are drawn later.
record_decision-ids :
    (actor : Uuid) (action : ActionClass) (target : Text) (decision : GuardrailDecision)
    (s : Server)
    → (record_decision actor action target decision s).ids ≡ s.ids
record_decision-ids actor action target allow s = refl
record_decision-ids actor action target (allow_flagged reason) s = refl
record_decision-ids actor action target (throttle secs reason) s = refl
record_decision-ids actor action target (deny reason) s = refl

pub guard-ids :
    (env : Env) (actor : Uuid) (action : ActionClass) (target : Text) (name : Option Text)
    (recent_names : List Text) (s : Server)
    → (guard env actor action target name recent_names s).1.ids ≡ s.ids
unfolding guard
guard-ids env actor action target name recent_names s = record_decision-ids actor action target _ _

decision_result-allowed : (d : GuardrailDecision) → (decision_result d ≡ ok tt) ↔ (allowed d ≡ true)
decision_result-allowed allow = (λ h. refl, λ h. refl)
decision_result-allowed (allow_flagged reason) = (λ h. refl, λ h. refl)
decision_result-allowed (throttle secs reason) = (λ h. ground arith, λ h. ground arith)
decision_result-allowed (deny reason) = (λ h. ground arith, λ h. ground arith)

-- The guard lets an action pass exactly when the account is the owner and the policy does not
-- block the owner, or the account has a token left of its budget for the action.
pub guard_iff :
    (env : Env) (actor : Uuid) (action : ActionClass) (target : Text) (name : Option Text)
    (recent_names : List Text) (s : Server)
    → ((guard env actor action target name recent_names s).0 ≡ ok tt) ↔ (
        (is_owner s.db actor && not s.guardrails.block_owner
          || leb one_token (left s.guardrails actor action (s.instants s.ticks)))
        ≡ true)
unfolding guard
guard_iff env actor action target name recent_names s =
    rw (sym (allowed-check_at env.to_lowercase actor action ctx (s.instants s.ticks) s.guardrails))
      (decision_result-allowed _)
  where
    ctx : ActionContext
    ctx = record { name = name; recent_names = recent_names; is_owner = is_owner s.db actor }

-- The guard adds one row to the audit log for a notable decision, and none for another.
pub guard-audits :
    (env : Env) (actor : Uuid) (action : ActionClass) (target : Text) (name : Option Text)
    (recent_names : List Text) (s : Server)
    → let ctx : ActionContext = record {
      name = name;
      recent_names = recent_names;
      is_owner = is_owner s.db actor;
    } in
      length (guard env actor action target name recent_names s).1.db.audit_log
      ≡ length s.db.audit_log
        + (if is_notable
              (check_at env.to_lowercase actor action ctx (s.instants s.ticks) s.guardrails).0
            then 1
            else 0)
unfolding guard record_audit
guard-audits env actor action target name recent_names s = audits _ _
  where
    audits :
        (d : GuardrailDecision) (t : Server)
        → length (record_decision actor action target d t).db.audit_log
          ≡ length t.db.audit_log + (if is_notable d then 1 else 0)
    audits allow t = omega arith
    audits (allow_flagged reason) t = length-append t.db.audit_log _
    audits (throttle secs reason) t = length-append t.db.audit_log _
    audits (deny reason) t = length-append t.db.audit_log _
