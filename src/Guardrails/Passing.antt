-- ===== src/Guardrails/Passing.antt =====
-- `check_at` of guardrails/mod.rs: when a check passes.
use accord_rfc.Base.{
  ℕ, ◌≡◌, refl, inl, inr, Bool, true, false, ◌||◌, Option, none, some, Text, Uuid, leb,
  if◌then◌else◌, Bool-cases,
}
use accord_rfc.Guardrails.{
  ActionClass, ActionContext, Guardrails, allowed, check_at, entry, exempt, decide, flag,
}
use accord_rfc.Guardrails.Bucket.{TokenBucket, one_token, available, try_take}
use accord_rfc.Guardrails.Limits.{left}
use accord_rfc.Guardrails.History.{Check, run-exempt, run_limited}

try_take-none :
    (now : ℕ) (b : TokenBucket) (action : ActionClass) (flagged : Option Text)
    → allowed (decide action flagged (try_take now b).0) ≡ leb one_token (available now b)
unfolding try_take
try_take-none now b action flagged = go (leb one_token (available now b)) flagged _ _ _
  where
    go :
        (enough : Bool) (f : Option Text) (s : ℕ) (b1 b2 : TokenBucket)
        → allowed (
            decide action f
              (if◌then◌else◌ {A = Option ℕ × TokenBucket} enough (none, b1) (some s, b2)).0)
          ≡ enough
    go true none s b1 b2 = refl
    go true (some r) s b1 b2 = refl
    go false f s b1 b2 = refl

-- A check passes exactly when the actor is exempt from the limit, or has a token left of its
-- budget for the action; the name heuristics stop nothing.
pub allowed-check_at :
    (to_lowercase : Text → Text) (actor : Uuid) (action : ActionClass) (ctx : ActionContext)
    (now : ℕ) (g : Guardrails)
    → allowed (check_at to_lowercase actor action ctx now g).0
      ≡ (exempt g ctx || leb one_token (left g actor action now))
allowed-check_at to_lowercase actor action ctx now g = elim (Bool-cases (exempt g ctx)) [
  | inl e ↦ rw (run-exempt to_lowercase check g e, e) (free (flag to_lowercase action ctx))
  | inr e ↦
      rw (run_limited to_lowercase check g e, e)
        (try_take-none now (entry g actor action now) action _)
]
  where
    check : Check
    check = record { actor = actor; action = action; ctx = ctx; now = now }

    free : (f : Option Text) → allowed (decide action f none) ≡ true
    free none = refl
    free (some r) = refl
