-- ===== src/Guardrails.antt =====
-- crates/accord-server/src/guardrails/mod.rs: the limits on privileged actions.
pub mod Bucket
pub mod Names
pub mod Limits
pub mod History
pub mod Passing
mod Tests
use accord_rfc.Base.{
  ℕ, ◌*◌, Bool, true, false, not, ◌&&◌, List, Option, none, some, Text, Uuid, ◌==◌, format, [], ◌∷◌,
  if◌then◌else◌,
}
use accord_rfc.Perms.Decimal.{display}
use accord_rfc.Guardrails.Bucket.{TokenBucket, one_token, new_bucket, try_take}
use accord_rfc.Guardrails.Names.{assess_name}

-- `ActionClass`
pub data ActionClass : Type 0 where
  create_channel delete_channel kick_member ban_member create_role update_role delete_role
        assign_role update_server :
      ActionClass

-- `ActionClass::as_str`
abbrev pub as_str : ActionClass → Text
as_str create_channel = "create_channel"
as_str delete_channel = "delete_channel"
as_str kick_member = "kick_member"
as_str ban_member = "ban_member"
as_str create_role = "create_role"
as_str update_role = "update_role"
as_str delete_role = "delete_role"
as_str assign_role = "assign_role"
as_str update_server = "update_server"

-- `ActionClass::is_destructive`
abbrev pub is_destructive : ActionClass → Bool
is_destructive delete_channel = true
is_destructive kick_member = true
is_destructive ban_member = true
is_destructive delete_role = true
is_destructive _ = false

-- `ActionClass::budget`: the capacity and the refill, in the units of the bucket.
abbrev pub budget : ActionClass → ℕ × ℕ
budget delete_channel = (3 * one_token, 1)
budget kick_member = (3 * one_token, 1)
budget ban_member = (3 * one_token, 1)
budget delete_role = (3 * one_token, 1)
budget update_role = (5 * one_token, 4)
budget assign_role = (5 * one_token, 4)
budget update_server = (5 * one_token, 4)
budget create_channel = (5 * one_token, 4)
budget create_role = (5 * one_token, 4)

-- The derived `==`, by the number of the variant.
abbrev pub variant : ActionClass → ℕ
variant create_channel = 0
variant delete_channel = 1
variant kick_member = 2
variant ban_member = 3
variant create_role = 4
variant update_role = 5
variant delete_role = 6
variant assign_role = 7
variant update_server = 8

abbrev pub same_action : ActionClass → ActionClass → Bool
same_action a b = variant a == variant b

-- `GuardrailDecision`; `check_at` never denies.
pub data GuardrailDecision : Type 0 where
  allow : GuardrailDecision
  allow_flagged : (reason : Text) → GuardrailDecision
  throttle : (retry_after_secs : ℕ) (reason : Text) → GuardrailDecision
  deny : (reason : Text) → GuardrailDecision

-- `allowed`
abbrev pub allowed : GuardrailDecision → Bool
allowed allow = true
allowed (allow_flagged _) = true
allowed (throttle _ _) = false
allowed (deny _) = false

-- `is_notable`
abbrev pub is_notable : GuardrailDecision → Bool
is_notable allow = false
is_notable _ = true

-- `ActionContext`
pub record ActionContext : Type 0 where
  pub name : Option Text
  pub recent_names : List Text
  pub is_owner : Bool

-- `Guardrails`: the policy `block_owner` and the buckets, a map from actor and action.
pub record Guardrails : Type 0 where
  pub block_owner : Bool
  pub buckets : Uuid → ActionClass → Option TokenBucket

-- `Guardrails::new`
abbrev pub new_guardrails : Bool → Guardrails
new_guardrails block_owner = record { block_owner = block_owner; buckets = λ actor action. none }

abbrev pub or_insert : Option TokenBucket → TokenBucket → TokenBucket
or_insert (some bucket) fresh = bucket
or_insert none fresh = fresh

-- `entry((actor, action)).or_insert_with(..)`
abbrev pub entry : Guardrails → Uuid → ActionClass → ℕ → TokenBucket
entry g actor action now =
    or_insert (g.buckets actor action) (new_bucket (budget action).0 (budget action).1 now)

abbrev pub put : Uuid → ActionClass → TokenBucket → Guardrails → Guardrails
put actor action bucket g = record g {
  buckets = λ a c. if a == actor && same_action c action then some bucket else g.buckets a c;
}

-- The name heuristics, which only flag.
abbrev pub flag : (Text → Text) → ActionClass → ActionContext → Option Text
flag to_lowercase create_channel ctx = elim ctx.name [
  | some name ↦ assess_name to_lowercase name ctx.recent_names
  | none ↦ none
]
flag to_lowercase _ ctx = none

-- The limit does not apply: the actor is the owner, and the policy does not block the owner.
abbrev pub exempt : Guardrails → ActionContext → Bool
exempt g ctx = ctx.is_owner && not g.block_owner

abbrev kind : ActionClass → Text
kind action = if is_destructive action then "destructive" else "additive"

abbrev pub throttle_reason : ActionClass → ℕ → Text
throttle_reason action secs = format (
    kind action
    ∷ " action '"
    ∷ as_str action
    ∷ "' rate-limited; retry in ~"
    ∷ display secs
    ∷ "s"
    ∷ [])

abbrev pub decide : ActionClass → Option Text → Option ℕ → GuardrailDecision
decide action flagged (some secs) = throttle secs (throttle_reason action secs)
decide action (some reason) none = allow_flagged reason
decide action none none = allow

-- `check_at`
unfoldable pub check_at :
    (Text → Text)
    → Uuid
    → ActionClass
    → ActionContext
    → ℕ
    → Guardrails
    → GuardrailDecision × Guardrails
unfolding try_take
check_at to_lowercase actor action ctx now g =
    let flagged = flag to_lowercase action ctx in
    if exempt g ctx
    then (decide action flagged none, g)
    else let (throttled, bucket) = try_take now (entry g actor action now) in
      (decide action flagged throttled, put actor action bucket g)
