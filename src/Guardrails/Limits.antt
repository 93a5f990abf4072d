-- ===== src/Guardrails/Limits.antt =====
-- What the limits of the guardrails bound: the privileged actions of one account over time.
use accord_rfc.Base.{
  ℕ, ◌+◌, ◌-◌, ◌*◌, ◌≤◌, min, ◌≡◌, refl, sym, ap, ◌∙◌, ◌⊎◌, inl, inr, Bool, true, false, ◌&&◌,
  Option, none, some, Uuid, ◌==◌, ==_iff, if◌then◌else◌, arith,
}
use accord_rfc.Guardrails.{
  ActionClass, Guardrails, budget, entry, put, or_insert, same_action, variant,
}
use accord_rfc.Guardrails.Bucket.{TokenBucket, new_bucket, available}

of_variant : ℕ → ActionClass
of_variant n =
    if n == 0
    then ActionClass.create_channel
    else if n == 1
    then ActionClass.delete_channel
    else if n == 2
    then ActionClass.kick_member
    else if n == 3
    then ActionClass.ban_member
    else if n == 4
    then ActionClass.create_role
    else if n == 5
    then ActionClass.update_role
    else if n == 6
    then ActionClass.delete_role
    else if n == 7
    then ActionClass.assign_role
    else ActionClass.update_server

of_variant-variant : (a : ActionClass) → of_variant (variant a) ≡ a
unfolding of_variant
of_variant-variant ActionClass.create_channel = refl
of_variant-variant ActionClass.delete_channel = refl
of_variant-variant ActionClass.kick_member = refl
of_variant-variant ActionClass.ban_member = refl
of_variant-variant ActionClass.create_role = refl
of_variant-variant ActionClass.update_role = refl
of_variant-variant ActionClass.delete_role = refl
of_variant-variant ActionClass.assign_role = refl
of_variant-variant ActionClass.update_server = refl

pub same_action_eq : (a b : ActionClass) → same_action a b ≡ true → a ≡ b
same_action_eq a b h =
    sym (of_variant-variant a)
    ∙ ap of_variant ((==_iff (variant a) (variant b)).0 h)
    ∙ of_variant-variant b

pub refill-cases : (a : ActionClass) → ((budget a).1 ≡ 1) ⊎ ((budget a).1 ≡ 4)
refill-cases ActionClass.create_channel = inr refl
refill-cases ActionClass.delete_channel = inl refl
refill-cases ActionClass.kick_member = inl refl
refill-cases ActionClass.ban_member = inl refl
refill-cases ActionClass.create_role = inr refl
refill-cases ActionClass.update_role = inr refl
refill-cases ActionClass.delete_role = inl refl
refill-cases ActionClass.assign_role = inr refl
refill-cases ActionClass.update_server = inr refl

-- The bucket has the budget of the action.
abbrev pub HasBudget : ActionClass → TokenBucket → Type 0
HasBudget action b = (b.capacity ≡ (budget action).0) × (b.refill ≡ (budget action).1)

-- Every bucket has the budget of its action.
pub record WellFormed (g : Guardrails) : Type 0 where
  pub budgets :
      (actor : Uuid) (action : ActionClass) (now : ℕ) → HasBudget action (entry g actor action now)

-- What the actor has left of its budget at a time.
abbrev pub left : Guardrails → Uuid → ActionClass → ℕ → ℕ
left g actor action now = available now (entry g actor action now)

accrue :
    (r tokens capacity last s t : ℕ)
    → (r ≡ 1) ⊎ (r ≡ 4)
    → s ≤ t
    → min (tokens + (t - last) * r) capacity ≤ min (tokens + (s - last) * r) capacity + (t - s) * r
accrue r tokens capacity last s t (inl e) h = rw e (omega arith)
accrue r tokens capacity last s t (inr e) h = rw e (omega arith)

pub left_accrues :
    (g : Guardrails) (actor : Uuid) (action : ActionClass) (s t : ℕ)
    → WellFormed g
    → s ≤ t
    → left g actor action t ≤ left g actor action s + (t - s) * (budget action).1
unfolding available
left_accrues g actor action s t wf h = go (g.buckets actor action) (wf.budgets actor action s)
  where
    fresh : ℕ → TokenBucket
    fresh now = new_bucket (budget action).0 (budget action).1 now

    go :
        (o : Option TokenBucket)
        → HasBudget action (or_insert o (fresh s))
        → available t (or_insert o (fresh t))
          ≤ available s (or_insert o (fresh s)) + (t - s) * (budget action).1
    go (some b) (_, r) =
        rw (sym r) (accrue b.refill b.tokens b.capacity b.last s t (rw r (refill-cases action)) h)
    go none _ = omega arith

pub left_bounded :
    (g : Guardrails) (actor : Uuid) (action : ActionClass) (t : ℕ)
    → WellFormed g
    → left g actor action t ≤ (budget action).0
unfolding available
left_bounded g actor action t wf = omega (arith, (wf.budgets actor action t).0)

or_insert_if :
    (found : Bool) (b fresh : TokenBucket) (o : Option TokenBucket)
    → or_insert (if found then some b else o) fresh ≡ (if found then b else or_insert o fresh)
or_insert_if true b fresh o = refl
or_insert_if false b fresh o = refl

pub entry-put :
    (g : Guardrails) (actor a : Uuid) (action c : ActionClass) (b : TokenBucket) (now : ℕ)
    → entry (put actor action b g) a c now
      ≡ (if a == actor && same_action c action then b else entry g a c now)
entry-put g actor a action c b now =
    or_insert_if (a == actor && same_action c action) b _ (g.buckets a c)
