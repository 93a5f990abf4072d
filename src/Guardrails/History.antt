-- ===== src/Guardrails/History.antt =====
-- Sequences of checks, by any number of accounts: how many of one account pass.
use accord_rfc.Base.{
  ℕ, ◌+◌, ◌-◌, ◌*◌, ◌≤◌, ◌≡◌, refl, Bool, true, false, not, ◌&&◌, List, [], ◌∷◌, Option, none, some,
  Text, Uuid, ◌==◌, leb, if◌then◌else◌, arith, Bool-cases, inl, inr, ◌⊎◌,
}
use accord_rfc.Guardrails.{
  ActionClass, ActionContext, Guardrails, GuardrailDecision, allowed, budget, check_at, entry,
  exempt, put, same_action, decide, flag,
}
use accord_rfc.Guardrails.Bucket.{TokenBucket, one_token, available, try_take}
use accord_rfc.Guardrails.Limits.{
  WellFormed, HasBudget, left, left_accrues, left_bounded, entry-put, same_action_eq, refill-cases,
}

-- A call of `check_at`.
pub record Check : Type 0 where
  pub actor : Uuid
  pub action : ActionClass
  pub ctx : ActionContext
  pub now : ℕ

-- What a token costs that is spent, and no token.
abbrev cost : Bool → ℕ
cost passed = if passed then one_token else 0

spent : Option ℕ → ℕ
spent none = one_token
spent (some _) = 0

try_take-cost :
    (now : ℕ) (b : TokenBucket)
    → spent (try_take now b).0 + available now (try_take now b).1 ≤ available now b
unfolding try_take available spent
try_take-cost now b = ground arith

if_elim :
    {A : Type 0} (P : A → Type 0) (m : Bool) (x y : A)
    → (m ≡ true → P x)
    → (m ≡ false → P y)
    → P (if m then x else y)
if_elim P true x y f g = f refl
if_elim P false x y f g = g refl

try_take-HasBudget :
    (action : ActionClass) (now : ℕ) (b : TokenBucket)
    → HasBudget action b
    → HasBudget action (try_take now b).1
unfolding try_take
try_take-HasBudget action now b h =
    if_elim (λ (p : Option ℕ × TokenBucket). HasBudget action p.1) (leb one_token (available now b))
      _ _ (λ e. h) (λ e. h)

decide-spent :
    (action : ActionClass) (flagged : Option Text) (o : Option ℕ)
    → cost (allowed (decide action flagged o)) ≡ spent o
unfolding spent
decide-spent action flagged (some s) = refl
decide-spent action (some r) none = refl
decide-spent action none none = refl

-- Where the limit applies the check costs what is spent.
limited_cost :
    (m1 m2 : Bool) (action : ActionClass) (flagged : Option Text) (o : Option ℕ)
    → cost (m1 && m2 && not false && allowed (decide action flagged o))
      ≡ (if m1 && m2 then spent o else 0)
limited_cost true true action flagged o = decide-spent action flagged o
limited_cost true false action flagged o = refl
limited_cost false m2 action flagged o = refl

not_passing : (m1 m2 d : Bool) → (m1 && m2 && not true && d) ≡ false
not_passing m1 m2 d = ground arith

-- Only the bucket of the actor and the action pays.
pay :
    (now : ℕ) (m : Bool) (o : Option ℕ) (b' b : TokenBucket)
    → (m ≡ true → spent o + available now b' ≤ available now b)
    → (if m then spent o else 0) + available now (if m then b' else b) ≤ available now b
pay now true o b' b h = h refl
pay now false o b' b h = omega arith

same_key :
    (actor a : Uuid) (action c : ActionClass)
    → (actor == a && same_action action c) ≡ true
    → (actor ≡ a) × (action ≡ c)
same_key actor a action c h = (ground arith, same_action_eq action c (ground arith))

-- The clock of the checks does not go back: the first is not before `start`, the last not after
-- `finish`.
abbrev pub Clock : ℕ → List Check → ℕ → Type 0
Clock start [] finish = start ≤ finish
Clock start (c ∷ cs) finish = (start ≤ c.now) × Clock c.now cs finish

Clock-ordered : (start : ℕ) (cs : List Check) (finish : ℕ) → Clock start cs finish → start ≤ finish
Clock-ordered start [] finish h = h
Clock-ordered start (c ∷ cs) finish h = omega (arith, Clock-ordered c.now cs finish h.1)

-- The time to a check and the time after it add up.
total_time :
    (p : Bool) (n before after at_start start now finish refill : ℕ)
    → (refill ≡ 1) ⊎ (refill ≡ 4)
    → start ≤ now
    → now ≤ finish
    → n * one_token ≤ after + (finish - now) * refill
    → cost p + after ≤ before
    → before ≤ at_start + (now - start) * refill
    → ((if p then 1 else 0) + n) * one_token ≤ at_start + (finish - start) * refill
total_time p n before after at_start start now finish refill r a b = ground arith

module _ (to_lowercase : Text → Text) where
  abbrev pub run : Check → Guardrails → GuardrailDecision × Guardrails
  run c g = check_at to_lowercase c.actor c.action c.ctx c.now g

  -- The check passes, and the limit of the actor and the action applies to it.
  abbrev pub passes : Uuid → ActionClass → Check → Guardrails → Bool
  passes actor action c g =
      actor == c.actor && same_action action c.action && not (exempt g c.ctx) && allowed (run c g).0

  -- How many checks of a sequence pass.
  unfoldable pub count_passes : Uuid → ActionClass → List Check → Guardrails → ℕ
  count_passes actor action [] g = 0
  count_passes actor action (c ∷ cs) g =
      let rest = count_passes actor action cs (run c g).1 in
      (if passes actor action c g then 1 else 0) + rest

  -- Where the limit does not apply the buckets stay as they are.
  pub run-exempt :
      (c : Check) (g : Guardrails)
      → exempt g c.ctx ≡ true
      → run c g ≡ (decide c.action (flag to_lowercase c.action c.ctx) none, g)
  unfolding check_at
  run-exempt c g h = rw h refl

  -- Where it does the bucket of the actor and the action decides.
  pub run_limited :
      (c : Check) (g : Guardrails)
      → exempt g c.ctx ≡ false
      → run c g ≡ (
        decide c.action
            (flag to_lowercase c.action c.ctx)
            (try_take c.now (entry g c.actor c.action c.now)).0,
        put c.actor c.action (try_take c.now (entry g c.actor c.action c.now)).1 g,
      )
  unfolding check_at
  run_limited c g h = rw h refl

  run-WellFormed : (c : Check) (g : Guardrails) → WellFormed g → WellFormed (run c g).1
  run-WellFormed c g wf = elim (Bool-cases (exempt g c.ctx)) [
    | inl e ↦ rw (run-exempt c g e) wf
    | inr e ↦ rw (run_limited c g e) (record {
      budgets = λ actor action now.
          rw
            (entry-put g c.actor actor c.action action
              (try_take c.now (entry g c.actor c.action c.now)).1 now)
            (if_elim (HasBudget action) _ _ _
              (λ m.
                rw (same_key actor c.actor action c.action m).1
                  (try_take-HasBudget c.action c.now _ (wf.budgets c.actor c.action c.now)))
              (λ m. wf.budgets actor action now));
    })
  ]

  run-left :
      (c : Check) (g : Guardrails) (actor : Uuid) (action : ActionClass)
      → cost (passes actor action c g) + left (run c g).1 actor action c.now
        ≤ left g actor action c.now
  run-left c g actor action = elim (Bool-cases (exempt g c.ctx)) [
    | inl e ↦
        rw (run-exempt c g e)
          (rw (e, not_passing (actor == c.actor) (same_action action c.action) _) (omega arith))
    | inr e ↦ rw (run_limited c g e) (
        rw
          (
            e,
            limited_cost (actor == c.actor) (same_action action c.action) _ _ _,
            entry-put g c.actor actor c.action action
                (try_take c.now (entry g c.actor c.action c.now)).1 c.now,
          )
          (pay c.now _ _ _ _ λ m.
            rw
              (
                (same_key actor c.actor action c.action m).0,
                (same_key actor c.actor action c.action m).1,
              )
              (try_take-cost c.now _)))
  ]

  counted_left :
      (actor : Uuid) (action : ActionClass) (cs : List Check) (start finish : ℕ) (g : Guardrails)
      → WellFormed g
      → Clock start cs finish
      → count_passes actor action cs g * one_token
        ≤ left g actor action start + (finish - start) * (budget action).1
  unfolding count_passes
  counted_left actor action [] start finish g wf clock = omega arith
  counted_left actor action (c ∷ cs) start finish g wf clock =
      total_time (passes actor action c g) _ _ _ _ start c.now finish (budget action).1
        (refill-cases action) clock.0 (Clock-ordered c.now cs finish clock.1)
        (counted_left actor action cs c.now finish (run c g).1 (run-WellFormed c g wf) clock.1)
        (run-left c g actor action) (left_accrues g actor action start c.now wf clock.0)

  -- In any sequence of checks by any accounts on a clock that does not go back, the checks of one
  -- account and action that pass, where the limit applies, are no more than its capacity and what
  -- its refill accrues from the start to the finish.

  -- In any sequence of checks by any accounts on a clock that does not go back, the checks of one
  -- account and action that pass, where the limit applies, are no more than its capacity and what
  -- its refill accrues from the start to the finish, in tokens, if every bucket has the budget of
  -- its action.
  pub count_passes_bounded :
      (actor : Uuid) (action : ActionClass) (cs : List Check) (start finish : ℕ) (g : Guardrails)
      → WellFormed g
      → Clock start cs finish
      → count_passes actor action cs g * one_token
        ≤ (budget action).0 + (finish - start) * (budget action).1
  count_passes_bounded actor action cs start finish g wf clock = omega (
    arith,
    counted_left actor action cs start finish g wf clock,
    left_bounded g actor action start wf,
  )
