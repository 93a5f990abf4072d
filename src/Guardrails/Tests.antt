-- ===== src/Guardrails/Tests.antt =====
-- Unit tests of guardrails/tests.rs, and instances of the theorems on the limits.
use accord_rfc.Base.{
  ℕ, ◌+◌, ◌-◌, ◌*◌, ◌≤◌, ◌≡◌, ◌↔◌, refl, Bool, true, false, ◌||◌, List, [], ◌∷◌, none, some, Text,
  leb, arith, map,
}
use accord_rfc.Guardrails.{ActionContext, Guardrails, kick_member, budget, check_at, new_guardrails}
use accord_rfc.Guardrails.Bucket.{one_token, try_take, available}
use accord_rfc.Guardrails.Names.{
  assess_name, chars, levenshtein, looks_random, normalize, count_similar, rows, cells,
}
use accord_rfc.Guardrails.Names.Edits.{Least}
use accord_rfc.Guardrails.Names.Levenshtein.{levenshtein-Least}
use accord_rfc.Perms.Decimal.{display}
use accord_rfc.Guardrails.Limits.{WellFormed}
use accord_rfc.Guardrails.History.{Check, count_passes, count_passes_bounded}

abbrev plain : ActionContext
plain = record { name = none; recent_names = []; is_owner = false }

abbrev same : Text → Text
same s = s

abbrev kick_at : ℕ → Check
kick_at now = record { actor = 2; action = kick_member; ctx = plain; now = now }

abbrev idle : Guardrails
idle = new_guardrails false

idle-WellFormed : WellFormed idle
idle-WellFormed = record { budgets = λ actor action now. (refl, refl) }

abbrev burst : List Check
burst = kick_at 7 ∷ kick_at 7 ∷ kick_at 7 ∷ kick_at 7 ∷ kick_at 8 ∷ []

destructive_action_throttles_after_burst : count_passes same 2 kick_member burst idle ≡ 3
unfolding count_passes check_at try_take available
destructive_action_throttles_after_burst = refl

low_variance_flagged :
    assess_name same "raid-9" ("raid-1" ∷ "raid-2" ∷ "raid-3" ∷ [])
    ≡ some "low-variance name (≈3 near-identical recent channels)"
unfolding assess_name count_similar looks_random normalize levenshtein rows cells
    accord_rfc.Base.Strings.trim display
low_variance_flagged = refl

levenshtein-Least_example :
    Least (chars "kitten") (chars "sitting") (levenshtein (chars "kitten") (chars "sitting"))
levenshtein-Least_example = levenshtein-Least (chars "kitten") (chars "sitting")

kitten_sitting : levenshtein (chars "kitten") (chars "sitting") ≡ 3
unfolding levenshtein rows cells
kitten_sitting = refl

count_passes_bounded_example :
    count_passes same 2 kick_member burst idle * one_token
    ≤ (budget kick_member).0 + (8 - 7) * (budget kick_member).1
count_passes_bounded_example =
    count_passes_bounded same 2 kick_member burst 7 8 idle idle-WellFormed
      (omega arith, (omega arith, (omega arith, (omega arith, (omega arith, omega arith)))))
