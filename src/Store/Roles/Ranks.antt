-- ===== src/Store/Roles/Ranks.antt =====
-- The highest position that a user holds, by which thresholds it passes.
use accord_rfc.Base.{
  ℕ, ◌≤◌, ◌<◌, ◌+◌, ◌-◌, ◌≡◌, ◌⊎◌, Bool, ◌&&◌, List, [], ◌∷◌, Uuid, any, any-filter, ltb, arith,
  ◌∙◌,
}
use accord_rfc.Store.{Role, Db}
use accord_rfc.Store.Roles.{has_role, held_roles, max_position, highest_role_position}

-- Whether the user holds a role above the threshold.
abbrev pub holds_above : Db → Uuid → ℕ → Bool
holds_above db u t = any (λ (r : Role). has_role db u r.id && ltb t r.position) db.roles

ltb-max_position :
    (t : ℕ) (rs : List Role) → ltb t (max_position rs) ≡ any (λ (r : Role). ltb t r.position) rs
ltb-max_position t [] = ground arith
ltb-max_position t (r ∷ rs) = ground (arith, ltb-max_position t rs)

pub ltb-highest_role_position :
    (db : Db) (u : Uuid) (t : ℕ) → ltb t (highest_role_position db u) ≡ holds_above db u t
unfolding highest_role_position
ltb-highest_role_position db u t =
    ltb-max_position t (held_roles db u)
    ∙ any-filter (λ (r : Role). ltb t r.position) (λ (r : Role). has_role db u r.id) db.roles

-- Two numbers that pass the same thresholds from `n - 1` on are equal, or both below `n`.
abbrev pub Above : ℕ → ℕ → ℕ → Type 0
Above n a b = (a ≡ b) ⊎ ((a < n) × (b < n))

pub Above-of_thresholds : (n a b : ℕ) → ((t : ℕ) → n ≤ t + 1 → ltb t a ≡ ltb t b) → Above n a b
Above-of_thresholds n a b h = ground (arith, h (a - 1), h (b - 1), h a, h b)
