-- ===== src/Base/Maps.antt =====
-- `HashMap` from uuids, as a list of entries with different keys.
use Prim.Native.Nat.{ℕ}
use mathlib.Core.Path.{◌≡◌, refl, ap, ◌∙◌}
use mathlib.Core.Bool.{Bool, true, false}
use mathlib.Core.Option.{Option, none, some}
use mathlib.Core.List.{List, [], ◌∷◌}
use native.Mathlib.Omega.{arith}
use accord_rfc.Base.Tests.{◌==◌, if◌then◌else◌}

abbrev pub Map {ℓ} : Type ℓ → Type ℓ
Map V = List (ℕ × V)

module _ {ℓ} {V : Type ℓ} where
  -- `get`
  abbrev pub get : ℕ → Map V → Option V
  get k [] = none
  get k ((j, v) ∷ m) = let rest = get k m in if j == k then some v else rest

  -- `remove`
  abbrev pub remove : ℕ → Map V → Map V
  remove k [] = []
  remove k ((j, v) ∷ m) = let rest = remove k m in if j == k then rest else (j, v) ∷ rest

  -- `insert`
  abbrev pub insert : ℕ → V → Map V → Map V
  insert k v m = (k, v) ∷ remove k m

  pub get-remove : (k j : ℕ) (m : Map V) → get j (remove k m) ≡ (if j == k then none else get j m)
  get-remove k j [] = ground arith
  get-remove k j ((i, v) ∷ m) = ground (arith, get-remove k j m)

  pub get-insert :
      (k j : ℕ) (v : V) (m : Map V) → get j (insert k v m) ≡ (if j == k then some v else get j m)
  get-insert k j v m = ground (arith, get-remove k j m)

  abbrev pub or_empty : Option (Map V) → Map V
  or_empty (some m) = m
  or_empty none = []

-- `get(&k).cloned().unwrap_or_default()`, of a map of maps.
abbrev pub inner {ℓ} : {V : Type ℓ} → ℕ → Map (Map V) → Map V
inner k m = or_empty (get k m)

module _ {ℓ} {V : Type ℓ} where
  pub inner-insert :
      (k j : ℕ) (v : Map V) (m : Map (Map V))
      → inner j (insert k v m) ≡ (if j == k then v else inner j m)
  inner-insert k j v m = ap or_empty (get-insert k j v m) ∙ push (j == k)
    where
      push : (b : Bool) → or_empty (if b then some v else get j m) ≡ (if b then v else inner j m)
      push true = refl
      push false = refl

  pub inner-remove :
      (k j : ℕ) (m : Map (Map V)) → inner j (remove k m) ≡ (if j == k then [] else inner j m)
  inner-remove k j m = ap or_empty (get-remove k j m) ∙ push (j == k)
    where
      push : (b : Bool) → or_empty (if b then none else get j m) ≡ (if b then [] else inner j m)
      push true = refl
      push false = refl
