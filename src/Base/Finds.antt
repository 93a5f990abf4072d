-- ===== src/Base/Finds.antt =====
-- Searches of lists that were appended to, filtered and updated: queries after a change.
use mathlib.Core.Path.{◌≡◌, refl}
use mathlib.Core.Bool.{Bool, true, false}
use mathlib.Core.List.{List, [], ◌∷◌, ◌++◌}
use mathlib.Core.Option.{none}
use native.Mathlib.Omega.{arith}
use accord_rfc.Base.Lists.{find, filter, any, update}

module _ {ℓ} {A : Type ℓ} where
  pub filter-append :
      (p : A → Bool) (xs ys : List A) → filter p (xs ++ ys) ≡ filter p xs ++ filter p ys
  filter-append p [] ys = refl
  filter-append p (x ∷ xs) ys = ground (arith, filter-append p xs ys)

  -- What is filtered out is not found.
  pub find-filter-none :
      (p keep : A → Bool) (xs : List A)
      → ((x : A) → p x ≡ true → keep x ≡ false)
      → find p (filter keep xs) ≡ none
  find-filter-none p keep [] h = refl
  find-filter-none p keep (x ∷ xs) h = ground (arith, h x, find-filter-none p keep xs h)

  -- What stays is found as before.
  pub find-filter_same :
      (p keep : A → Bool) (xs : List A)
      → ((x : A) → p x ≡ true → keep x ≡ true)
      → find p (filter keep xs) ≡ find p xs
  find-filter_same p keep [] h = refl
  find-filter_same p keep (x ∷ xs) h = ground (arith, h x, find-filter_same p keep xs h)

  -- A last entry that fails the test.
  pub find-append_other :
      (p : A → Bool) (xs : List A) (x : A) → p x ≡ false → find p (xs ++ x ∷ []) ≡ find p xs
  find-append_other p [] x h = rw h refl
  find-append_other p (y ∷ xs) x h = ground (arith, find-append_other p xs x h)

  pub find-any : (p : A → Bool) (xs : List A) → any p xs ≡ false → find p xs ≡ none
  find-any p [] h = refl
  find-any p (x ∷ xs) h = ground (arith, find-any p xs)

  -- A change of entries that fail the test, before and after.
  pub find-update_other :
      (p q : A → Bool) (f : A → A) (xs : List A)
      → ((x : A) → q x ≡ true → p x ≡ false)
      → ((x : A) → q x ≡ true → p (f x) ≡ false)
      → find p (update q f xs) ≡ find p xs
  find-update_other p q f [] h k = refl
  find-update_other p q f (x ∷ xs) h k = ground (arith, h x, k x, find-update_other p q f xs h k)

  pub filter_twice :
      (p q : A → Bool) (xs : List A)
      → ((x : A) → p x ≡ true → q x ≡ true)
      → filter p (filter q xs) ≡ filter p xs
  filter_twice p q [] h = refl
  filter_twice p q (x ∷ xs) h = ground (arith, h x, filter_twice p q xs h)

  pub filter_none :
      (p q : A → Bool) (xs : List A)
      → ((x : A) → q x ≡ true → p x ≡ false)
      → filter p (filter q xs) ≡ []
  filter_none p q [] h = refl
  filter_none p q (x ∷ xs) h = ground (arith, h x, filter_none p q xs h)

  pub any-last : (p : A → Bool) (xs : List A) (x : A) → p x ≡ true → any p (xs ++ x ∷ []) ≡ true
  any-last p [] x h = rw h refl
  any-last p (y ∷ xs) x h = ground (arith, any-last p xs x h)

  pub any-append_keep : (p : A → Bool) (xs ys : List A) → any p xs ≡ true → any p (xs ++ ys) ≡ true
  any-append_keep p [] ys h = cc
  any-append_keep p (y ∷ xs) ys h = ground (arith, any-append_keep p xs ys)

  pub filter-append_other :
      (p : A → Bool) (xs : List A) (x : A) → p x ≡ false → filter p (xs ++ x ∷ []) ≡ filter p xs
  filter-append_other p [] x h = rw h refl
  filter-append_other p (y ∷ xs) x h = ground (arith, filter-append_other p xs x h)
