-- ===== src/Base/Lists.antt =====
-- Lists searched, filtered and measured by Boolean tests: the loops and queries of the program.
use Prim.Native.Nat.{ℕ, zero, suc, ◌+◌, ◌≤◌}
use mathlib.Core.Path.{◌≡◌, refl}
use mathlib.Core.Bool.{Bool, true, false, ◌||◌, ◌&&◌}
use mathlib.Core.List.{List, [], ◌∷◌, ◌++◌}
use mathlib.Core.Option.{Option, none, some}
use native.Mathlib.Omega.{arith}
use mathlib.Core.Logic.{inl, inr, ◌↔◌}
use accord_rfc.Base.Tests.{if◌then◌else◌, ◌==◌, Bool-cases}

module _ {ℓ} {A : Type ℓ} where
  abbrev pub length : List A → ℕ
  length [] = 0
  length (x ∷ xs) = suc (length xs)

  abbrev pub any : (A → Bool) → List A → Bool
  any p [] = false
  any p (x ∷ xs) = p x || any p xs

  abbrev pub all : (A → Bool) → List A → Bool
  all p [] = true
  all p (x ∷ xs) = p x && all p xs

  -- The first entry that passes.
  abbrev pub find : (A → Bool) → List A → Option A
  find p [] = none
  find p (x ∷ xs) = if p x then some x else find p xs

  abbrev pub filter : (A → Bool) → List A → List A
  filter p [] = []
  filter p (x ∷ xs) = let rest = filter p xs in if p x then x ∷ rest else rest

  abbrev pub take : ℕ → List A → List A
  take zero xs = []
  take (suc n) [] = []
  take (suc n) (x ∷ xs) = x ∷ take n xs

  -- Every entry that passes, changed by `f`: an UPDATE with a WHERE clause.
  abbrev pub update : (A → Bool) → (A → A) → List A → List A
  update p f [] = []
  update p f (x ∷ xs) = (if p x then f x else x) ∷ update p f xs

  pub length-filter-le : (p : A → Bool) (xs : List A) → length (filter p xs) ≤ length xs
  length-filter-le p [] = omega arith
  length-filter-le p (x ∷ xs) = ground (arith, length-filter-le p xs)

  pub length-append : (xs ys : List A) → length (xs ++ ys) ≡ length xs + length ys
  length-append [] ys = omega arith
  length-append (x ∷ xs) ys = omega (arith, length-append xs ys)

  pub any-append : (p : A → Bool) (xs ys : List A) → any p (xs ++ ys) ≡ (any p xs || any p ys)
  any-append p [] ys = refl
  any-append p (x ∷ xs) ys = ground (arith, any-append p xs ys)

module _ {ℓ} {A : Type ℓ} where
  pub any-filter : (p q : A → Bool) (xs : List A) → any p (filter q xs) ≡ any (λ x. q x && p x) xs
  any-filter p q [] = refl
  any-filter p q (x ∷ xs) = ground (arith, any-filter p q xs)

  -- A test that no entry which `p` passes can fail is passed by some entry as well.
  pub any_mono :
      (p q : A → Bool) (xs : List A)
      → ((x : A) → p x ≡ true → q x ≡ true)
      → any p xs ≡ true
      → any q xs ≡ true
  any_mono p q [] h e = e
  any_mono p q (x ∷ xs) h e = ground (arith, h x, any_mono p q xs h)

-- Equality of two lists of numbers.
abbrev pub bytes_eq : List ℕ → List ℕ → Bool
bytes_eq [] [] = true
bytes_eq (x ∷ xs) (y ∷ ys) = x == y && bytes_eq xs ys
bytes_eq xs ys = false

pub bytes_eq_iff : (xs ys : List ℕ) → (bytes_eq xs ys ≡ true) ↔ (xs ≡ ys)
bytes_eq_iff [] [] = ground arith
bytes_eq_iff [] (y ∷ ys) = ground arith
bytes_eq_iff (x ∷ xs) [] = ground arith
bytes_eq_iff (x ∷ xs) (y ∷ ys) = ground (arith, bytes_eq_iff xs ys)

pub bytes_eq_refl : (xs : List ℕ) → bytes_eq xs xs ≡ true
bytes_eq_refl xs = (bytes_eq_iff xs xs).1 refl

-- Membership of a number in a list of numbers.
abbrev pub member : ℕ → List ℕ → Bool
member k = any (λ j. k == j)

module _ {ℓ} {A : Type ℓ} where
  -- A change of the entries that the test does not see.
  pub any-update :
      (q : A → Bool) (p : A → Bool) (f : A → A) (xs : List A)
      → ((x : A) → p x ≡ true → q (f x) ≡ q x)
      → any q (update p f xs) ≡ any q xs
  any-update q p f [] h = refl
  any-update q p f (x ∷ xs) h = ground (arith, h x, any-update q p f xs h)

  -- Removing entries that fail the test anyway.
  pub any-filter_same :
      (q keep : A → Bool) (xs : List A)
      → ((x : A) → keep x ≡ false → q x ≡ false)
      → any q (filter keep xs) ≡ any q xs
  any-filter_same q keep [] h = refl
  any-filter_same q keep (x ∷ xs) h = ground (arith, h x, any-filter_same q keep xs h)

  abbrev pub All {κ} : (A → Type κ) → List A → Type κ
  All P [] = Unit
  All P (x ∷ xs) = P x × All P xs

  -- The test is the same on every entry that satisfies `P`.
  pub any_cong {κ} :
      (P : A → Type κ) (p q : A → Bool) (xs : List A)
      → All P xs
      → ((x : A) → P x → p x ≡ q x)
      → any p xs ≡ any q xs
  any_cong P p q [] h e = refl
  any_cong P p q (x ∷ xs) h e = ground (arith, e x h.0, any_cong P p q xs h.1 e)

  pub All-map {κ κ'} :
      (P : A → Type κ) (Q : A → Type κ') (xs : List A) → ((x : A) → P x → Q x) → All P xs → All Q xs
  All-map P Q [] f h = tt
  All-map P Q (x ∷ xs) f h = (f x h.0, All-map P Q xs f h.1)

  pub All-filter {κ} :
      (P : A → Type κ) (p : A → Bool) (xs : List A) → All P xs → All P (filter p xs)
  All-filter P p [] h = tt
  All-filter P p (x ∷ xs) h = elim (Bool-cases (p x)) [
    | inl e ↦ rw e (h.0, All-filter P p xs h.1)
    | inr e ↦ rw e (All-filter P p xs h.1)
  ]

  pub All-append {κ} : (P : A → Type κ) (xs ys : List A) → All P xs → All P ys → All P (xs ++ ys)
  All-append P [] ys h k = k
  All-append P (x ∷ xs) ys h k = (h.0, All-append P xs ys h.1 k)

  pub All-update {κ} :
      (P : A → Type κ) (p : A → Bool) (f : A → A) (xs : List A)
      → ((x : A) → p x ≡ true → P x → P (f x))
      → All P xs
      → All P (update p f xs)
  All-update P p f [] g h = tt
  All-update P p f (x ∷ xs) g h = elim (Bool-cases (p x)) [
    | inl e ↦ rw e (g x e h.0, All-update P p f xs g h.1)
    | inr e ↦ rw e (h.0, All-update P p f xs g h.1)
  ]

module _ {ℓ} {A : Type ℓ} where
  -- A search of a list whose last entry passes finds something.
  pub find-append_last :
      (p : A → Bool) (xs : List A) (x : A) → p x ≡ true → (r : A) × (find p (xs ++ x ∷ []) ≡ some r)
  find-append_last p [] x h = (x, rw h)
  find-append_last p (y ∷ xs) x h = elim (Bool-cases (p y)) [
    | inl e ↦ (y, rw e)
    | inr e ↦ rw e (find-append_last p xs x h)
  ]

  -- The first entry that passes, after a change that the test does not see.
  pub find-update :
      (p : A → Bool) (f : A → A) (xs : List A) {r : A}
      → ((x : A) → p (f x) ≡ p x)
      → find p xs ≡ some r
      → find p (update p f xs) ≡ some (f r)
  find-update p f [] h e = cc
  find-update p f (x ∷ xs) {r} h e = elim (Bool-cases (p x)) [
    | inl t ↦ ground (arith, h x)
    | inr t ↦ ground (arith, find-update p f xs {r = r} h (ground arith), h x)
  ]

  pub find-append_none :
      (p : A → Bool) (xs : List A) (x : A)
      → find p xs ≡ none
      → p x ≡ true
      → find p (xs ++ x ∷ []) ≡ some x
  find-append_none p [] x e h = rw h refl
  find-append_none p (y ∷ xs) x e h = ground (arith, find-append_none p xs x)

  pub find_passes : (p : A → Bool) (xs : List A) {r : A} → find p xs ≡ some r → p r ≡ true
  find_passes p [] e = cc
  find_passes p (x ∷ xs) {r} e = ground (arith, find_passes p xs {r = r})

module _ {ℓ κ} {A : Type ℓ} (P : A → Type κ) (q p : A → Bool) (f : A → A) where
  -- A change that the test does not see on the entries that satisfy `P`.
  pub any-update_on :
      (xs : List A)
      → All P xs
      → ((x : A) → P x → p x ≡ true → q (f x) ≡ q x)
      → any q (update p f xs) ≡ any q xs
  any-update_on [] h e = refl
  any-update_on (x ∷ xs) h e = ground (arith, e x h.0, any-update_on xs h.1 e)

module _ {ℓ κ κ' κ''} {A : Type ℓ} (P : A → Type κ) (Q : A → Type κ') (R : A → Type κ'') where
  pub All-zip : (xs : List A) → ((x : A) → P x → Q x → R x) → All P xs → All Q xs → All R xs
  All-zip [] f h k = tt
  All-zip (x ∷ xs) f h k = (f x h.0 k.0, All-zip xs f h.1 k.1)

module _ {ℓ} {A : Type ℓ} (q p : A → Bool) (f : A → A) where
  -- A change that makes no entry pass the test.
  pub any-update_le :
      (xs : List A)
      → ((x : A) → p x ≡ true → q (f x) ≡ true → q x ≡ true)
      → any q (update p f xs) ≡ true
      → any q xs ≡ true
  any-update_le [] h e = e
  any-update_le (x ∷ xs) h e = ground (arith, h x, any-update_le xs h)
