-- ===== src/Api/Action.antt =====
-- A handler: state and errors. What was written before an error stays written, so the state comes
-- back beside the error too.
use accord_rfc.Base.{List, [], ◌∷◌, ◌≡◌, refl}
use accord_rfc.Api.Error.{Result, ok, err, Status}

abbrev pub Action {ℓ} : Type ℓ → Type ℓ → Type ℓ
Action S A = S → Result A × S

module _ {ℓ} {S A : Type ℓ} where
  abbrev pub pure : A → Action S A
  pure a s = (ok a, s)

  abbrev pub lift : Result A → Action S A
  lift r s = (r, s)

  -- A read of the state that can fail.
  abbrev pub reads : (S → Result A) → Action S A
  reads f s = (f s, s)

  abbrev pub gets : (S → A) → Action S A
  gets f s = (ok (f s), s)

abbrev pub modify : {S : Type 0} → (S → S) → Action S Unit
modify f s = (ok tt, f s)

module _ {ℓ} {S A B : Type ℓ} where
  abbrev pub continue : (A → Action S B) → Result A → S → Result B × S
  continue f (ok a) s = f a s
  continue f (err e) s = (err e, s)

  infixl 5 ◌>>=◌ ◌>>◌
  abbrev pub ◌>>=◌ : Action S A → (A → Action S B) → Action S B
  ◌>>=◌ m f s = let (r, s') = m s in continue f r s'

  abbrev pub ◌>>◌ : Action S A → Action S B → Action S B
  m >> k = m >>= λ _. k

-- `for x in xs { body(x)?; }`
unfoldable pub for_each : {S A : Type 0} → List A → (A → Action S Unit) → Action S Unit
for_each [] body s = (ok tt, s)
for_each (x ∷ xs) body s = (body x >>= λ _. for_each xs body) s

-- A property of what a handler returns and leaves, through its next step.
module _ {S A B : Type 0} (P : Result B × S → Type 0) where
  pub after :
      (r : Result A) (f : A → Action S B) (s : S)
      → ((e : Status) → r ≡ err e → P (err e, s))
      → ((a : A) → r ≡ ok a → P (f a s))
      → P (continue f r s)
  after (ok a) f s failed next = next a refl
  after (err e) f s failed next = failed e refl
