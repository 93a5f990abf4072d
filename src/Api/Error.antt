-- ===== src/Api/Error.antt =====
-- crates/accord-server/src/error.rs: errors, and their gRPC status. A failure of the database or
-- of Redis is not modelled, so of the variants that become `Internal` one is left.
use Prim.Native.String
use accord_rfc.Base.{
  Bool, true, false, Text, Option, none, some, ◌≡◌, ◌⊎◌, inl, inr, refl, arith, not, if◌then◌else◌,
}

pub data ServerError : Type 0 where
  unauthenticated permission_denied : ServerError
  already_exists not_found invalid_argument rate_limited internal : Text → ServerError

-- The codes of `tonic::Code` that the server answers with.
pub data Code : Type 0 where
  unauthenticated permission_denied already_exists not_found invalid_argument : Code
  resource_exhausted failed_precondition unimplemented internal : Code

pub record Status : Type 0 where
  pub code : Code
  pub message : Text

-- `From<ServerError> for Status`, with the messages of the `#[error]` attributes.
unfoldable pub to_status : ServerError → Status
to_status ServerError.unauthenticated = record {
  code = Code.unauthenticated;
  message = "authentication failed";
}
to_status ServerError.permission_denied = record {
  code = Code.permission_denied;
  message = "permission denied";
}
to_status (ServerError.already_exists what) = record {
  code = Code.already_exists;
  message = String.◌++◌ "already exists: " what;
}
to_status (ServerError.not_found what) = record {
  code = Code.not_found;
  message = String.◌++◌ "not found: " what;
}
to_status (ServerError.invalid_argument what) = record {
  code = Code.invalid_argument;
  message = String.◌++◌ "invalid argument: " what;
}
to_status (ServerError.rate_limited what) = record {
  code = Code.resource_exhausted;
  message = String.◌++◌ "rate limited: " what;
}
to_status (ServerError.internal what) = record {
  code = Code.internal;
  message = "internal server error";
}

-- `Result<A, Status>`
pub data Result {ℓ} (A : Type ℓ) : Type ℓ where
  ok : A → Result A
  err : Status → Result A

abbrev pub denied {ℓ} : {A : Type ℓ} → Result A
denied = err (to_status ServerError.permission_denied)

abbrev pub bad_argument {ℓ} : {A : Type ℓ} → Text → Result A
bad_argument what = err (to_status (ServerError.invalid_argument what))

abbrev pub missing {ℓ} : {A : Type ℓ} → Text → Result A
missing what = err (to_status (ServerError.not_found what))

-- `if test { Ok(()) } else { Err(PermissionDenied) }`
abbrev pub permit : Bool → Result (Unit {0})
permit true = ok tt
permit false = denied

-- `ok_or(error)`
abbrev pub ok_or {ℓ} : {A : Type ℓ} → Option A → Result A → Result A
ok_or (some a) e = ok a
ok_or none e = e

infixl 5 ◌>>=◌ ◌>>◌
abbrev pub ◌>>=◌ {ℓ κ} : {A : Type ℓ} {B : Type κ} → Result A → (A → Result B) → Result B
ok a >>= f = f a
err e >>= f = err e

abbrev pub ◌>>◌ {ℓ κ} : {A : Type ℓ} {B : Type κ} → Result A → Result B → Result B
m >> k = m >>= λ _. k

pub Result-cases {ℓ} :
    {A : Type ℓ} (r : Result A) → ((a : A) × (r ≡ ok a)) ⊎ ((e : Status) × (r ≡ err e))
Result-cases (ok a) = inl (a, refl)
Result-cases (err e) = inr (e, refl)

module _ {ℓ} {A : Type ℓ} where
  pub ok_or-err : (o : Option A) (e' : Status) {e : Status} → ok_or o (err e') ≡ err e → o ≡ none
  ok_or-err none e' h = refl
  ok_or-err (some a) e' h = absurd (ground arith)

  pub ok_or-ok : (o : Option A) (e : Status) {a : A} → ok_or o (err e) ≡ ok a → o ≡ some a
  ok_or-ok none e h = absurd (ground arith)
  ok_or-ok (some b) e h = ground arith

-- A check that lets through.
abbrev pub Passes : Result (Unit {0}) → Type 0
Passes r = r ≡ ok tt

pub Passes-if :
    (b : Bool) (e : Status) (r : Result (Unit {0}))
    → Passes (if not b then err e else r)
    → (b ≡ true) × Passes r
Passes-if true e r h = (refl, h)
Passes-if false e r h = absurd (ground arith)

pub Passes->>= :
    {A : Type 0} (m : Result A) (f : A → Result (Unit {0}))
    → Passes (m >>= f)
    → (a : A) × (m ≡ ok a) × Passes (f a)
Passes->>= (ok a) f h = (a, refl, h)
Passes->>= (err e) f h = absurd (ground arith)
