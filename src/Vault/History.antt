-- ===== src/Vault/History.antt =====
-- crates/accord-server/src/vault/service.rs: requests, against a map from accounts and names.
use mathlib.Core.Path.{fun_ext}
use accord_rfc.Base.{
  ◌≡◌, refl, ◌&&◌, List, [], ◌∷◌, Option, none, some, Text, text_eq, Uuid, Bytes, ◌==◌,
  if◌then◌else◌, Bool-cases, inl, inr,
}
use accord_rfc.Store.{Db}
use accord_rfc.Store.Blobs.{get_vault_blob, put_vault_blob, delete_vault_blob}
use accord_rfc.Api.Error.{Result, ok, Result-cases, bad_argument, missing, ok_or}
use accord_rfc.Api.Request.{Env, caller}
use accord_rfc.Api.Server.{Server}
use accord_rfc.Api.Action.{Action, pure, lift, reads, modify, ◌>>=◌, ◌>>◌}
use accord_rfc.Vault.{no_bytes, check_name, put_blob, get_blob, delete_blob}
use accord_rfc.Vault.Stored.{get-put, get-delete}

-- The blobs by account and name.
abbrev pub View : Type 0
View = Uuid → Text → Option Bytes

abbrev pub view : Db → View
view db = λ u n. get_vault_blob db u n

abbrev pub write : Uuid → Text → Option Bytes → View → View
write user name blob v = λ u n. if u == user && text_eq n name then blob else v u n

pub data Call : Type 0 where
  put : (header : Option Text) (name : Text) (blob : Bytes) → Call
  fetch : (header : Option Text) (name : Text) → Call
  drop : (header : Option Text) (name : Text) → Call

module _ (env : Env) where
  -- The handlers, with the blob that comes back.
  pub answer : Call → Action Server (Option Bytes)
  unfolding put_blob get_blob delete_blob
  answer (put header name blob) = do put_blob env header name blob; pure none
  answer (fetch header name) = do blob ← get_blob env header name; pure (some blob)
  answer (drop header name) = do delete_blob env header name; pure none

  abbrev known : Option Text → Result Uuid
  known header = caller env header "invalid user id in token"

  -- The same on the map.
  pub expect : Call → Action View (Option Bytes)
  expect (put header name blob) = do
    user ← lift (known header)
    lift (check_name name)
    lift (if no_bytes blob then bad_argument "empty blob" else ok tt)
    modify (write user name (some blob))
    pure none
  expect (fetch header name) = do
    user ← lift (known header)
    blob ← reads λ (v : View). ok_or (v user name) (missing "vault blob")
    pure (some blob)
  expect (drop header name) = do
    user ← lift (known header)
    modify (write user name none)
    pure none

  pub answers : List Call → Server → List (Result (Option Bytes))
  answers [] s = []
  answers (c ∷ calls) s = let (r, s') = answer c s in r ∷ answers calls s'

  pub expected : List Call → View → List (Result (Option Bytes))
  expected [] v = []
  expected (c ∷ calls) v = let (r, v') = expect c v in r ∷ expected calls v'

  -- One request on both sides.
  abbrev Agrees : Result (Option Bytes) × Server → Result (Option Bytes) × View → Type 0
  Agrees p q = (p.0 ≡ q.0) × (view p.1.db ≡ q.1)

  view-put :
      (user : Uuid) (name : Text) (blob : Bytes) (db : Db)
      → view (put_vault_blob user name blob db) ≡ write user name (some blob) (view db)
  view-put user name blob db = fun_ext λ u. fun_ext λ n. get-put user name blob db u n

  view-delete :
      (user : Uuid) (name : Text) (db : Db)
      → view (delete_vault_blob user name db) ≡ write user name none (view db)
  view-delete user name db = fun_ext λ u. fun_ext λ n. get-delete user name db u n

  agrees : (c : Call) (s : Server) → Agrees (answer c s) (expect c (view s.db))
  unfolding answer expect put_blob get_blob delete_blob
  agrees (put header name blob) s = elim (Result-cases (known header)) [
    | inr (e, h) ↦ rw h (refl, refl)
    | inl (user, h) ↦ rw h (elim (Result-cases (check_name name)) [
      | inr (e, k) ↦ rw k (refl, refl)
      | inl (_, k) ↦ rw k (elim (Bool-cases (no_bytes blob)) [
        | inl f ↦ rw f (refl, refl)
        | inr f ↦ rw f (refl, view-put user name blob s.db)
      ])
    ])
  ]
  agrees (fetch header name) s = elim (Result-cases (known header)) [
    | inr (e, h) ↦ rw h (refl, refl)
    | inl (user, h) ↦
        rw h (elim (Result-cases (ok_or (get_vault_blob s.db user name) (missing "vault blob"))) [
          | inr (e, k) ↦ rw k (refl, refl)
          | inl (blob, k) ↦ rw k (refl, refl)
        ])
  ]
  agrees (drop header name) s = elim (Result-cases (known header)) [
    | inr (e, h) ↦ rw h (refl, refl)
    | inl (user, h) ↦ rw h (refl, view-delete user name s.db)
  ]

  -- Any sequence of requests to put, get and delete blobs of the vault gets the answers, errors
  -- included, that the same requests get of a map from accounts and names to blobs, with which it
  -- begins at the view of the database.
  pub answers-eq-expected :
      (calls : List Call) (s : Server) → answers calls s ≡ expected calls (view s.db)
  unfolding answers expected
  answers-eq-expected [] s = refl
  answers-eq-expected (c ∷ calls) s =
      let (same, after) = agrees c s in
      rw (answers-eq-expected calls (answer c s).1, after, same) refl
