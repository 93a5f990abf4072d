-- ===== src/Auth/Registration.antt =====
-- crates/accord-server/src/auth/service.rs: what `register` does to the accounts.
use accord_rfc.Base.{
  suc, ◌≤◌, ◌≡◌, ◌⊎◌, inl, inr, refl, subst, ap, ◌∙◌, Bool, true, false, not, ◌&&◌, [], ◌∷◌, ◌++◌,
  Option, none, some, Text, Uuid, Bytes, trim, is_empty, count_bytes, any, ltb, ◌==◌, if◌then◌else◌,
  Bool-cases, arith,
}
use accord_rfc.Store.{User, Db}
use accord_rfc.Store.Users.{count_users}
use accord_rfc.Store.Sessions.{clashes, create_user}
use accord_rfc.Api.Error.{Result, ok, err, Status, ServerError, to_status, bad_argument, denied}
use accord_rfc.Api.Request.{Env}
use accord_rfc.Api.Server.{Server, Address}
use accord_rfc.Api.Action.{Action, after, pure, ◌>>=◌}
use accord_rfc.Auth.Crypto.{Crypto}
use accord_rfc.Auth.Limits.{is_loopback}
use accord_rfc.Auth.Register.{
  AuthSvc, RegisterRequest, is_local, brake, check_password, check_accounts, guest_of,
  is_full_member, checked_key, hash_password, add_user, new_user, register, no_bytes,
}

-- The account that a request from this address has made.
pub record Registered (auth : AuthSvc) (remote : Option Address) (req : RegisterRequest)
    (db db' : Db) : Type 0 where
  pub user : User
  pub only : db' ≡ record db { users = db.users ++ user ∷ [] }
  pub fresh : any (clashes user) db.users ≡ false
  pub name : user.username ≡ trim req.username
  pub named : is_empty user.username ≡ false
  pub first : user.is_owner ≡ (count_users db == 0 && is_local remote)
  pub tier :
      user.is_guest ≡ not (is_full_member auth user.is_owner (is_local remote) db req.invite_token)
  pub admitted : user.is_guest ≡ true → auth.open_dms ≡ true
  -- There is a way to log in: a password that is long enough, or a key of 32 bytes.
  pub secret : (8 ≤ count_bytes req.password) ⊎ (user.identity_key ≡ some req.identity_pubkey)

pub record RegisterOutcome (auth : AuthSvc) (remote : Option Address) (req : RegisterRequest)
    (db : Db) (p : Result Text × Server) : Type 0 where
  pub made : (id : Text) → p.0 ≡ ok id → Registered auth remote req db p.1.db
  pub refused : (e : Status) → p.0 ≡ err e → p.1.db ≡ db

brake-db : (remote : Option Address) (s : Server) → (brake remote s).1.db ≡ s.db
brake-db none s = refl
brake-db (some ip) s = elim (Bool-cases (is_loopback ip)) [ inl e ↦ rw e refl | inr e ↦ rw e refl ]

hash-db :
    (crypto : Crypto) (password : Text) (s : Server) → (hash_password crypto password s).1.db ≡ s.db
hash-db crypto password s = elim (Bool-cases (is_empty password)) [
  | inl e ↦ rw e refl
  | inr e ↦ rw e refl
]

secret_of :
    (password : Text) (db : Db) (pubkey : Bytes) (key : Option Bytes)
    → check_password password pubkey ≡ ok tt
    → checked_key db pubkey ≡ ok key
    → (8 ≤ count_bytes password) ⊎ (key ≡ some pubkey)
secret_of password db pubkey key h k = elim (Bool-cases (is_empty password)) [
  | inl e ↦ inr (keyed (rw e at h) k)
  | inr e ↦ inl (long (rw e at h))
]
  where
    keyed :
        ◌≡◌ {A = Result (Unit {0})}
          (if no_bytes pubkey
            then bad_argument "a password or an identity key is required"
            else ok tt)
          (ok tt)
        → checked_key db pubkey ≡ ok key
        → key ≡ some pubkey
    keyed w k' = ground arith

    long :
        ◌≡◌ {A = Result (Unit {0})}
          (if ltb (count_bytes password) 8
            then bad_argument "password must be at least 8 characters"
            else ok tt)
          (ok tt)
        → 8 ≤ count_bytes password
    long w = ground arith

tier_of :
    (auth : AuthSvc) (first local : Bool) (db : Db) (token : Text) (guest : Bool)
    → guest_of auth first local db token ≡ ok guest
    → (guest ≡ not (is_full_member auth first local db token))
      × (guest ≡ true → auth.open_dms ≡ true)
tier_of auth first local db token guest h =
    split (is_full_member auth first local db token) auth.open_dms h
  where
    split :
        (member open_dms : Bool)
        → (if not member && not open_dms then denied else ok (not member)) ≡ ok guest
        → (guest ≡ not member) × (guest ≡ true → open_dms ≡ true)
    split true open_dms w = (ground arith, ground arith)
    split false true w = (ground arith, ground arith)
    split false false w = absurd (ground arith)

is_named :
    (name : Text)
    → ◌≡◌ {A = Result (Unit {0})}
        (if is_empty name then bad_argument "username is required" else ok tt)
        (ok tt)
    → is_empty name ≡ false
is_named name h = ground arith

module _ (row : Uuid → User) (s : Server) where
  clash_lem :
      any (clashes (row (s.ids s.ticks))) s.db.users ≡ true
      → add_user row s ≡ (
        err (to_status (ServerError.already_exists "username or identity")),
        record s { ticks = suc s.ticks },
      )
  unfolding create_user
  clash_lem e = rw (add_user, e) refl

  added_lem :
      any (clashes (row (s.ids s.ticks))) s.db.users ≡ false
      → add_user row s ≡ (
        ok (s.ids s.ticks),
        record s {
          db = record s.db { users = s.db.users ++ row (s.ids s.ticks) ∷ [] };
          ticks = suc s.ticks;
        },
      )
  unfolding create_user
  added_lem e = rw (add_user, e) refl

-- The last step of the handler.
abbrev finish : Env → (Uuid → User) → Action Server Text
finish env row = add_user row >>= λ id. pure (env.show id)

abbrev first_of : Option Address → Db → Bool
first_of remote db = count_users db == 0 && is_local remote

module _ (auth : AuthSvc) (remote : Option Address) (req : RegisterRequest) where
  refused_with :
      (db : Db) (e : Status) (s : Server)
      → s.db ≡ db
      → RegisterOutcome auth remote req db (err e, s)
  refused_with db e s same = record { made = λ id h. ground arith; refused = λ e' h. same }

  -- The last step: a row with a new id.
  created :
      (env : Env) (hash : Text) (guest : Bool) (key : Option Bytes) (db : Db) (s : Server)
      → s.db ≡ db
      → is_empty (trim req.username) ≡ false
      → guest_of auth (first_of remote db) (is_local remote) db req.invite_token ≡ ok guest
      → (8 ≤ count_bytes req.password) ⊎ (key ≡ some req.identity_pubkey)
      → RegisterOutcome auth remote req db
          (finish env (new_user req hash (first_of remote db) guest key) s)
  created env hash guest key db s same named tier secret =
      elim (Bool-cases (any (clashes row) s.db.users)) [
        | inl e ↦ rw (clash_lem row_of s e) (refused_with db _ _ same)
        | inr e ↦ rw (added_lem row_of s e) (record {
          made = λ id h. registered (subst (λ d. any (clashes row) d.users ≡ false) same e);
          refused = λ e' h. ground arith;
        })
      ]
    where
      row_of : Uuid → User
      row_of = new_user req hash (first_of remote db) guest key

      row : User
      row = row_of (s.ids s.ticks)

      registered :
          any (clashes row) db.users ≡ false
          → Registered auth remote req db (record s.db { users = s.db.users ++ row ∷ [] })
      registered e = record {
        user = row;
        only = ap (λ (d : Db). record d { users = d.users ++ row ∷ [] }) same;
        fresh = e;
        name = refl;
        named = named;
        first = refl;
        tier =
            (tier_of auth (first_of remote db) (is_local remote) db req.invite_token guest tier).0;
        admitted =
            (tier_of auth (first_of remote db) (is_local remote) db req.invite_token guest tier).1;
        secret = secret;
      }

  pub register-RegisterOutcome :
      (env : Env) (crypto : Crypto) (s : Server)
      → RegisterOutcome auth remote req s.db (register env crypto auth remote req s)
  unfolding register
  register-RegisterOutcome env crypto s =
      after P (brake remote s).0 _ b (λ e h. refused_with s.db e b same)
        λ _ allowed.
          after P
            (if is_empty (trim req.username) then bad_argument "username is required" else ok tt) _
            b (λ e h. refused_with s.db e b same)
            λ _ has_name.
              after P (check_password req.password req.identity_pubkey) _ b
                (λ e h. refused_with s.db e b same)
                λ _ has_secret.
                  after P (check_accounts auth (is_local remote) (count_users b.db)) _ b
                    (λ e h. refused_with s.db e b same)
                    λ _ below_cap.
                      after P
                        (guest_of auth (first_of remote b.db) (is_local remote) b.db
                          req.invite_token)
                        _ b (λ e h. refused_with s.db e b same)
                        λ guest tier.
                          after P (checked_key b.db req.identity_pubkey) _ b
                            (λ e h. refused_with s.db e b same)
                            λ key checked.
                              after P (hash_password crypto req.password b).0 _ hashed
                                (λ e h. refused_with s.db e hashed still)
                                λ hash h.
                                  subst
                                    (λ d. RegisterOutcome auth remote req d (
                                      finish env
                                        (new_user req hash (first_of remote b.db) guest key)
                                        hashed))
                                    same
                                    (created env hash guest key b.db hashed
                                      (hash-db crypto req.password b)
                                      (is_named (trim req.username) has_name) tier
                                      (secret_of req.password b.db req.identity_pubkey key
                                        has_secret checked))
    where
      P : Result Text × Server → Type 0
      P = RegisterOutcome auth remote req s.db

      b : Server
      b = (brake remote s).1

      same : b.db ≡ s.db
      same = brake-db remote s

      hashed : Server
      hashed = (hash_password crypto req.password b).1

      still : hashed.db ≡ s.db
      still = hash-db crypto req.password b ∙ same
