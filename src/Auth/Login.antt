-- ===== src/Auth/Login.antt =====
-- `login` and `login_with_key`: who gets a session.
use accord_rfc.Base.{
  ◌≡◌, refl, ap, ◌∙◌, Bool, true, false, Option, none, some, Text, text_eq, text_eq_iff, trim,
  is_empty, Uuid, Bytes, length, ◌==◌, if◌then◌else◌, arith,
}
use accord_rfc.Store.{User, Db}
use accord_rfc.Store.Users.{find_user_by_username}
use accord_rfc.Store.Moderation.{is_banned}
use accord_rfc.Store.Sessions.{find_user_by_identity}
use accord_rfc.Api.Error.{
  Result, ok, err, Status, ok_or, ok_or-ok, Passes, Passes-if, Passes->>=, ◌>>=◌ as and_then,
}
use accord_rfc.Api.Request.{Env}
use accord_rfc.Api.Server.{Server}
use accord_rfc.Api.Action.{after}
use accord_rfc.Auth.Crypto.{Crypto}
use accord_rfc.Auth.Register.{AuthSvc, failed}
use accord_rfc.Auth.Hex.{hex_encode}
use accord_rfc.Auth.Session.{
  LoginResponse, unauthenticated, check_password_of, check_ban, check_proof, verify_challenge,
  login, login_with_key,
}
use accord_rfc.Auth.Issuing.{Issued, IssueOutcome, issue_session-IssueOutcome}

-- A login, given what shows that an account may have the session.
module _ (env : Env) (device_name : Text) (Proof : User → Type 0) where
  pub record Session (db : Db) (session : LoginResponse) (db' : Db) : Type 0 where
    pub user : User
    pub proof : Proof user
    pub welcome : is_banned db user.id ≡ false
    pub issued : Issued env user device_name db session db'

  pub record LoginOutcome (db : Db) (p : Result LoginResponse × Server) : Type 0 where
    pub opened : (session : LoginResponse) → p.0 ≡ ok session → Session db session p.1.db
    pub refused :
        (e : Status)
        → p.0 ≡ err e
        → p.1.db ≡ record db { devices = p.1.db.devices; group_members = p.1.db.group_members }

  refused_at : (s : Server) (e : Status) → LoginOutcome s.db (err e, s)
  refused_at s e = record { opened = λ session k. ground arith; refused = λ e' k. refl }

  opened_by :
      (db : Db) (user : User) (p : Result LoginResponse × Server)
      → Proof user
      → is_banned db user.id ≡ false
      → IssueOutcome env user device_name db p
      → LoginOutcome db p
  opened_by db user p proof welcome out = record {
    opened = λ session k. record {
      user = user;
      proof = proof;
      welcome = welcome;
      issued = out.issued session k;
    };
    refused = out.failing;
  }

not_banned :
    (db : Db) (user_id : Uuid) → check_ban db user_id ≡ ok tt → is_banned db user_id ≡ false
not_banned db user_id h = ground arith

-- The password is that of the hash of the account, which is not empty.
abbrev pub KnowsPassword : Crypto → Text → Text → Db → User → Type 0
KnowsPassword crypto username password db user =
    (find_user_by_username db (trim username) ≡ some user)
    × (is_empty user.password_hash ≡ false)
    × (crypto.verify_hash password user.password_hash ≡ some true)

matches_of :
    (crypto : Crypto) (password : Text) (user : User)
    → check_password_of crypto password user ≡ ok tt
    → (is_empty user.password_hash ≡ false)
      × (crypto.verify_hash password user.password_hash ≡ some true)
matches_of crypto password user h =
    split (is_empty user.password_hash) (crypto.verify_hash password user.password_hash) h
  where
    split :
        (e : Bool) (v : Option Bool)
        → Passes (
            and_then
              (if e then ok false else ok_or v failed)
              λ matches. if matches then ok tt else unauthenticated)
        → (e ≡ false) × (v ≡ some true)
    split true v k = absurd (ground arith)
    split false none k = absurd (ground arith)
    split false (some b) k = (refl, ground arith)

-- The challenge was issued for the key, and is signed under it, by a signature of 64 bytes.
abbrev pub HoldsKey : Crypto → Bytes → Text → Bytes → Db → User → Type 0
HoldsKey crypto key challenge signature db user =
    (find_user_by_identity db key ≡ some user)
    × (length key ≡ 32)
    × (length signature ≡ 64)
    × (crypto.decode_challenge challenge ≡ some (hex_encode key, "challenge"))
    × (crypto.verify_strict key challenge signature ≡ true)

challenge_for :
    (env : Env) (crypto : Crypto) (auth : AuthSvc) (challenge sub : Text)
    → verify_challenge env crypto auth challenge ≡ ok sub
    → crypto.decode_challenge challenge ≡ some (sub, "challenge")
challenge_for env crypto auth challenge sub h = split (crypto.decode_challenge challenge) h
  where
    split :
        (o : Option (Text × Text))
        → ◌≡◌ {A = Result Text}
            (elim o [
              | none ↦ unauthenticated
              | some (sub, purpose) ↦
                  if text_eq purpose "challenge" then ok sub else unauthenticated
            ])
            (ok sub)
        → o ≡ some (sub, "challenge")
    split none k = absurd (ground arith)
    split (some (t, purpose)) k = ground (arith, text_eq_iff purpose "challenge")

proof_of :
    (env : Env) (crypto : Crypto) (auth : AuthSvc) (key : Bytes) (challenge : Text)
    (signature : Bytes)
    → check_proof env crypto auth key challenge signature ≡ ok tt
    → (length key ≡ 32)
      × (length signature ≡ 64)
      × (crypto.decode_challenge challenge ≡ some (hex_encode key, "challenge"))
      × (crypto.verify_strict key challenge signature ≡ true)
proof_of env crypto auth key challenge signature h =
    let (size, h1) = Passes-if (length key == 32) _ _ h in
    let (long, h2) = Passes-if (length signature == 64) _ _ h1 in
    let (sub, issued, h3) = Passes->>= (verify_challenge env crypto auth challenge) _ h2 in
    let (same, h4) = Passes-if (text_eq sub (hex_encode key)) _ _ h3 in
    (
      ground arith,
      ground arith,
      challenge_for env crypto auth challenge sub issued
          ∙ ap (λ t. some (t, "challenge")) ((text_eq_iff sub (hex_encode key)).0 same),
      ground arith,
    )

module _ (env : Env) (crypto : Crypto) (auth : AuthSvc) where
  -- A login with a password succeeds only if the username, without white space at its ends, is
  -- that of an account that is not banned, whose hash is not empty and matches the password; the
  -- session that comes back is for a device of that name (or "Unknown device") of the account,
  -- its refresh token is stored for both, the account has joined the default channel, if that
  -- exists and it is no guest, the other memberships are as before, and only memberships, devices
  -- and refresh tokens have changed. A login that fails changes devices and memberships at most.
  pub login-LoginOutcome :
      (username password device_name : Text) (s : Server)
      → LoginOutcome env device_name
          (KnowsPassword crypto username password s.db)
          s.db
          (login env crypto auth username password device_name s)
  unfolding login
  login-LoginOutcome username password device_name s =
      after P (ok_or (find_user_by_username s.db (trim username)) unauthenticated) _ s
        (λ e h. refused_at env device_name K s e)
        λ user found.
          after P (check_password_of crypto password user) _ s
            (λ e h. refused_at env device_name K s e)
            λ _ matches.
              after P (check_ban s.db user.id) _ s (λ e h. refused_at env device_name K s e)
                λ _ allowed.
                  let (hashed, verified) = matches_of crypto password user matches in
                  opened_by env device_name K s.db user _
                    (
                      ok_or-ok (find_user_by_username s.db (trim username)) _ found,
                      hashed,
                      verified,
                    )
                    (not_banned s.db user.id allowed)
                    (issue_session-IssueOutcome env user device_name crypto auth s)
    where
      K : User → Type 0
      K = KnowsPassword crypto username password s.db

      P : Result LoginResponse × Server → Type 0
      P = LoginOutcome env device_name K s.db

  -- A login with a key succeeds only if the key has 32 bytes and the signature 64, the server
  -- reads the challenge as one of its own for just that key, the signature verifies over the
  -- challenge, and the key is that of an account that is not banned; the session that comes back
  -- is for a device of that name (or "Unknown device") of the account, its refresh token is
  -- stored for both, the account has joined the default channel, if that exists and it is no
  -- guest, the other memberships are as before, and only memberships, devices and refresh tokens
  -- have changed. A login that fails changes devices and memberships at most.
  pub login_with_key-LoginOutcome :
      (key : Bytes) (challenge : Text) (signature : Bytes) (device_name : Text) (s : Server)
      → LoginOutcome env device_name
          (HoldsKey crypto key challenge signature s.db)
          s.db
          (login_with_key env crypto auth key challenge signature device_name s)
  unfolding login_with_key
  login_with_key-LoginOutcome key challenge signature device_name s =
      after P (check_proof env crypto auth key challenge signature) _ s
        (λ e h. refused_at env device_name K s e)
        λ _ proved.
          after P (ok_or (find_user_by_identity s.db key) unauthenticated) _ s
            (λ e h. refused_at env device_name K s e)
            λ user found.
              after P (check_ban s.db user.id) _ s (λ e h. refused_at env device_name K s e)
                λ _ allowed.
                  let (size, long, issued, signed) =
                    proof_of env crypto auth key challenge signature proved in
                  opened_by env device_name K s.db user _
                    (ok_or-ok (find_user_by_identity s.db key) _ found, size, long, issued, signed)
                    (not_banned s.db user.id allowed)
                    (issue_session-IssueOutcome env user device_name crypto auth s)
    where
      K : User → Type 0
      K = HoldsKey crypto key challenge signature s.db

      P : Result LoginResponse × Server → Type 0
      P = LoginOutcome env device_name K s.db
