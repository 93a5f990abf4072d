-- ===== src/Auth/Register.antt =====
-- `register` of crates/accord-server/src/auth/service.rs, and `hash_password` of auth/password.rs.
use accord_rfc.Base.{
  ℕ, suc, Bool, true, false, not, ◌&&◌, ◌||◌, [], ◌∷◌, length, Option, none, some, Text, Uuid,
  Bytes, trim, is_empty, count_bytes, leb, ltb, ◌==◌, if◌then◌else◌,
}
use accord_rfc.Store.{User, Db}
use accord_rfc.Store.Users.{count_users}
use accord_rfc.Store.Sessions.{identity_exists, create_user, is_invite_valid}
use accord_rfc.Api.Error.{Result, ok, err, ServerError, to_status, denied, bad_argument, ok_or}
use accord_rfc.Api.Request.{Env}
use accord_rfc.Api.Server.{Server, Address, reads_db}
use accord_rfc.Api.Action.{Action, pure, lift, gets, ◌>>=◌, ◌>>◌}
use accord_rfc.Auth.Crypto.{Crypto}
use accord_rfc.Auth.Limits.{is_loopback, check_registration_rate}

-- `AuthSvc`, without the store and the log: the policy, and how many seconds an access token lives.
pub record AuthSvc : Type 0 where
  pub require_invite : Bool
  pub open_dms : Bool
  pub ttl_secs : ℕ

-- `RegisterRequest`
pub record RegisterRequest : Type 0 where
  pub username : Text
  pub password : Text
  pub display_name : Text
  pub invite_token : Text
  pub identity_pubkey : Bytes

-- A failure of the server itself: `Database`, `Token` and `PasswordHash` look alike.
abbrev pub failed {ℓ} : {A : Type ℓ} → Result A
failed = err (to_status (ServerError.internal ""))

abbrev pub no_bytes : Bytes → Bool
no_bytes [] = true
no_bytes (b ∷ bytes) = false

-- `remote_ip.is_some_and(is_loopback)`
abbrev pub is_local : Option Address → Bool
unfolding is_loopback
is_local none = false
is_local (some ip) = is_loopback ip

-- The limit on registrations, for an address from elsewhere.
abbrev pub brake : Option Address → Action Server Unit
brake none s = (ok tt, s)
brake (some ip) s =
    let (r, log) = check_registration_rate ip (s.instants s.ticks) s.registrations in
    if is_loopback ip
    then (ok tt, s)
    else (r, record s { registrations = log; ticks = suc s.ticks })

-- A password of `MIN_PASSWORD_LEN` bytes, or none and a key.
abbrev pub check_password : Text → Bytes → Result (Unit {0})
check_password password key =
    if is_empty password
    then (if no_bytes key then bad_argument "a password or an identity key is required" else ok tt)
    else if ltb (count_bytes password) 8
    then bad_argument "password must be at least 8 characters"
    else ok tt

-- The name that is shown: the username, where the request has none.
abbrev pub shown_name : Text → Text → Text
shown_name username display_name =
    if is_empty (trim display_name) then username else trim display_name

-- The cap `MAX_LOCAL_ACCOUNTS`.
abbrev pub check_accounts : AuthSvc → Bool → ℕ → Result (Unit {0})
check_accounts auth local user_count =
    if local && (auth.require_invite && leb 3 user_count)
    then bad_argument "account limit reached (3 per device)"
    else ok tt

abbrev pub has_valid_invite : Db → Text → Bool
has_valid_invite db token = not (is_empty (trim token)) && is_invite_valid db (trim token)

-- Whether the account is a full member; else it is a guest, if there are guests.
abbrev pub is_full_member : AuthSvc → Bool → Bool → Db → Text → Bool
is_full_member auth is_first_user local db token =
    not auth.require_invite || (is_first_user || (local || has_valid_invite db token))

abbrev pub guest_of : AuthSvc → Bool → Bool → Db → Text → Result Bool
guest_of auth is_first_user local db token =
    let member = is_full_member auth is_first_user local db token in
    if not member && not auth.open_dms then denied else ok (not member)

abbrev pub checked_key : Db → Bytes → Result (Option Bytes)
checked_key db key =
    if no_bytes key
    then ok none
    else if not (length key == 32)
    then bad_argument "identity key must be 32 bytes"
    else if identity_exists db key
    then err (to_status (ServerError.already_exists "identity key"))
    else ok (some key)

-- `hash_password` under a salt that is drawn; no password has no hash.
abbrev pub hash_password : Crypto → Text → Action Server Text
hash_password crypto password s =
    if is_empty password
    then (ok "", s)
    else (ok_or (crypto.hash password (s.ids s.ticks)) failed, record s { ticks = suc s.ticks })

-- `create_user`, given the row but for its id, which is drawn.
abbrev pub add_user : (Uuid → User) → Action Server Uuid
add_user row s = elim (create_user (row (s.ids s.ticks)) s.db) [
  | none ↦ (
    err (to_status (ServerError.already_exists "username or identity")),
    record s { ticks = suc s.ticks },
  )
  | some db ↦ (ok (s.ids s.ticks), record s { db = db; ticks = suc s.ticks })
]

abbrev pub new_user : RegisterRequest → Text → Bool → Bool → Option Bytes → Uuid → User
new_user req password_hash is_owner is_guest key id = record {
  id = id;
  username = trim req.username;
  display_name = shown_name (trim req.username) req.display_name;
  password_hash = password_hash;
  is_owner = is_owner;
  is_guest = is_guest;
  identity_key = key;
  avatar_url = "";
}

module _ (env : Env) (crypto : Crypto) (auth : AuthSvc) where
  -- `register`, given the address of the peer. What comes back is the id, as a text.
  unfoldable pub register : Option Address → RegisterRequest → Action Server Text
  register remote req = do
    brake remote
    lift (if is_empty (trim req.username) then bad_argument "username is required" else ok tt)
    lift (check_password req.password req.identity_pubkey)
    user_count ← gets (λ (s : Server). count_users s.db)
    let is_first_user = user_count == 0 && is_local remote
    lift (check_accounts auth (is_local remote) user_count)
    guest ← reads_db λ db. guest_of auth is_first_user (is_local remote) db req.invite_token
    key ← reads_db λ db. checked_key db req.identity_pubkey
    password_hash ← hash_password crypto req.password
    user_id ← add_user (new_user req password_hash is_first_user guest key)
    pure (env.show user_id)
