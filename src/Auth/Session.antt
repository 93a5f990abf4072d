-- ===== src/Auth/Session.antt =====
-- The sessions of crates/accord-server/src/auth/service.rs, with auth/jwt.rs and
-- `verify_password` of auth/password.rs.
use accord_rfc.Base.{
  ℕ, suc, ◌+◌, ◌*◌, ◌/◌, Bool, false, not, length, none, some, Text, text_eq, Uuid, Bytes, trim,
  is_empty, is_some, ltb, ◌==◌, if◌then◌else◌,
}
use accord_rfc.Store.{User, RefreshToken, Db}
use accord_rfc.Store.Users.{find_user_by_username}
use accord_rfc.Store.Groups.{find_group, add_member}
use accord_rfc.Store.Moderation.{is_banned}
use accord_rfc.Store.Sessions.{
  find_user_by_identity, find_device, create_device, lookup_refresh_token, store_refresh_token,
  delete_refresh_token,
}
use accord_rfc.Api.Error.{
  Result, ok, err, Code, ServerError, to_status, bad_argument, ok_or, ◌>>=◌ as and_then,
}
use accord_rfc.Api.Request.{Env}
use accord_rfc.Api.Server.{Server, reads_db, modify_db, draw}
use accord_rfc.Api.Action.{Action, pure, lift, ◌>>=◌, ◌>>◌}
use accord_rfc.Auth.Crypto.{Crypto}
use accord_rfc.Auth.Register.{AuthSvc, failed}
use accord_rfc.Auth.Hex.{hex_encode}

-- `LoginResponse`
pub record LoginResponse : Type 0 where
  pub access_token : Text
  pub refresh_token : Text
  pub user_id : Text
  pub device_id : Text

abbrev pub unauthenticated {ℓ} : {A : Type ℓ} → Result A
unauthenticated = err (to_status ServerError.unauthenticated)

-- `DEFAULT_PUBLIC_CHANNEL_ID`
abbrev pub default_channel : Uuid
default_channel = 0x01900000000070008000000000000001

-- `REFRESH_TOKEN_TTL_DAYS`, in milliseconds.
abbrev pub refresh_ttl : ℕ
refresh_ttl = 30 * 86400000

-- `CHALLENGE_TTL_SECS`
abbrev pub challenge_ttl : ℕ
challenge_ttl = 120

abbrev pub device_name_of : Text → Text
device_name_of name = if is_empty (trim name) then "Unknown device" else trim name

-- `verify_password`
abbrev pub verify_password : Crypto → Text → Text → Result Bool
verify_password crypto password stored =
    if is_empty stored then ok false else ok_or (crypto.verify_hash password stored) failed

abbrev pub check_password_of : Crypto → Text → User → Result (Unit {0})
check_password_of crypto password user =
    and_then (verify_password crypto password user.password_hash)
      λ matches. if matches then ok tt else unauthenticated

abbrev pub check_ban : Db → Uuid → Result (Unit {0})
check_ban db user_id =
    if is_banned db user_id
    then err (record { code = Code.permission_denied; message = "this account is banned" })
    else ok tt

-- The device of the session: one of that name, or a new one.
abbrev pub session_device : Uuid → Text → Action Server Uuid
session_device user_id name s = elim (find_device s.db user_id name) [
  | some device_id ↦ (ok device_id, s)
  | none ↦ (
    ok (s.ids s.ticks),
    record s { db = create_device (s.ids s.ticks) user_id name s.db; ticks = suc s.ticks },
  )
]

-- The auto-join. A channel that does not exist is an error that is only logged.
abbrev pub auto_join : User → Db → Db
auto_join user db =
    if user.is_guest
    then db
    else if is_some (find_group db default_channel)
    then add_member default_channel user.id "member" db
    else db

module _ (env : Env) (crypto : Crypto) (auth : AuthSvc) where
  -- `JwtKeys::issue`. The clock shows milliseconds, the claims have seconds.
  abbrev pub issue : Uuid → Uuid → Action Server Text
  issue user_id device_id s =
      let now = s.times s.ticks / 1000 in
      (
        ok_or
            (crypto.encode (record { sub = env.show user_id; device_id = env.show device_id }) now
              (now + auth.ttl_secs))
            failed,
        record s { ticks = suc s.ticks },
      )

  -- A refresh token that is drawn and stored.
  abbrev pub new_refresh_token : Uuid → Uuid → Action Server Text
  new_refresh_token user_id device_id s =
      let token = env.show (s.ids s.ticks) in
      elim (store_refresh_token token user_id device_id (s.times s.ticks + refresh_ttl) s.db) [
        | none ↦ (failed, record s { ticks = suc s.ticks })
        | some db ↦ (ok token, record s { db = db; ticks = suc s.ticks })
      ]

  -- `issue_session`
  unfoldable pub issue_session : User → Text → Action Server LoginResponse
  issue_session user device_name = do
    device_id ← session_device user.id (device_name_of device_name)
    modify_db (auto_join user)
    access ← issue user.id device_id
    refresh ← new_refresh_token user.id device_id
    pure (record {
      access_token = access;
      refresh_token = refresh;
      user_id = env.show user.id;
      device_id = env.show device_id;
    })

  -- `login`
  unfoldable pub login : Text → Text → Text → Action Server LoginResponse
  unfolding issue_session
  login username password device_name = do
    user ← reads_db λ db. ok_or (find_user_by_username db (trim username)) unauthenticated
    lift (check_password_of crypto password user)
    reads_db λ db. check_ban db user.id
    issue_session user device_name

  -- `request_challenge`, with `JwtKeys::issue_challenge`.
  unfoldable pub request_challenge : Bytes → Action Server Text
  request_challenge key = do
    lift (if length key == 32 then ok tt else bad_argument "identity key must be 32 bytes")
    (nonce, time) ← draw
    lift (
        ok_or
          (crypto.encode_challenge (hex_encode key) "challenge" (env.show nonce) (time / 1000)
            (time / 1000 + challenge_ttl))
          failed)

  -- `JwtKeys::verify_challenge`
  abbrev pub verify_challenge : Text → Result Text
  verify_challenge challenge = elim (crypto.decode_challenge challenge) [
    | none ↦ unauthenticated
    | some (sub, purpose) ↦ if text_eq purpose "challenge" then ok sub else unauthenticated
  ]

  -- What `login_with_key` asks of the key, the challenge and the signature.
  abbrev pub check_proof : Bytes → Text → Bytes → Result (Unit {0})
  check_proof key challenge signature =
      if not (length key == 32)
      then bad_argument "identity key must be 32 bytes"
      else if not (length signature == 64)
      then bad_argument "signature must be 64 bytes"
      else and_then (verify_challenge challenge) λ challenge_for.
        if not (text_eq challenge_for (hex_encode key))
        then unauthenticated
        else if crypto.verify_strict key challenge signature
        then ok tt
        else unauthenticated

  -- `login_with_key`
  unfoldable pub login_with_key : Bytes → Text → Bytes → Text → Action Server LoginResponse
  unfolding issue_session
  login_with_key key challenge signature device_name = do
    lift (check_proof key challenge signature)
    user ← reads_db λ db. ok_or (find_user_by_identity db key) unauthenticated
    reads_db λ db. check_ban db user.id
    issue_session user device_name

  abbrev pub check_expiry : RefreshToken → Action Server Unit
  check_expiry row s = (
    if ltb row.expires_at (s.times s.ticks) then unauthenticated else ok tt,
    record s { ticks = suc s.ticks },
  )

  -- `refresh_token`: the access token and the new refresh token.
  unfoldable pub refresh_token : Text → Action Server (Text × Text)
  refresh_token token = do
    row ← reads_db λ db. ok_or (lookup_refresh_token db token) unauthenticated
    check_expiry row
    access ← issue row.user_id row.device_id
    refresh ← new_refresh_token row.user_id row.device_id
    modify_db (delete_refresh_token token)
    pure (access, refresh)
