-- ===== src/Friends.antt =====
-- crates/accord-server/src/friends/service.rs: friend requests that wait for their recipient.
pub mod Parked
mod Tests
use accord_rfc.Base.{
  ℕ, suc, ◌*◌, Bool, true, false, not, ◌&&◌, ◌||◌, List, [], ◌∷◌, map, Option, none, some, Text,
  text_eq, Uuid, Bytes, length, count_bytes, format, leb, ltb, ◌==◌, if◌then◌else◌,
}
use accord_rfc.Store.{FriendRequest, Db}
use accord_rfc.Store.Users.{user_profile}
use accord_rfc.Store.Blobs
use accord_rfc.Store.Blobs.{count_friend_requests, upsert_friend_request}
use accord_rfc.Links.{Codec, Decoded, LinkError, bad_prefix, bad_base64, bad_payload}
use accord_rfc.Links.Contact.{ContactCode, decode_contact}
use accord_rfc.Api.Error.{Result, ok, err, ServerError, to_status, bad_argument, missing, ok_or}
use accord_rfc.Api.Request.{Env, caller}
use accord_rfc.Api.Server.{Server, reads_db, modify_db}
use accord_rfc.Api.Action.{Action, pure, lift, ◌>>=◌, ◌>>◌}

-- `MAX_PARKED_REQUESTS` and `MAX_CODE_LEN`
abbrev pub max_parked : ℕ
max_parked = 50

abbrev pub max_code_len : ℕ
max_code_len = 8 * 1024

-- `Display` of `ContactError`
abbrev pub shown : LinkError → Text
shown bad_prefix = "not an Accord contact code"
shown bad_base64 = "contact code is malformed (base64)"
shown bad_payload = "contact code is malformed (payload)"

abbrev pub read_code : Decoded ContactCode → Result ContactCode
read_code (Decoded.ok c) = ok c
read_code (Decoded.err e) = bad_argument (format ("bad contact code: " ∷ shown e ∷ []))

abbrev pub check_kind : Text → Result (Unit {0})
check_kind kind =
    if not (text_eq kind "request") && not (text_eq kind "accept")
    then bad_argument "kind must be 'request' or 'accept'"
    else ok tt

abbrev pub check_size : Text → Result (Unit {0})
check_size contact_code =
    if ltb max_code_len (count_bytes contact_code)
    then bad_argument "contact code too large"
    else ok tt

abbrev pub check_identity : ContactCode → Result (Unit {0})
check_identity parsed =
    if not (length parsed.identity_pubkey == 32)
    then bad_argument "contact code has an invalid identity"
    else ok tt

abbrev pub check_room : Db → Uuid → Result (Unit {0})
check_room db recipient =
    if leb max_parked (count_friend_requests db recipient)
    then err (to_status (ServerError.rate_limited "this user has too many pending friend requests"))
    else ok tt

-- `upsert_friend_request`, with an id and a time that are drawn.
abbrev pub park : Uuid → Bytes → Text → Text → Action Server Unit
park recipient sender_identity kind contact_code s =
    elim (upsert_friend_request
      (record {
        id = s.ids s.ticks;
        recipient = recipient;
        sender_identity = sender_identity;
        kind = kind;
        contact_code = contact_code;
        created_at_ms = s.times s.ticks;
      })
      s.db) [
        | none ↦ (err (to_status (ServerError.internal "")), record s { ticks = suc s.ticks })
        | some db ↦ (ok tt, record s { db = db; ticks = suc s.ticks })
      ]

module _ (env : Env) where
  -- `and_then(|u| Uuid::parse_str(&u.value).ok())`
  abbrev pub parsed_id : Option Text → Option Uuid
  parsed_id none = none
  parsed_id (some value) = env.parse_str value

  -- `send_friend_request`
  unfoldable pub send_friend_request :
      Codec ContactCode → Option Text → Option Text → Text → Text → Action Server Unit
  send_friend_request codec header recipient kind contact_code = do
    sender ← lift (caller env header "invalid user id in token")
    to ← lift (ok_or (parsed_id recipient) (bad_argument "recipient id required"))
    lift (check_kind kind)
    lift (check_size contact_code)
    code ← lift (read_code (decode_contact codec contact_code))
    lift (check_identity code)
    reads_db λ db. check_room db to
    park to code.identity_pubkey kind contact_code

  -- `list_friend_requests`
  unfoldable pub list_friend_requests : Option Text → Action Server (List FriendRequest)
  list_friend_requests header = do
    user_id ← lift (caller env header "invalid user id in token")
    reads_db λ db. ok (Blobs.list_friend_requests db user_id)

  -- `delete_friend_request`
  unfoldable pub delete_friend_request : Option Text → Text → Action Server Unit
  delete_friend_request header id = do
    user_id ← lift (caller env header "invalid user id in token")
    modify_db (Blobs.delete_friend_request user_id (λ row. text_eq (env.show row) id))

  -- `get_public_profile`: the username and the name that is shown.
  unfoldable pub get_public_profile : Option Text → Option Text → Action Server (Text × Text)
  get_public_profile header id = do
    lift (caller env header "invalid user id in token")
    user_id ← lift (ok_or (parsed_id id) (bad_argument "user id required"))
    (username, display_name, avatar) ←
        reads_db λ db. ok_or (user_profile db user_id) (missing "no such user")
    pure (username, display_name)
