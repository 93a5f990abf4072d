-- ===== src/Api/Request.antt =====
-- crates/accord-server/src/util.rs and `JwtKeys::verify` of auth/jwt.rs: who sends a request; and
-- the ids that requests carry. The token library and the `uuid` crate are parameters.
use Prim.Native.Char.{code}
use Prim.Native.String.{String}
use accord_rfc.Base.{◌≡◌, Text, Uuid, Option, none, some, ◌==◌, if◌then◌else◌}
use accord_rfc.Api.Error.{Result, err, ServerError, to_status, bad_argument, ◌>>=◌, ok_or}

-- The fields of `Claims` that the handlers read.
pub record Claims : Type 0 where
  pub sub : Text
  pub device_id : Text

-- `jsonwebtoken::decode` under the server's key (none for an error), `Uuid::parse_str` and
-- `Uuid::to_string`; and the tables of the standard library.
pub record Env : Type 0 where
  pub decode : Text → Option Claims
  pub parse_str : Text → Option Uuid
  pub show : Uuid → Text
  -- `str::to_lowercase`, by the tables of Unicode.
  pub to_lowercase : Text → Text
  -- A uuid is read back from its text.
  pub parse_str-show : (u : Uuid) → parse_str (show u) ≡ some u

-- `str::strip_prefix`
unfoldable pub strip_prefix : Text → Text → Option Text
strip_prefix String.[] s = some s
strip_prefix (String.◌∷◌ c p) String.[] = none
strip_prefix (String.◌∷◌ c p) (String.◌∷◌ d s) = if code c == code d then strip_prefix p s else none

-- `strip_prefix("Bearer ").unwrap_or(header)`
bearer : Text → Text
unfolding strip_prefix
bearer header = elim (strip_prefix "Bearer " header) [ some token ↦ token | none ↦ header ]

module _ (env : Env) where
  -- `JwtKeys::verify`
  unfoldable pub verify : Text → Result Claims
  verify token = ok_or (env.decode token) (err (to_status ServerError.unauthenticated))

  -- `authenticate`, on the header `authorization` of the request.
  unfoldable pub authenticate : Option Text → Result Claims
  unfolding verify bearer
  authenticate none = err (to_status ServerError.unauthenticated)
  authenticate (some header) = verify (bearer header)

  -- `parse_uuid`, with its message.
  unfoldable pub parse_uuid : Text → Text → Result Uuid
  parse_uuid s message = ok_or (env.parse_str s) (bad_argument message)

  -- `require_group_id` and `require_user_id`: an optional field that holds an id.
  unfoldable pub require_id : Option Text → Text → Text → Result Uuid
  unfolding parse_uuid
  require_id none absent malformed = bad_argument absent
  require_id (some s) absent malformed = parse_uuid s malformed

  unfoldable pub require_group_id : Option Text → Result Uuid
  unfolding require_id
  require_group_id id = require_id id "group_id is required" "group_id is not a valid UUID"

  unfoldable pub require_user_id : Option Text → Result Uuid
  unfolding require_id
  require_user_id id = require_id id "user_id is required" "user_id is not a valid UUID"

  -- The account that sends the request, and the message for a subject that is no id.
  unfoldable pub caller : Option Text → Text → Result Uuid
  unfolding authenticate parse_uuid
  caller header message = do claims ← authenticate header; parse_uuid claims.sub message
