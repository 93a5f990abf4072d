-- ===== src/Auth/Tests.antt =====
-- Instances of the theorems on accounts: hashes and tokens that show what they are made of, and
-- the members of a tavern, of whom one has a password and one a key.
use accord_rfc.Base.{
  ◌+◌, ◌*◌, ◌≤◌, refl, arith, true, false, List, [], ◌∷◌, length, filter, some, text_eq, Bytes, inr,
}
use accord_rfc.Store.{Db, empty_db}
use accord_rfc.Store.Examples.{member}
use accord_rfc.Hub.{empty_hub}
use accord_rfc.Guardrails.{new_guardrails}
use accord_rfc.Guardrails.Bucket.{second}
use accord_rfc.Api.Server.{Server, v4, v6}
use accord_rfc.Api.Examples.{tally}
use accord_rfc.Auth.Crypto.{Crypto}
use accord_rfc.Auth.Hex.{hex_encode}
use accord_rfc.Auth.Register.{AuthSvc, RegisterRequest, register}
use accord_rfc.Auth.Accounts.{Accounts, register-Accounts}
use accord_rfc.Auth.Brake.{Call, in_window, passes, passes_bounded}
use accord_rfc.Auth.Session.{login, login_with_key, refresh_token}
use accord_rfc.Auth.Login.{
  LoginOutcome, KnowsPassword, HoldsKey, login-LoginOutcome, login_with_key-LoginOutcome,
}
use accord_rfc.Auth.Rotation.{RotateOutcome, refresh_token-RotateOutcome}

abbrev plain : Crypto
plain = record {
  hash = λ password salt. some password;
  verify_hash = λ password stored. some (text_eq password stored);
  encode = λ claims iat exp. some claims.sub;
  encode_challenge = λ key purpose nonce iat exp. some key;
  decode_challenge = λ challenge. some (challenge, "challenge");
  verify_strict = λ key challenge signature. true;
  simple = tally.show;
}

abbrev invite_only : AuthSvc
invite_only = record { require_invite = true; open_dms = true; ttl_secs = 3600 }

abbrev key : Bytes
key =
    0 ∷ 1 ∷ 2 ∷ 3 ∷ 4 ∷ 5 ∷ 6 ∷ 7 ∷ 8 ∷ 9 ∷ 10 ∷ 11 ∷ 12 ∷ 13 ∷ 14 ∷ 15 ∷ 16 ∷ 17 ∷ 18 ∷ 19 ∷ 20
    ∷ 21 ∷ 22 ∷ 23 ∷ 24 ∷ 25 ∷ 26 ∷ 27 ∷ 28 ∷ 29 ∷ 30 ∷ 31 ∷ []

abbrev signature : Bytes
signature =
    0 ∷ 0 ∷ 0 ∷ 0 ∷ 0 ∷ 0 ∷ 0 ∷ 0 ∷ 0 ∷ 0 ∷ 0 ∷ 0 ∷ 0 ∷ 0 ∷ 0 ∷ 0 ∷ 0 ∷ 0 ∷ 0 ∷ 0 ∷ 0 ∷ 0 ∷ 0 ∷ 0
    ∷ 0 ∷ 0 ∷ 0 ∷ 0 ∷ 0 ∷ 0 ∷ 0 ∷ 0 ∷ 0 ∷ 0 ∷ 0 ∷ 0 ∷ 0 ∷ 0 ∷ 0 ∷ 0 ∷ 0 ∷ 0 ∷ 0 ∷ 0 ∷ 0 ∷ 0 ∷ 0 ∷ 0
    ∷ 0 ∷ 0 ∷ 0 ∷ 0 ∷ 0 ∷ 0 ∷ 0 ∷ 0 ∷ 0 ∷ 0 ∷ 0 ∷ 0 ∷ 0 ∷ 0 ∷ 0 ∷ 0 ∷ []

abbrev accounts : Db
accounts = record empty_db {
  users =
      record (member 1 "ann" true) { password_hash = "password" }
      ∷ record (member 2 "bob" false) { identity_key = some key }
      ∷ [];
  refresh_tokens = record { token = "iiii"; user_id = 2; device_id = 7; expires_at = 1000 } ∷ [];
}

abbrev server : Server
server = record {
  db = accounts;
  hub = empty_hub;
  guardrails = new_guardrails false;
  registrations = λ ip. [];
  ids = λ n. 100 + n;
  instants = λ n. n;
  times = λ n. n;
  ticks = 0;
}

abbrev request : RegisterRequest
request = record {
  username = " cid ";
  password = "passwords";
  display_name = "";
  invite_token = "";
  identity_pubkey = [];
}

register-Accounts_example :
    Accounts (register tally plain invite_only (some (v4 1)) request server).1.db.users
register-Accounts_example =
    register-Accounts tally plain invite_only (some (v4 1)) request server (record {
      distinct = (refl, (refl, tt));
      one_owner = (refl, tt);
      owner_no_guest = (inr refl, (inr refl, tt));
    })

login-LoginOutcome_example :
    LoginOutcome tally "laptop"
      (KnowsPassword plain " ann " "password" accounts)
      accounts
      (login tally plain invite_only " ann " "password" "laptop" server)
login-LoginOutcome_example =
    login-LoginOutcome tally plain invite_only " ann " "password" "laptop" server

login_with_key-LoginOutcome_example :
    LoginOutcome tally ""
      (HoldsKey plain key (hex_encode key) signature accounts)
      accounts
      (login_with_key tally plain invite_only key (hex_encode key) signature "" server)
login_with_key-LoginOutcome_example =
    login_with_key-LoginOutcome tally plain invite_only key (hex_encode key) signature "" server

refresh_token-RotateOutcome_example :
    RotateOutcome tally plain invite_only "iiii" server
      (refresh_token tally plain invite_only "iiii" server)
refresh_token-RotateOutcome_example =
    refresh_token-RotateOutcome tally plain invite_only "iiii" server

abbrev calls : List Call
calls =
    (v4 7, 1)
    ∷ (v4 7, 2)
    ∷ (v6 7, 2)
    ∷ (v4 7, 3)
    ∷ (v4 7, 4)
    ∷ (v4 7, 5)
    ∷ (v4 7, 6)
    ∷ (v4 7, 4000 * second)
    ∷ []

passes_bounded_example : length (filter (in_window 0) (passes (v4 7) calls (λ ip. []))) ≤ 5
passes_bounded_example = passes_bounded (v4 7) calls (λ ip. []) 0 0 refl (omega arith)
