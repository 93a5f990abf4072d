-- ===== src/Auth/Tokens.antt =====
-- `new_refresh_token` of the sessions, by whether the token that is drawn is in use.
use accord_rfc.Base.{suc, ◌+◌, ◌≡◌, refl, [], ◌∷◌, ◌++◌, none, some, Uuid}
use accord_rfc.Store.{RefreshToken}
use accord_rfc.Store.Sessions.{lookup_refresh_token, store_refresh_token}
use accord_rfc.Api.Error.{ok}
use accord_rfc.Api.Request.{Env}
use accord_rfc.Api.Server.{Server}
use accord_rfc.Auth.Crypto.{Crypto}
use accord_rfc.Auth.Register.{AuthSvc, failed}
use accord_rfc.Auth.Session.{refresh_ttl, new_refresh_token}

module _ (env : Env) (crypto : Crypto) (auth : AuthSvc) (user device : Uuid) (s : Server) where
  pub in_use_lem :
      (row : RefreshToken)
      → lookup_refresh_token s.db (env.show (s.ids s.ticks)) ≡ some row
      → new_refresh_token env crypto auth user device s ≡ (failed, record s { ticks = suc s.ticks })
  unfolding store_refresh_token
  in_use_lem row e = rw (new_refresh_token, e) refl

  pub unused_lem :
      lookup_refresh_token s.db (env.show (s.ids s.ticks)) ≡ none
      → new_refresh_token env crypto auth user device s ≡ (
        ok (env.show (s.ids s.ticks)),
        record s {
          db = record s.db {
            refresh_tokens =
                s.db.refresh_tokens
                ++ record {
                  token = env.show (s.ids s.ticks);
                  user_id = user;
                  device_id = device;
                  expires_at = s.times s.ticks + refresh_ttl;
                }
                  ∷ [];
          };
          ticks = suc s.ticks;
        },
      )
  unfolding store_refresh_token
  unused_lem e = rw (new_refresh_token, e) refl
