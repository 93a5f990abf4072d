-- ===== src/Auth/Issuing.antt =====
-- `issue_session`, and the two ways to log in: whose session it is, and what it changes.
use accord_rfc.Base.{
  ℕ, suc, ◌+◌, ◌≡◌, inl, inr, refl, subst, sym, ap, ◌∙◌, ◌||◌, [], ◌∷◌, ◌++◌, none, some, Text,
  text_eq, text_eq_refl, Uuid, filter, find-append_none, Option-cases, arith,
}
use accord_rfc.Store.{User, RefreshToken, Db}
use accord_rfc.Store.Groups.{find_group, is_member}
use accord_rfc.Store.Sessions.{find_device, is_device_of, newest, lookup_refresh_token}
use accord_rfc.Api.Error.{Result, ok, err, Status}
use accord_rfc.Api.Request.{Env}
use accord_rfc.Api.Server.{Server, modify_db}
use accord_rfc.Api.Action.{Action, after, pure, ◌>>=◌, ◌>>◌}
use accord_rfc.Auth.Crypto.{Crypto}
use accord_rfc.Auth.Register.{AuthSvc}
use accord_rfc.Auth.Tokens.{in_use_lem, unused_lem}
use accord_rfc.Auth.Session.{
  LoginResponse, device_name_of, refresh_ttl, session_device, auto_join, issue, issue_session,
  new_refresh_token,
}
use accord_rfc.Auth.Joining.{session_device-Chosen, joins, auto_join-only, is_member-auto_join}

module _ (env : Env) (user : User) (device_name : Text) where
  -- A session is for the account and for a device of it that is not revoked, and nothing but the
  -- devices, the memberships and the refresh tokens is changed.
  pub record Issued (db : Db) (session : LoginResponse) (db' : Db) : Type 0 where
    pub device : Uuid
    pub owned : find_device db' user.id (device_name_of device_name) ≡ some device
    pub for_user : session.user_id ≡ env.show user.id
    pub for_device : session.device_id ≡ env.show device
    pub expires : ℕ
    pub token :
        lookup_refresh_token db' session.refresh_token
        ≡ some (record {
          token = session.refresh_token;
          user_id = user.id;
          device_id = device;
          expires_at = expires;
        })
    pub members : (g u : Uuid) → is_member db' g u ≡ (is_member db g u || joins user db g u)
    pub only :
        record db' { refresh_tokens = db.refresh_tokens }
        ≡ record db { devices = db'.devices; group_members = db'.group_members }

  pub record IssueOutcome (db : Db) (p : Result LoginResponse × Server) : Type 0 where
    pub issued : (session : LoginResponse) → p.0 ≡ ok session → Issued db session p.1.db
    pub failing :
        (e : Status)
        → p.0 ≡ err e
        → p.1.db ≡ record db { devices = p.1.db.devices; group_members = p.1.db.group_members }

  -- What follows once the device is known.
  abbrev rest : Crypto → AuthSvc → Uuid → Action Server LoginResponse
  rest crypto auth device = do
    modify_db (auto_join user)
    access ← issue env crypto auth user.id device
    refresh ← new_refresh_token env crypto auth user.id device
    pure (record {
      access_token = access;
      refresh_token = refresh;
      user_id = env.show user.id;
      device_id = env.show device;
    })

  module _ (crypto : Crypto) (auth : AuthSvc) (db : Db) (device : Uuid) (s : Server)
      (there : find_device s.db user.id (device_name_of device_name) ≡ some device)
      (only : s.db ≡ record db { devices = s.db.devices }) where
    joined : Db
    joined = auto_join user s.db

    same_devices : joined.devices ≡ s.db.devices
    unfolding joined
    same_devices = ap (λ (d : Db). d.devices) (auto_join-only user s.db)

    joined_only :
        joined ≡ record db { devices = joined.devices; group_members = joined.group_members }
    unfolding joined
    joined_only =
        auto_join-only user s.db
        ∙ ap (λ (d : Db). record d { group_members = (auto_join user s.db).group_members }) only
        ∙ ap (λ ds. record db { devices = ds; group_members = (auto_join user s.db).group_members })
            (sym same_devices)

    session_of : Text → Text → LoginResponse
    session_of access fresh = record {
      access_token = access;
      refresh_token = fresh;
      user_id = env.show user.id;
      device_id = env.show device;
    }

    stored : Text → ℕ → Db
    stored fresh expires = record joined {
      refresh_tokens =
          joined.refresh_tokens
          ++ record { token = fresh; user_id = user.id; device_id = device; expires_at = expires }
            ∷ [];
    }

    session-Issued :
        (access fresh : Text) (expires : ℕ)
        → lookup_refresh_token joined fresh ≡ none
        → Issued db (session_of access fresh) (stored fresh expires)
    unfolding find_device lookup_refresh_token is_member joined find_group session_of stored
    session-Issued access fresh expires unused = record {
      device = device;
      owned =
          ap (λ ds. newest (filter (is_device_of user.id (device_name_of device_name)) ds))
            same_devices
          ∙ there;
      for_user = refl;
      for_device = refl;
      expires = expires;
      token =
          find-append_none (λ (t : RefreshToken). text_eq t.token fresh) joined.refresh_tokens _
            unused (text_eq_refl fresh);
      members = λ g u.
          is_member-auto_join user s.db g u
          ∙ ap (λ (d : Db). is_member d g u || joins user d g u) only;
      only = ap (λ (d : Db). record d { refresh_tokens = db.refresh_tokens }) joined_only;
    }

    rest-IssueOutcome : IssueOutcome db (rest crypto auth device s)
    unfolding joined session_of stored
    rest-IssueOutcome =
        after (IssueOutcome db) (issue env crypto auth user.id device s2).0 _ s3
          (λ e h. record { issued = λ session k. ground arith; failing = λ e' k. joined_only })
          λ access h.
            elim (Option-cases (lookup_refresh_token joined (env.show (s3.ids s3.ticks)))) [
              | inl unused ↦ rw (unused_lem env crypto auth user.id device s3 unused) (record {
                issued = λ session k.
                    subst
                      (λ (r : LoginResponse).
                        Issued db r
                          (stored (env.show (s3.ids s3.ticks)) (s3.times s3.ticks + refresh_ttl)))
                      (same_session access session k)
                      (session-Issued access (env.show (s3.ids s3.ticks))
                        (s3.times s3.ticks + refresh_ttl) unused);
                failing = λ e' k. ground arith;
              })
              | inr (other, used) ↦
                  rw (in_use_lem env crypto auth user.id device s3 other used)
                    (record { issued = λ session k. ground arith; failing = λ e' k. joined_only })
            ]
      where
        s2 : Server
        s2 = record s { db = auto_join user s.db }

        s3 : Server
        s3 = record s2 { ticks = suc s2.ticks }

        same_session :
            (access : Text) (session : LoginResponse)
            → ok (session_of access (env.show (s3.ids s3.ticks))) ≡ ok session
            → session_of access (env.show (s3.ids s3.ticks)) ≡ session
        same_session access session k = cc

  pub issue_session-IssueOutcome :
      (crypto : Crypto) (auth : AuthSvc) (s : Server)
      → IssueOutcome s.db (issue_session env crypto auth user device_name s)
  unfolding issue_session
  issue_session-IssueOutcome crypto auth s =
      let c = session_device-Chosen user.id (device_name_of device_name) s in
      rw c.chosen (
        rest-IssueOutcome crypto auth s.db c.device
          (session_device user.id (device_name_of device_name) s).1 c.there c.only)
