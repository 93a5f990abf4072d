-- ===== src/Auth/Rotation.antt =====
-- `refresh_token`: a refresh token is replaced by another, and why a request is refused.
use accord_rfc.Base.{
  ℕ, suc, ◌+◌, ◌/◌, ◌≤◌, ◌<◌, ◌≡◌, ◌≢◌, inl, inr, refl, subst, sym, ap, ◌∙◌, Bool, true, false, not,
  List, [], ◌∷◌, ◌++◌, Option, none, some, Text, text_eq, text_eq_iff, text_eq_refl, text_eq_other,
  text_eq_of_ne, find-filter-none, find-filter_same, find-append_none, find-append_other,
  Bool-cases, Option-cases, arith,
}
use accord_rfc.Store.{RefreshToken, Db}
use accord_rfc.Store.Sessions.{lookup_refresh_token, delete_refresh_token}
use accord_rfc.Api.Error.{Result, ok, err, Status, ok_or, ok_or-err, ok_or-ok}
use accord_rfc.Api.Request.{Env}
use accord_rfc.Api.Server.{Server}
use accord_rfc.Api.Action.{after}
use accord_rfc.Auth.Crypto.{Crypto}
use accord_rfc.Auth.Register.{AuthSvc}
use accord_rfc.Auth.Tokens.{in_use_lem, unused_lem}
use accord_rfc.Auth.Session.{refresh_ttl, unauthenticated, issue, check_expiry, refresh_token}

-- The row of a token that replaces another, from a time on.
abbrev pub successor : RefreshToken → Text → ℕ → RefreshToken
successor row fresh now = record row { token = fresh; expires_at = now + refresh_ttl }

module _ (env : Env) (crypto : Crypto) (auth : AuthSvc) (token : Text) where
  -- What a request draws: the time of the access token, and the new refresh token.
  abbrev pub issued_at : Server → ℕ
  issued_at s = s.times (suc s.ticks) / 1000

  abbrev pub drawn : Server → Text
  drawn s = env.show (s.ids (suc (suc s.ticks)))

  -- The access token for the account and the device of a row.
  abbrev pub access_token : RefreshToken → Server → Option Text
  access_token row s =
      crypto.encode (record { sub = env.show row.user_id; device_id = env.show row.device_id })
        (issued_at s) (issued_at s + auth.ttl_secs)

  -- The token is stored, and not out of date.
  pub record Valid (s : Server) (row : RefreshToken) : Type 0 where
    pub known : lookup_refresh_token s.db token ≡ some row
    pub in_time : s.times s.ticks ≤ row.expires_at

  -- The old token is spent, the new one is for the same account and device, and the others are as
  -- before.
  pub record Rotated (s : Server) (access fresh : Text) (db' : Db) : Type 0 where
    pub row : RefreshToken
    pub valid : Valid s row
    pub signed : access_token row s ≡ some access
    pub unused : lookup_refresh_token s.db fresh ≡ none
    pub new : fresh ≡ drawn s
    pub spent : lookup_refresh_token db' token ≡ none
    pub replaced : (now : ℕ) × (lookup_refresh_token db' fresh ≡ some (successor row fresh now))
    pub others :
        (t : Text)
        → t ≢ token
        → t ≢ fresh
        → lookup_refresh_token db' t ≡ lookup_refresh_token s.db t

  -- Why a request is refused.
  pub data Reason (s : Server) : Type 0 where
    unknown : lookup_refresh_token s.db token ≡ none → Reason s
    expired :
        (row : RefreshToken)
        → lookup_refresh_token s.db token ≡ some row
        → row.expires_at < s.times s.ticks
        → Reason s
    unsigned : (row : RefreshToken) → Valid s row → access_token row s ≡ none → Reason s
    reused :
        (row other : RefreshToken)
        → Valid s row
        → lookup_refresh_token s.db (drawn s) ≡ some other
        → Reason s

  pub record RotateOutcome (s : Server) (p : Result (Text × Text) × Server) : Type 0 where
    pub rotated : (access fresh : Text) → p.0 ≡ ok (access, fresh) → Rotated s access fresh p.1.db
    pub refused : (e : Status) → p.0 ≡ err e → (p.1.db ≡ s.db) × Reason s

  refused_for : (s s' : Server) (e : Status) → s'.db ≡ s.db → Reason s → RotateOutcome s (err e, s')
  refused_for s s' e same why = record {
    rotated = λ a f h. ground arith;
    refused = λ e' h. (same, why);
  }

  -- A token that is stored, after the old one is deleted.
  module _ (s : Server) (row : RefreshToken) (access : Text) (now : ℕ) (valid : Valid s row)
      (signed : access_token row s ≡ some access)
      (unused : lookup_refresh_token s.db (drawn s) ≡ none) where
    abbrev fresh : Text
    fresh = drawn s

    db_after : Db
    db_after =
        delete_refresh_token token
          (record s.db { refresh_tokens = s.db.refresh_tokens ++ successor row fresh now ∷ [] })

    not_old : text_eq fresh token ≡ false
    not_old = elim (Bool-cases (text_eq fresh token)) [
      | inl e ↦ absurd (
          ground (
            arith,
            sym unused
                ∙ ap (lookup_refresh_token s.db) ((text_eq_iff fresh token).0 e)
                ∙ valid.known,
          ))
      | inr e ↦ e
    ]

    is_token : Text → RefreshToken → Bool
    is_token t = λ (x : RefreshToken). text_eq x.token t

    stays : RefreshToken → Bool
    stays = λ (x : RefreshToken). not (text_eq x.token token)

    rows : List RefreshToken
    rows = s.db.refresh_tokens ++ successor row fresh now ∷ []

    stays-other :
        (t : Text)
        → t ≢ token
        → (x : RefreshToken) → text_eq x.token t ≡ true
        → not (text_eq x.token token) ≡ true
    stays-other t n x e = rw (text_eq_other x.token t token n e) refl

    differs : fresh ≢ token
    differs e = ground (arith, not_old, rw e at not_old, text_eq_refl token)

    token-Rotated : Rotated s access fresh db_after
    unfolding lookup_refresh_token delete_refresh_token db_after is_token stays rows
    token-Rotated = record {
      row = row;
      valid = valid;
      signed = signed;
      unused = unused;
      new = refl;
      spent = find-filter-none (is_token token) stays rows (λ t h. rw h refl);
      replaced = (
        now,
        find-filter_same (is_token fresh) stays rows (stays-other fresh differs)
            ∙ find-append_none (is_token fresh) s.db.refresh_tokens (successor row fresh now) unused
                (text_eq_refl fresh),
      );
      others = λ t n m.
          find-filter_same (is_token t) stays rows (stays-other t n)
          ∙ find-append_other (is_token t) s.db.refresh_tokens (successor row fresh now)
              (text_eq_of_ne fresh t (λ e. m (sym e)));
    }

  not_late :
      (row : RefreshToken) (s : Server)
      → (check_expiry env crypto auth row s).0 ≡ ok tt
      → s.times s.ticks ≤ row.expires_at
  not_late row s h = ground arith

  -- A refresh either hands out an access token for the account and the device of the old token,
  -- which was known and not out of date and is known no longer, with the refresh token that is
  -- drawn, which no row had and which is stored for the same account and device, and any third
  -- token is as before; or it ends in an error, the database is as before, and the old token was
  -- unknown or out of date, or no access token could be made for its account and device, or the
  -- refresh token that is drawn was stored already.
  pub refresh_token-RotateOutcome :
      (s : Server) → RotateOutcome s (refresh_token env crypto auth token s)
  unfolding refresh_token db_after
  refresh_token-RotateOutcome s =
      after P (ok_or (lookup_refresh_token s.db token) unauthenticated) _ s
        (λ e h. refused_for s s e refl (unknown (ok_or-err (lookup_refresh_token s.db token) _ h)))
        λ row h.
          let known : lookup_refresh_token s.db token ≡ some row =
            ok_or-ok (lookup_refresh_token s.db token) _ h in
          after P (check_expiry env crypto auth row s).0 _ s1
            (λ e late. refused_for s s1 e refl (expired row known (ground arith)))
            λ _ early.
              let valid : Valid s row = record { known = known; in_time = not_late row s early } in
              after P (issue env crypto auth row.user_id row.device_id s1).0 _ s2
                (λ e unsigned_by.
                  refused_for s s2 e refl (unsigned row valid (ok_or-err _ _ unsigned_by)))
                λ access signed. elim (Option-cases (lookup_refresh_token s.db (drawn s))) [
                  | inl unused ↦
                      rw (unused_lem env crypto auth row.user_id row.device_id s2 unused) (record {
                        rotated = λ a f e.
                            subst
                              (λ (q : Text × Text). Rotated s q.0 q.1 (
                                db_after s row access (s.times (suc (suc s.ticks))) valid
                                  (ok_or-ok _ _ signed) unused))
                              (told e)
                              (token-Rotated s row access (s.times (suc (suc s.ticks))) valid
                                (ok_or-ok _ _ signed) unused);
                        refused = λ e' k. ground arith;
                      })
                  | inr (other, used) ↦
                      rw (in_use_lem env crypto auth row.user_id row.device_id s2 other used)
                        (refused_for s _ _ refl (reused row other valid used))
                ]
    where
      told : {p q : Text × Text} → ◌≡◌ {A = Result (Text × Text)} (ok p) (ok q) → p ≡ q
      told e = ground arith

      P : Result (Text × Text) × Server → Type 0
      P = RotateOutcome s

      s1 : Server
      s1 = record s { ticks = suc s.ticks }

      s2 : Server
      s2 = record s { ticks = suc (suc s.ticks) }
