-- ===== src/RoleService/History.antt =====
-- Sequences of requests to `RoleService`, from any number of accounts in any order.
use accord_rfc.Base.{
  ℕ, ◌≤◌, ◌≡◌, refl, inl, inr, true, false, List, [], ◌∷◌, Option, Text, Uuid, arith,
}
use accord_rfc.Perms.{is_admin}
use accord_rfc.Store.{Db}
use accord_rfc.Store.Roles.Keys.{
  Keyed, create_role-Keyed, update_role-Keyed, delete_role-Keyed, reorder_roles-Keyed,
}
use accord_rfc.Store.Roles.Ranks.{Above}
use accord_rfc.Store.Roles.Thresholds.{assign_role-roles}
use accord_rfc.Store.Roles
use accord_rfc.Authz.{effective, rank}
use accord_rfc.Api.Error.{ok, Result-cases}
use accord_rfc.Api.Request.{Env, caller}
use accord_rfc.RoleService.{Call, perform, serve}
use accord_rfc.RoleService.Changes.{
  Change, create, update, delete, reorder, assign, unassign, IsFreshCall, perform-Permitted,
  perform_anonymous,
}
use accord_rfc.RoleService.Hierarchy.{rank-Change}
use accord_rfc.RoleService.Escalation.{is_admin-Change}

Change-Keyed : {who : Uuid} {db db' : Db} → Change who db db' → Keyed db → Keyed db'
unfolding Roles.unassign_role
Change-Keyed {db} (create fresh write free _ _ e) h =
    rw e (create_role-Keyed fresh write db h free.unused)
Change-Keyed {db} (update id role write _ _ _ _ e) h = rw e (update_role-Keyed id write db h)
Change-Keyed {db} (delete id role _ _ _ _ e) h = rw e (delete_role-Keyed id db h)
Change-Keyed {db} (reorder ids _ _ e) h = rw e (reorder_roles-Keyed ids db h)
Change-Keyed {db} (assign user id role _ _ _ _ _ e) h = rw (e, assign_role-roles user id db) h
Change-Keyed {db} (unassign user id role _ _ _ _ e) h = rw e h

module _ (env : Env) where
  -- Who sends a request, if anyone does.
  abbrev pub SentBy : Option Text → Uuid → Type 0
  SentBy header who = caller env header "invalid user id in token" ≡ ok who

  -- One request, for a property of what it leaves.
  perform_cases :
      (P : Db → Type 0) (header : Option Text) (call : Call) (db : Db)
      → IsFreshCall call db
      → P db
      → ((who : Uuid) (db' : Db) → SentBy header who → Change who db db' → P db')
      → P (perform env header call db)
  perform_cases P header call db free same changed =
      elim (Result-cases (caller env header "invalid user id in token")) [
        | inr (e, h) ↦ rw (perform_anonymous env header call e db h) same
        | inl (who, h) ↦ elim (perform-Permitted env header call who db h free) [
          | inl e ↦ rw e same
          | inr c ↦ changed who _ h c
        ]
      ]

  perform-Keyed :
      (header : Option Text) (call : Call) (db : Db)
      → IsFreshCall call db
      → Keyed db
      → Keyed (perform env header call db)
  perform-Keyed header call db free h =
      perform_cases Keyed header call db free h (λ who db' _ c. Change-Keyed c h)

  -- Each id that a request of the history draws is fresh at its time.
  abbrev pub AllFresh : List (Option Text × Call) → Db → Type 0
  AllFresh [] db = Unit
  AllFresh ((header, call) ∷ calls) db =
      IsFreshCall call db × AllFresh calls (perform env header call db)

  -- Each request of the history is sent by an account of which `P` holds, or by nobody.
  abbrev pub AllSentBy : (Uuid → Type 0) → List (Option Text × Call) → Type 0
  AllSentBy P [] = Unit
  AllSentBy P ((header, call) ∷ calls) =
      ((who : Uuid) → SentBy header who → P who) × AllSentBy P calls

  -- After any history of requests by accounts of rank at most `n`, each account has kept its rank,
  -- or was below `n` and still is.

  -- After any sequence of requests to RoleService that are sent by accounts of rank at most n, or
  -- by nobody, each account has kept its rank, or was below n and still is, if role ids were
  -- unique and each id that is drawn is fresh.
  pub rank-serve :
      (n : ℕ) (calls : List (Option Text × Call)) (db : Db) (u : Uuid)
      → Keyed db
      → AllFresh calls db
      → AllSentBy (λ who. rank db who ≤ n) calls
      → Above n (rank db u) (rank (serve env calls db) u)
  unfolding serve
  rank-serve n [] db u key free low = inl refl
  rank-serve n ((header, call) ∷ calls) db u key free low = ground (
    arith,
    step u,
    rank-serve n calls (perform env header call db) u (perform-Keyed header call db free.0 key)
        free.1 (still_low calls low.1),
  )
    where
      -- One request changes ranks below `n` only.
      step : (v : Uuid) → Above n (rank db v) (rank (perform env header call db) v)
      step v =
          perform_cases (λ db'. Above n (rank db v) (rank db' v)) header call db free.0 (inl refl)
            (λ who db' sent c. ground (arith, rank-Change v key c, low.0 who sent))

      still_low :
          (cs : List (Option Text × Call))
          → AllSentBy (λ who. rank db who ≤ n) cs
          → AllSentBy (λ who. rank (perform env header call db) who ≤ n) cs
      still_low [] h = tt
      still_low (c ∷ cs) h = (λ who sent. ground (arith, step who, h.0 who sent), still_low cs h.1)

  -- After any history of requests by accounts that are no administrators, nobody is an
  -- administrator who was none.

  -- After any sequence of requests to RoleService that are sent by accounts that are no
  -- administrators, or by nobody, whoever is an administrator was one before, if role ids were
  -- unique and each id that is drawn is fresh.
  pub no_escalation :
      (calls : List (Option Text × Call)) (db : Db) (u : Uuid)
      → Keyed db
      → AllFresh calls db
      → AllSentBy (λ who. is_admin (effective db who) ≡ false) calls
      → is_admin (effective (serve env calls db) u) ≡ true
      → is_admin (effective db u) ≡ true
  unfolding serve
  no_escalation [] db u key free plain h = h
  no_escalation ((header, call) ∷ calls) db u key free plain h = step u (
      no_escalation calls (perform env header call db) u (perform-Keyed header call db free.0 key)
        free.1 (still_plain calls plain.1) h)
    where
      step :
          (v : Uuid)
          → is_admin (effective (perform env header call db) v) ≡ true
          → is_admin (effective db v) ≡ true
      step v =
          perform_cases
            (λ db'. is_admin (effective db' v) ≡ true → is_admin (effective db v) ≡ true) header
            call db free.0 (λ e. e) (λ who db' sent c. is_admin-Change v key c (plain.0 who sent))

      still_plain :
          (cs : List (Option Text × Call))
          → AllSentBy (λ who. is_admin (effective db who) ≡ false) cs
          → AllSentBy (λ who. is_admin (effective (perform env header call db) who) ≡ false) cs
      still_plain [] k = tt
      still_plain (c ∷ cs) k =
          (λ who sent. ground (arith, step who, k.0 who sent), still_plain cs k.1)
