-- ===== src/Auth/Accounts.antt =====
-- crates/accord-server/src/auth/service.rs: the accounts that registrations make.
use mathlib.Core.List.{append_assoc}
use accord_rfc.Base.{
  ◌≡◌, ◌⊎◌, inl, inr, refl, subst, ap, sym, ◌∙◌, Bool, true, false, not, ◌&&◌, List, [], ◌∷◌, ◌++◌,
  length, Option, any, any-append, All, All-append, ◌==◌, arith,
}
use accord_rfc.Store.{User, Db}
use accord_rfc.Store.Sessions.{clashes}
use accord_rfc.Api.Error.{Result-cases}
use accord_rfc.Api.Request.{Env}
use accord_rfc.Api.Server.{Server, Address}
use accord_rfc.Auth.Crypto.{Crypto}
use accord_rfc.Auth.Register.{AuthSvc, RegisterRequest, is_full_member, is_local, register}
use accord_rfc.Auth.Registration.{Registered, register-RegisterOutcome}

-- No row has the id, the username or the identity key of one before it.
abbrev pub AreDistinct : List User → List User → Type 0
AreDistinct seen [] = Unit
AreDistinct seen (u ∷ us) = (any (clashes u) seen ≡ false) × AreDistinct (seen ++ u ∷ []) us

-- Only the first row can be that of an owner.
abbrev pub OneOwner : List User → Type 0
OneOwner [] = Unit
OneOwner (u ∷ us) = All (λ (v : User). v.is_owner ≡ false) us

abbrev pub IsOneKind : User → Type 0
IsOneKind u = (u.is_owner ≡ false) ⊎ (u.is_guest ≡ false)

pub record Accounts (us : List User) : Type 0 where
  pub distinct : AreDistinct [] us
  pub one_owner : OneOwner us
  pub owner_no_guest : All IsOneKind us

AreDistinct-append :
    (seen us : List User) (new : User)
    → AreDistinct seen us
    → any (clashes new) (seen ++ us) ≡ false
    → AreDistinct seen (us ++ new ∷ [])
AreDistinct-append seen [] new d e = (ground (arith, any-append (clashes new) seen []), tt)
AreDistinct-append seen (u ∷ us) new d e = (
  d.0,
  AreDistinct-append (seen ++ u ∷ []) us new d.1
      (ap (any (clashes new)) (append_assoc seen (u ∷ []) us) ∙ e),
)

OneOwner-append :
    (us : List User) (new : User)
    → OneOwner us
    → (new.is_owner ≡ true → us ≡ [])
    → OneOwner (us ++ new ∷ [])
OneOwner-append [] new h e = tt
OneOwner-append (u ∷ us) new h e =
    All-append (λ (v : User). v.is_owner ≡ false) us (new ∷ []) h (ground arith, tt)

none_registered : (us : List User) (b : Bool) → (length us == 0 && b) ≡ true → us ≡ []
none_registered [] b h = refl
none_registered (u ∷ us) b h = absurd (ground arith)

module _ {auth : AuthSvc} {remote : Option Address} {req : RegisterRequest} {db db' : Db} where
  -- The account that owns the server is at this machine, and so no guest.
  owner_is_member : (r : Registered auth remote req db db') → IsOneKind r.user
  owner_is_member r = owner_or r.user.is_owner r.first r.tier
    where
      owner_or :
          (owner : Bool)
          → owner ≡ (length db.users == 0 && is_local remote)
          → r.user.is_guest ≡ not (is_full_member auth owner (is_local remote) db req.invite_token)
          → (owner ≡ false) ⊎ (r.user.is_guest ≡ false)
      owner_or false first tier = inl refl
      owner_or true first tier = inr (ground arith)

  Registered-Accounts : Registered auth remote req db db' → Accounts db.users → Accounts db'.users
  Registered-Accounts r a =
      subst (λ (d : Db). Accounts d.users) (sym r.only)
        (record {
          distinct = AreDistinct-append [] db.users r.user a.distinct r.fresh;
          one_owner =
              OneOwner-append db.users r.user a.one_owner
                (λ e. none_registered db.users (is_local remote) (sym r.first ∙ e));
          owner_no_guest =
              All-append IsOneKind db.users (r.user ∷ []) a.owner_no_guest (owner_is_member r, tt);
        })

-- A registration keeps the accounts in order: no two share an id, a username or an identity key,
-- only the first may be an owner, and no owner is a guest.
pub register-Accounts :
    (env : Env) (crypto : Crypto) (auth : AuthSvc) (remote : Option Address) (req : RegisterRequest)
    (s : Server)
    → Accounts s.db.users
    → Accounts (register env crypto auth remote req s).1.db.users
register-Accounts env crypto auth remote req s a =
    let out = register-RegisterOutcome auth remote req env crypto s in
    elim (Result-cases (register env crypto auth remote req s).0) [
      | inl (id, e) ↦ Registered-Accounts (out.made id e) a
      | inr (e, h) ↦ subst (λ (d : Db). Accounts d.users) (sym (out.refused e h)) a
    ]
