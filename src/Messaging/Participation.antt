-- ===== src/Messaging/Participation.antt =====
-- `ensure_participant` and the messages that it lets in.
use accord_rfc.Base.{
  ◌≡◌, refl, sym, ap, ◌∙◌, ◌⊎◌, inl, inr, Bool, true, false, not, ◌||◌, Option, none, some, Text,
  Uuid, text_eq, Bool-cases, Option-cases, arith,
}
use accord_rfc.Store.{Group, Db}
use accord_rfc.Store.Users.{is_user_guest}
use accord_rfc.Store.Groups.{is_member, find_group}
use accord_rfc.Store.Groups.Members.{is_member-add_member}
use accord_rfc.Store.Moderation.{is_banned}
use accord_rfc.Api.Error.{Result, ok, err, Status}
use accord_rfc.Api.Request.{Env}
use accord_rfc.Api.Server.{Server}
use accord_rfc.GroupService.Joining.{Joined, Joined-refl, Joined-add_member, IsPublic, Welcome}
use accord_rfc.Messaging.{ensure_participant, join_on_use}

-- What `ensure_participant` has done, by its result.
abbrev pub Participation : Uuid → Uuid → Db → Result Bool × Server → Type 0
Participation group user db (ok true, s') =
    Joined group db s'.db
    × (is_member s'.db group user ≡ true)
    × ((is_member db group user ≡ true) ⊎ (IsPublic db group × Welcome db user))
Participation group user db (ok false, s') =
    (s'.db ≡ db) × (is_member db group user ≡ false) × (¬ (IsPublic db group × Welcome db user))
Participation group user db (err _, s') = (s'.db ≡ db) × (find_group db group ≡ none)

-- The three ways of `ensure_participant`.
already_in :
    (env : Env) (group user : Uuid) (s : Server)
    → is_member s.db group user ≡ true
    → ensure_participant env group user s ≡ (ok true, s)
unfolding ensure_participant
already_in env group user s e = rw e refl

no_group :
    (env : Env) (group user : Uuid) (s : Server)
    → is_member s.db group user ≡ false
    → find_group s.db group ≡ none
    → (e : Status) × (ensure_participant env group user s ≡ (err e, s))
unfolding ensure_participant
no_group env group user s e n = rw (e, n) (_, refl)

on_use :
    (env : Env) (group user : Uuid) (row : Group) (s : Server)
    → is_member s.db group user ≡ false
    → find_group s.db group ≡ some row
    → ensure_participant env group user s ≡ join_on_use env group user row s
unfolding ensure_participant
on_use env group user row s e n = rw (e, n) refl

-- The test of `join_on_use`.
abbrev shut_out : Db → Uuid → Group → Bool
shut_out db user row =
    not (text_eq row.kind "public") || (is_user_guest db user || is_banned db user)

stays_out :
    (db : Db) (group user : Uuid) (row : Group)
    → find_group db group ≡ some row
    → shut_out db user row ≡ true
    → IsPublic db group
    → ¬ Welcome db user
stays_out db group user row n h (row', n', public) w =
    let same : some row ≡ some row' = sym n ∙ n' in
    let same_kind : row.kind ≡ row'.kind = ap kind_of same in ground arith
  where
    kind_of : Option Group → Text
    kind_of o = elim o [ some g ↦ g.kind | none ↦ "" ]

-- `ensure_participant` says yes exactly if the account is a member of the group, or the group is
-- a public channel and the account is no guest and not banned: then the account is a member
-- afterwards, nobody is out of a group, and whoever is new is in that group, no guest and not
-- banned. Else the database is as before; an error is a group that does not exist.
pub ensure_participant-Participation :
    (env : Env) (group user : Uuid) (s : Server)
    → Participation group user s.db (ensure_participant env group user s)
ensure_participant-Participation env group user s = elim (Bool-cases (is_member s.db group user)) [
  | inl e ↦ rw (already_in env group user s e) (Joined-refl group s.db, e, inl e)
  | inr e ↦ elim (Option-cases (find_group s.db group)) [
    | inl n ↦ let (status, f) = no_group env group user s e n in rw f (refl, n)
    | inr (row, n) ↦
        rw (on_use env group user row s e n) (decided row e n (Bool-cases (shut_out s.db user row)))
  ]
]
  where
    decided :
        (row : Group)
        → is_member s.db group user ≡ false
        → find_group s.db group ≡ some row
        → (shut_out s.db user row ≡ true) ⊎ (shut_out s.db user row ≡ false)
        → Participation group user s.db (join_on_use env group user row s)
    decided row e n (inl h) = rw h (refl, e, λ q. stays_out s.db group user row n h q.0 q.1)
    decided row e n (inr h) = rw h (
      Joined-add_member group user s.db welcome,
      ground (arith, is_member-add_member group user "member" s.db group user),
      inr ((row, n, ground arith), welcome),
    )
      where
        welcome : Welcome s.db user
        welcome = (ground arith, ground arith)
