-- ===== src/GroupService/Creation.antt =====
-- `create_public_group`: a channel is made, and its creator is in it.
use accord_rfc.Base.{
  ℕ, suc, ◌≡◌, refl, ap, ◌∙◌, ◌&&◌, ◌||◌, Option, none, some, Text, Uuid, trim, is_empty,
  Bool-cases, Option-cases, if◌then◌else◌, ◌==◌, ==_refl, find-append_none, inl, inr,
}
use accord_rfc.Perms.{manage_channels}
use accord_rfc.Store.{Group, Db}
use accord_rfc.Store.Groups
use accord_rfc.Store.Groups.{is_member, find_group, add_member}
use accord_rfc.Store.Groups.Members.{is_member-add_member}
use accord_rfc.Store.Moderation.{is_banned}
use accord_rfc.Authz.{require}
use accord_rfc.Api.Error.{Result, ok, err, bad_argument}
use accord_rfc.Api.Request.{Env, Claims, authenticate, parse_uuid}
use accord_rfc.Api.Server.{Server}
use accord_rfc.Api.Action.{after}
use accord_rfc.Hub.{Hub, subscribe}
use accord_rfc.Guardrails.{ActionClass}
use accord_rfc.GroupService.{
  guard, channel_names, channel_kind_of, subscribe_device, create_public_group,
}
use accord_rfc.GroupService.Guard.{
  Audited, guard-Audited, guard-ids, SameStanding, SameStanding-refl, Audited-SameStanding,
}

-- The channel `id` is new in the database, `who` has entered it, and nobody else has moved.
pub record Created (who : Uuid) (db : Db) (id : Uuid) (db' : Db) : Type 0 where
  pub may_create : require db who manage_channels ≡ ok tt
  pub was_new : find_group db id ≡ none
  pub is_there : (row : Group) × (find_group db' id ≡ some row) × (row.kind ≡ "public")
  pub members : (g u : Uuid) → is_member db' g u ≡ (is_member db g u || (id == g && who == u))
  pub bans : (u : Uuid) → is_banned db' u ≡ is_banned db u

abbrev pub CreateOutcome : Uuid → Db → Result Uuid × Server → Type 0
CreateOutcome who db (ok id, s') = Created who db id s'.db
CreateOutcome who db (err _, s') = SameStanding db s'.db

find_group-add_member :
    (group user : Uuid) (role : Text) (db : Db) (id : Uuid)
    → find_group (add_member group user role db) id ≡ find_group db id
unfolding add_member find_group
find_group-add_member group user role db id = elim (Bool-cases (is_member db group user)) [
  | inl e ↦ rw e refl
  | inr e ↦ rw e refl
]

is_banned-add_member :
    (group user : Uuid) (role : Text) (db : Db) (u : Uuid)
    → is_banned (add_member group user role db) u ≡ is_banned db u
unfolding add_member is_banned
is_banned-add_member group user role db u = elim (Bool-cases (is_member db group user)) [
  | inl e ↦ rw e refl
  | inr e ↦ rw e refl
]

module _ (who id : Uuid) (name description kind category : Text) where
  abbrev created : Db → Db
  created d = Groups.create_public_group id name description kind category d

  abbrev made : Db → Db
  made d = add_member id who "owner" (created d)

  row_created :
      (d : Db)
      → find_group d id ≡ none
      → (row : Group) × (find_group (created d) id ≡ some row) × (row.kind ≡ "public")
  unfolding Groups.create_public_group find_group
  row_created d new =
      (_, find-append_none (λ (g : Group). g.id == id) d.groups _ new (==_refl id), refl)

  same_standing_created : (d : Db) → SameStanding d (created d)
  unfolding Groups.create_public_group is_member is_banned
  same_standing_created d = record { same_bans = λ u. refl; same_members = λ g u. refl }

  find_group-Audited : (db d : Db) → Audited db d → find_group d id ≡ find_group db id
  unfolding find_group
  find_group-Audited db d (log, e) = rw e refl

  made-Created :
      (db d : Db)
      → require db who manage_channels ≡ ok tt
      → find_group db id ≡ none
      → Audited db d
      → Created who db id (made d)
  made-Created db d may new audited =
      let (row, found, public) = row_created d (find_group-Audited db d audited ∙ new) in
      let before = Audited-SameStanding audited in
      let here = same_standing_created d in
      record {
        may_create = may;
        was_new = new;
        is_there = (row, find_group-add_member id who "owner" (created d) id ∙ found, public);
        members = λ g u.
            is_member-add_member id who "owner" (created d) g u
            ∙ ap (λ x. x || (id == g && who == u))
                (here.same_members g u ∙ before.same_members g u);
        bans = λ u.
            is_banned-add_member id who "owner" (created d) u
            ∙ here.same_bans u
            ∙ before.same_bans u;
      }

subscribe_device_lem :
    (env : Env) (device_id : Text) (group : Uuid) (s : Server)
    → (hub : Hub) × (subscribe_device env device_id group s ≡ (ok tt, record s { hub = hub }))
subscribe_device_lem env device_id group s = elim (Option-cases (env.parse_str device_id)) [
  | inl e ↦ (s.hub, rw (subscribe_device, e) refl)
  | inr (device, e) ↦ (subscribe device group s.hub, rw (subscribe_device, e) refl)
]

-- No group has an id that is drawn.
abbrev pub AllUnused : Server → Type 0
AllUnused s = (n : ℕ) → find_group s.db (s.ids n) ≡ none

-- A request of a known account to create a channel either ends in an error, and who is in which
-- group and who is banned is as before; or the account may manage channels, and afterwards there
-- is a public channel under the id that is returned, which no group had, the account is in it,
-- and who is in the other groups and who is banned is as before, if no group has an id that is
-- drawn.
pub create_public_group-CreateOutcome :
    (env : Env) (header : Option Text) (name description kind category : Text) (s : Server)
    (claims : Claims) (who : Uuid)
    → authenticate env header ≡ ok claims
    → parse_uuid env claims.sub "invalid id in token" ≡ ok who
    → AllUnused s
    → CreateOutcome who s.db (create_public_group env header name description kind category s)
unfolding create_public_group
create_public_group-CreateOutcome env header name description kind category s claims who token known
      new =
    rw (token, known)
      (after P (if is_empty (trim name) then bad_argument "group name is required" else ok tt) _ s
        (λ e h. same)
        λ _ e1.
          after P (require s.db who manage_channels) _ s (λ e h. same)
            λ _ e2.
              after P guarded.0 _ guarded.1 (λ e h. Audited-SameStanding audited)
                λ _ e3.
                  let (hub, subscribed) = subscribe_device_lem env claims.device_id id entered in
                  rw subscribed (
                    made-Created who id (trim name) (trim description) (channel_kind_of kind)
                      (trim category) s.db guarded.1.db e2 unused audited))
  where
    P : Result Uuid × Server → Type 0
    P = CreateOutcome who s.db

    same : SameStanding s.db s.db
    same = SameStanding-refl s.db

    guarded : Result (Unit {0}) × Server
    guarded =
        guard env who ActionClass.create_channel (trim name) (some (trim name))
          (channel_names s.db who) s

    audited : Audited s.db guarded.1.db
    audited =
        guard-Audited env who ActionClass.create_channel (trim name) (some (trim name))
          (channel_names s.db who) s

    id : Uuid
    id = guarded.1.ids guarded.1.ticks

    unused : find_group s.db id ≡ none
    unused =
        rw
          (ap (λ (ids : ℕ → Uuid). ids guarded.1.ticks)
            (guard-ids env who ActionClass.create_channel (trim name) (some (trim name))
              (channel_names s.db who) s))
          (new guarded.1.ticks)

    entered : Server
    entered = record guarded.1 {
      db =
          made who id (trim name) (trim description) (channel_kind_of kind) (trim category)
            guarded.1.db;
      ticks = suc guarded.1.ticks;
    }
