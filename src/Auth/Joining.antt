-- ===== src/Auth/Joining.antt =====
-- The first steps of `issue_session`: the device, and the default channel.
use accord_rfc.Base.{
  ◌≡◌, inl, inr, refl, ap, ◌∙◌, Bool, not, ◌&&◌, ◌||◌, List, [], ◌∷◌, ◌++◌, Option, none, some,
  Text, text_eq_refl, Uuid, filter, filter-append, is_some, ◌==◌, Bool-cases, Option-cases, arith,
}
use accord_rfc.Store.{User, Device, Db}
use accord_rfc.Store.Groups.{find_group, is_member, add_member}
use accord_rfc.Store.Groups.Members.{is_member-add_member}
use accord_rfc.Store.Sessions.{find_device, create_device, is_device_of, newest, newer}
use accord_rfc.Api.Error.{Result, ok}
use accord_rfc.Api.Server.{Server}
use accord_rfc.Auth.Session.{default_channel, session_device, auto_join}

newest-none : (ds : List Device) → newest ds ≡ none → ds ≡ []
newest-none [] h = refl
newest-none (d ∷ ds) h = absurd (some_newer (newest ds) h)
  where
    some_newer : (o : Option Uuid) → newer d.id o ≡ none → ⊥
    some_newer none k = cc
    some_newer (some i) k = cc

-- A device that is made because none was found is found.
find_device-create_device :
    (id user : Uuid) (name : Text) (db : Db)
    → find_device db user name ≡ none
    → find_device (create_device id user name db) user name ≡ some id
unfolding find_device create_device
find_device-create_device id user name db h =
    ap newest (
      filter-append (is_device_of user name) db.devices _
      ∙ ap (λ ds. ds ++ filter (is_device_of user name) (device ∷ [])) (newest-none _ h))
    ∙ found
  where
    device : Device
    device = record {
      id = id;
      user_id = user;
      name = name;
      revoked_at = none;
      mls_credential = none;
    }

    found : newest (filter (is_device_of user name) (device ∷ [])) ≡ some id
    found = ground (arith, text_eq_refl name)

created :
    (id user : Uuid) (name : Text) (db : Db)
    → create_device id user name db
      ≡ record db { devices = (create_device id user name db).devices }
unfolding create_device
created id user name db = refl

-- The device of a session is there, and only a device was made, if anything.
pub record Chosen (user : Uuid) (name : Text) (s : Server) (p : Result Uuid × Server) : Type 0 where
  pub device : Uuid
  pub chosen : p.0 ≡ ok device
  pub there : find_device p.1.db user name ≡ some device
  pub only : p.1.db ≡ record s.db { devices = p.1.db.devices }

pub session_device-Chosen :
    (user : Uuid) (name : Text) (s : Server) → Chosen user name s (session_device user name s)
session_device-Chosen user name s = elim (Option-cases (find_device s.db user name)) [
  | inl e ↦
      rw (session_device, e)
        (record {
          device = s.ids s.ticks;
          chosen = refl;
          there = find_device-create_device (s.ids s.ticks) user name s.db e;
          only = created (s.ids s.ticks) user name s.db;
        })
  | inr (d, e) ↦
      rw (session_device, e) (record { device = d; chosen = refl; there = e; only = refl })
]

-- Who joins the default channel.
abbrev pub joins : User → Db → Uuid → Uuid → Bool
joins user db g u =
    not user.is_guest
    && (is_some (find_group db default_channel) && (default_channel == g && user.id == u))

add_member-only :
    (group user : Uuid) (role : Text) (db : Db)
    → add_member group user role db
      ≡ record db { group_members = (add_member group user role db).group_members }
unfolding add_member
add_member-only group user role db = elim (Bool-cases (is_member db group user)) [
  | inl e ↦ rw e refl
  | inr e ↦ rw e refl
]

pub auto_join-only :
    (user : User) (db : Db)
    → auto_join user db ≡ record db { group_members = (auto_join user db).group_members }
auto_join-only user db = elim (Bool-cases user.is_guest) [
  | inl e ↦ rw e refl
  | inr e ↦ rw e (elim (Bool-cases (is_some (find_group db default_channel))) [
    | inl f ↦ rw f (add_member-only default_channel user.id "member" db)
    | inr f ↦ rw f refl
  ])
]

pub is_member-auto_join :
    (user : User) (db : Db) (g u : Uuid)
    → is_member (auto_join user db) g u ≡ (is_member db g u || joins user db g u)
is_member-auto_join user db g u = elim (Bool-cases user.is_guest) [
  | inl e ↦ rw e (ground arith)
  | inr e ↦ rw e (elim (Bool-cases (is_some (find_group db default_channel))) [
    | inl f ↦ rw f (is_member-add_member default_channel user.id "member" db g u)
    | inr f ↦ rw f (ground arith)
  ])
]
