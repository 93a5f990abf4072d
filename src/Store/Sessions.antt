-- ===== src/Store/Sessions.antt =====
-- The queries on accounts, devices, refresh tokens and invites of store/sqlite.rs.
use accord_rfc.Base.{
  ℕ, Bool, true, false, not, ◌&&◌, ◌||◌, List, [], ◌∷◌, ◌++◌, Option, none, some, Text, text_eq,
  Uuid, Bytes, bytes_eq, any, find, filter, update, is_some, ltb, ◌==◌, if◌then◌else◌,
}
use accord_rfc.Store.{User, Device, RefreshToken, Invite, Db}

-- Whether the account has this identity key; the key of an account without one is NULL.
abbrev pub has_key : Bytes → User → Bool
has_key key u = elim u.identity_key [ none ↦ false | some k ↦ bytes_eq k key ]

-- `identity_exists`
unfoldable pub identity_exists : Db → Bytes → Bool
identity_exists db key = any (has_key key) db.users

-- `find_user_by_identity`
unfoldable pub find_user_by_identity : Db → Bytes → Option User
find_user_by_identity db key = find (has_key key) db.users

-- Whether a row of `users` breaks a constraint: PRIMARY KEY (id), UNIQUE (username), and the unique
-- index on `identity_key`, where no NULL is like another.
abbrev pub clashes : User → User → Bool
clashes new u =
    u.id == new.id
    || (text_eq u.username new.username
        || elim new.identity_key [ none ↦ false | some key ↦ has_key key u ])

-- `create_user`; none is the unique violation.
unfoldable pub create_user : User → Db → Option Db
create_user new db =
    if any (clashes new) db.users then none else some (record db { users = db.users ++ new ∷ [] })

-- `create_device`, given the id that `Uuid::now_v7` draws.
unfoldable pub create_device : Uuid → Uuid → Text → Db → Db
create_device id user_id name db = record db {
  devices =
      db.devices
      ++ record {
        id = id;
        user_id = user_id;
        name = name;
        revoked_at = none;
        mls_credential = none;
      }
        ∷ [];
}

abbrev pub is_device_of : Uuid → Text → Device → Bool
is_device_of user_id name d =
    d.user_id == user_id && (text_eq d.name name && not (is_some d.revoked_at))

-- The newer of a row and what was found.
abbrev pub newer : Uuid → Option Uuid → Option Uuid
newer id none = some id
newer id (some other) = some (if ltb other id then id else other)

abbrev pub newest : List Device → Option Uuid
newest [] = none
newest (d ∷ ds) = newer d.id (newest ds)

-- `find_device`: `ORDER BY id DESC LIMIT 1`. The text of a uuid is in the order of its value.
unfoldable pub find_device : Db → Uuid → Text → Option Uuid
find_device db user_id name = newest (filter (is_device_of user_id name) db.devices)

-- `revoke_device`
unfoldable pub revoke_device : Uuid → Uuid → ℕ → Db → Db
revoke_device user_id device_id now db = record db {
  devices =
      update
        (λ (d : Device). d.id == device_id && (d.user_id == user_id && not (is_some d.revoked_at)))
        (λ (d : Device). record d { revoked_at = some now }) db.devices;
}

-- `set_device_credential`
unfoldable pub set_device_credential : Uuid → Bytes → Db → Db
set_device_credential device_id credential db = record db {
  devices =
      update (λ (d : Device). d.id == device_id)
        (λ (d : Device). record d { mls_credential = some credential }) db.devices;
}

-- `lookup_refresh_token`
unfoldable pub lookup_refresh_token : Db → Text → Option RefreshToken
lookup_refresh_token db token = find (λ (t : RefreshToken). text_eq t.token token) db.refresh_tokens

-- `store_refresh_token`; none is the violation of PRIMARY KEY (token).
unfoldable pub store_refresh_token : Text → Uuid → Uuid → ℕ → Db → Option Db
unfolding lookup_refresh_token
store_refresh_token token user_id device_id expires_at db =
    if is_some (lookup_refresh_token db token)
    then none
    else some (record db {
      refresh_tokens =
          db.refresh_tokens
          ++ record {
            token = token;
            user_id = user_id;
            device_id = device_id;
            expires_at = expires_at;
          }
            ∷ [];
    })

-- `delete_refresh_token`
unfoldable pub delete_refresh_token : Text → Db → Db
delete_refresh_token token db = record db {
  refresh_tokens = filter (λ (t : RefreshToken). not (text_eq t.token token)) db.refresh_tokens;
}

-- `create_invite`; none is the violation of PRIMARY KEY (token).
unfoldable pub create_invite : Text → Uuid → Db → Option Db
create_invite token created_by db =
    if any (λ (i : Invite). text_eq i.token token) db.invites
    then none
    else some (record db {
      invites =
          db.invites ++ record { token = token; created_by = created_by; revoked = false } ∷ [];
    })

-- `is_invite_valid`: no row is no invite.
unfoldable pub is_invite_valid : Db → Text → Bool
is_invite_valid db token = elim (find (λ (i : Invite). text_eq i.token token) db.invites) [
  | none ↦ false
  | some i ↦ not i.revoked
]

-- `revoke_invite`
unfoldable pub revoke_invite : Text → Db → Db
revoke_invite token db = record db {
  invites =
      update (λ (i : Invite). text_eq i.token token) (λ (i : Invite). record i { revoked = true })
        db.invites;
}
