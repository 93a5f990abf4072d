-- ===== src/Store/Users.antt =====
-- The account queries of store/sqlite.rs.
use accord_rfc.Base.{
  ℕ, Bool, false, Option, none, some, Text, text_eq, Uuid, find, update, length, ◌==◌,
}
use accord_rfc.Store.{User, Db}

-- The row that a primary key selects.
unfoldable pub find_user : Db → Uuid → Option User
find_user db user_id = find (λ (u : User). u.id == user_id) db.users

-- `is_owner`: no row is no owner.
unfoldable pub is_owner : Db → Uuid → Bool
unfolding find_user
is_owner db user_id = elim (find_user db user_id) [ none ↦ false | some u ↦ u.is_owner ]

-- `is_user_guest`
unfoldable pub is_user_guest : Db → Uuid → Bool
unfolding find_user
is_user_guest db user_id = elim (find_user db user_id) [ none ↦ false | some u ↦ u.is_guest ]

-- `user_profile`: username, display name, avatar.
unfoldable pub user_profile : Db → Uuid → Option (Text × Text × Text)
unfolding find_user
user_profile db user_id = elim (find_user db user_id) [
  | none ↦ none
  | some u ↦ some (u.username, u.display_name, u.avatar_url)
]

-- `update_profile`
unfoldable pub update_profile : Db → Uuid → Text → Text → Db
update_profile db user_id display_name avatar_url = record db {
  users =
      update (λ (u : User). u.id == user_id)
        (λ (u : User). record u { display_name = display_name; avatar_url = avatar_url }) db.users;
}

-- `find_user_by_username`
unfoldable pub find_user_by_username : Db → Text → Option User
find_user_by_username db username = find (λ (u : User). text_eq u.username username) db.users

-- `count_users`
abbrev pub count_users : Db → ℕ
count_users db = length db.users
