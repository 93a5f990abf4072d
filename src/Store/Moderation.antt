-- ===== src/Store/Moderation.antt =====
-- The queries on bans and on the audit log of store/sqlite.rs.
pub mod Bans
use accord_rfc.Base.{
  ℕ, Bool, not, ◌&&◌, ◌||◌, List, map, is_some, [], ◌∷◌, ◌++◌, Text, Uuid, any, filter, update,
  ◌==◌, if◌then◌else◌,
}
use Prim.Native.Nat.{bit_and}
use accord_rfc.Perms.{Permissions}
use accord_rfc.Store.{Ban, Device, MemberRole, Role, Db}
use accord_rfc.Store.Users.{is_owner}

-- `is_banned`
unfoldable pub is_banned : Db → Uuid → Bool
is_banned db user_id = any (λ (b : Ban). b.user_id == user_id) db.bans

-- `ban_user`: `ON CONFLICT (user_id) DO UPDATE SET banned_by, reason`.
unfoldable pub ban_user : Uuid → Uuid → Text → ℕ → Db → Db
unfolding is_banned
ban_user user_id banned_by reason now db =
    if is_banned db user_id
    then record db {
      bans =
          update (λ (b : Ban). b.user_id == user_id)
            (λ (b : Ban). record b { banned_by = banned_by; reason = reason }) db.bans;
    }
    else record db {
      bans =
          db.bans
          ++ record {
            user_id = user_id;
            reason = reason;
            banned_by = banned_by;
            created_at_ms = now;
          }
            ∷ [];
    }

-- `unban_user`
unfoldable pub unban_user : Uuid → Db → Db
unban_user user_id db = record db {
  bans = filter (λ (b : Ban). not (b.user_id == user_id)) db.bans;
}

-- `record_audit`
unfoldable pub record_audit : Uuid → Uuid → Text → Text → Text → Text → ℕ → Db → Db
record_audit id actor_id action target verdict reason now db = record db {
  audit_log =
      db.audit_log
      ++ record {
        id = id;
        actor_id = actor_id;
        action = action;
        target = target;
        verdict = verdict;
        reason = reason;
        created_at_ms = now;
      }
        ∷ [];
}

-- The roles whose permissions meet the mask, as ids.
abbrev meets_mask : Permissions → Role → Bool
meets_mask perm_mask r = not (bit_and r.permissions perm_mask == 0)

-- `admin_device_ids`
unfoldable pub admin_device_ids : Db → Permissions → List Uuid
unfolding is_owner
admin_device_ids db perm_mask =
    map (λ (d : Device). d.id)
      (filter
        (λ (d : Device).
          not (is_some d.revoked_at)
          && (is_owner db d.user_id
              || any
                  (λ (m : MemberRole).
                    m.user_id == d.user_id
                    && any (λ (r : Role). r.id == m.role_id && meets_mask perm_mask r) db.roles)
                  db.member_roles))
        db.devices)
