-- ===== src/Store/Taverns.antt =====
-- The queries on the row of the tavern of store/sqlite.rs.
use accord_rfc.Base.{Bool, false, [], ◌∷◌, ◌++◌, Text, Uuid, any, update, ◌==◌, if◌then◌else◌}
use accord_rfc.Store.{Tavern, Db}

abbrev pub has_tavern : Uuid → Db → Bool
has_tavern id db = any (λ (t : Tavern). t.id == id) db.tavern_info

abbrev pub blank_tavern : Uuid → Tavern
blank_tavern id = record {
  id = id;
  name = "";
  icon_url = "";
  description = "";
  linking_enabled = false;
  banner_url = "";
}

-- `ensure_tavern`
unfoldable pub ensure_tavern : Uuid → Db → Db
ensure_tavern id db =
    if has_tavern id db
    then db
    else record db { tavern_info = db.tavern_info ++ blank_tavern id ∷ [] }

-- `get_tavern`: the first row, or an empty one.
unfoldable pub get_tavern : Db → Tavern
get_tavern db = elim db.tavern_info [ [] ↦ blank_tavern 0 | t ∷ ts ↦ t ]

-- `upsert_tavern`
unfoldable pub upsert_tavern : Uuid → Text → Text → Text → Text → Db → Db
upsert_tavern id name icon_url description banner_url db =
    let written = (λ (t : Tavern). record t {
      name = name;
      icon_url = icon_url;
      description = description;
      banner_url = banner_url;
    }) in
    record db {
      tavern_info =
          if has_tavern id db
          then update (λ (t : Tavern). t.id == id) written db.tavern_info
          else db.tavern_info ++ written (blank_tavern id) ∷ [];
    }
