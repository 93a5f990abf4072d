-- ===== src/Store/Categories.antt =====
-- The queries on the categories of channels of store/sqlite.rs.
pub mod Order
use accord_rfc.Base.{
  ℕ, zero, suc, max, Bool, true, false, not, ◌&&◌, ◌||◌, List, [], ◌∷◌, ◌++◌, Option, none, some,
  Text, text_eq, is_empty, Uuid, filter, update, length, ltb, ◌==◌, if◌then◌else◌,
}
use accord_rfc.Base.Strings.{text_ltb}
use accord_rfc.Store.{Group, Category, Db}

abbrev pub uncategorized : Bool → Group → Bool
uncategorized voice g =
    text_eq g.kind "public"
    && ((if voice then text_eq g.channel_kind "voice" else not (text_eq g.channel_kind "voice"))
        && is_empty g.category_id)

-- `UPDATE groups SET category_id = ? WHERE …`
abbrev pub file_under : Text → (Group → Bool) → List Group → List Group
file_under category p = update p (λ (g : Group). record g { category_id = category })

-- `ensure_default_categories`, given the two ids and their texts.
unfoldable pub ensure_default_categories : Uuid → Uuid → Text → Text → Db → Db
ensure_default_categories text_id voice_id text_name voice_name db =
    if ltb 0 (length db.categories) then db else record db {
      categories =
          db.categories
          ++ record { id = text_id; name = "Text Channels"; position = 0 }
            ∷ record { id = voice_id; name = "Voice Channels"; position = 1 }
            ∷ [];
      groups =
          file_under text_name (uncategorized false)
            (file_under voice_name (uncategorized true) db.groups);
    }

-- `ORDER BY position, name`
abbrev pub is_after : Category → Category → Bool
unfolding text_ltb
is_after c d = ltb d.position c.position || (c.position == d.position && text_ltb d.name c.name)

abbrev pub insert_category : Category → List Category → List Category
unfolding text_ltb
insert_category c [] = c ∷ []
insert_category c (d ∷ ds) =
    let rest = insert_category c ds in if is_after c d then d ∷ rest else c ∷ d ∷ ds

-- `list_categories`
unfoldable pub sort_categories : List Category → List Category
unfolding text_ltb
sort_categories [] = []
sort_categories (c ∷ cs) = insert_category c (sort_categories cs)

unfoldable pub list_categories : Db → List Category
unfolding sort_categories
list_categories db = sort_categories db.categories

-- `COALESCE(MAX(position), -1) + 1`
unfoldable pub next_place : List Category → ℕ
next_place [] = 0
next_place (c ∷ cs) = max (suc c.position) (next_place cs)

-- `create_category`, given the id that is drawn.
unfoldable pub create_category : Uuid → Text → Db → Db
unfolding next_place
create_category id name db = record db {
  categories =
      db.categories ++ record { id = id; name = name; position = next_place db.categories } ∷ [];
}

-- `delete_category`, given the text of the id.
unfoldable pub delete_category : Uuid → Text → Db → Db
delete_category id shown db = record db {
  groups = file_under "" (λ (g : Group). text_eq g.category_id shown) db.groups;
  categories = filter (λ (c : Category). not (c.id == id)) db.categories;
}

abbrev pub place_category : ℕ → Uuid → List Category → List Category
place_category i id =
    update (λ (c : Category). c.id == id) (λ (c : Category). record c { position = i })

-- The loop of `reorder_categories`, from a place on.
unfoldable pub place_categories : ℕ → List Uuid → List Category → List Category
place_categories i [] rows = rows
place_categories i (id ∷ ids) rows = place_categories (suc i) ids (place_category i id rows)

-- `reorder_categories`
unfoldable pub reorder_categories : List Uuid → Db → Db
unfolding place_categories
reorder_categories ordered db = record db { categories = place_categories 0 ordered db.categories }

-- The loop of `reorder_channels`, from a place on.
unfoldable pub place_channels : Text → ℕ → List Uuid → List Group → List Group
place_channels category i [] rows = rows
place_channels category i (id ∷ ids) rows = place_channels category (suc i) ids (
    update (λ (g : Group). g.id == id)
      (λ (g : Group). record g { category_id = category; position = i }) rows)

-- `reorder_channels`
unfoldable pub reorder_channels : Text → List Uuid → Db → Db
unfolding place_channels
reorder_channels category ordered db = record db {
  groups = place_channels category 0 ordered db.groups;
}
