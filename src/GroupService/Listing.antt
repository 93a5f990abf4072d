-- ===== src/GroupService/Listing.antt =====
-- What `create_category` leaves, and where the category is listed.
use accord_rfc.Base.{
  ℕ, ◌≡◌, refl, subst, ap, ◌∙◌, false, List, [], ◌∷◌, ◌++◌, any, find, find-any, find-append_none,
  ==_refl, Option, some, Text, Uuid, trim, is_empty, ◌==◌, if◌then◌else◌, arith,
}
use accord_rfc.Perms.{manage_channels}
use accord_rfc.Store.{Audit, Category, Db}
use accord_rfc.Store.Categories
use accord_rfc.Store.Categories.{sort_categories, next_place}
use accord_rfc.Store.Categories.Order.{
  next_place-AreBelow, sort_categories-append, any-sort_categories,
}
use accord_rfc.Authz.{require}
use accord_rfc.Guardrails.{ActionClass}
use accord_rfc.Api.Error.{Result, ok, err, Status, bad_argument, missing, ok_or}
use accord_rfc.Api.Request.{Env, caller}
use accord_rfc.Api.Server.{Server}
use accord_rfc.Api.Action.{after}
use accord_rfc.GroupService.{guard}
use accord_rfc.GroupService.Guard.{Audited, guard-Audited, guard-ids}
use accord_rfc.GroupService.Layout.{find_category, create_category}

-- A category that was created.
pub record Listed (who : Uuid) (name : Text) (db : Db) (c : Category) (db' : Db) : Type 0 where
  pub allowed : require db who manage_channels ≡ ok tt
  pub named : c.name ≡ trim name
  pub filled : is_empty c.name ≡ false
  pub last : Categories.list_categories db' ≡ Categories.list_categories db ++ c ∷ []
  pub only :
      (log : List Audit) × (db'
        ≡ record db { categories = db.categories ++ c ∷ []; audit_log = log })

pub record CategoryOutcome (who : Uuid) (name : Text) (db : Db) (p : Result Category × Server)
    : Type 0 where
  pub listed : (c : Category) → p.0 ≡ ok c → Listed who name db c p.1.db
  pub refused : (e : Status) → p.0 ≡ err e → Audited db p.1.db

refused_by :
    (who : Uuid) (name : Text) (db : Db) (e : Status) (s : Server)
    → Audited db s.db
    → CategoryOutcome who name db (err e, s)
refused_by who name db e s a = record { listed = λ c h. ground arith; refused = λ e' h. a }

-- The end of the handler, after the guard.
module _ (who : Uuid) (name : Text) (db : Db) (id : Uuid) (s : Server) (a : Audited db s.db)
    (may : require db who manage_channels ≡ ok tt) (filled : is_empty (trim name) ≡ false)
    (unused : any (λ (c : Category). c.id == id) db.categories ≡ false) where
  abbrev row : Category
  row = record { id = id; name = trim name; position = next_place db.categories }

  abbrev db_after : Db
  db_after = record db { categories = db.categories ++ row ∷ []; audit_log = a.0 }

  created_lem : Categories.create_category id (trim name) s.db ≡ db_after
  unfolding accord_rfc.Store.Categories.create_category
  created_lem = ap (Categories.create_category id (trim name)) a.1

  in_order : Categories.list_categories db_after ≡ Categories.list_categories db ++ row ∷ []
  unfolding accord_rfc.Store.Categories.list_categories
  in_order = sort_categories-append row db.categories (next_place-AreBelow db.categories)

  found_lem : find_category id db_after ≡ ok row
  unfolding accord_rfc.Store.Categories.list_categories
  found_lem =
      ap (λ cs. ok_or (find (λ (c : Category). c.id == id) cs) (missing "category")) in_order
      ∙ ap (λ o. ok_or o (missing "category"))
          (find-append_none (λ (c : Category). c.id == id) (sort_categories db.categories) row
            (find-any _ (sort_categories db.categories)
              (any-sort_categories (λ (c : Category). c.id == id) db.categories ∙ unused))
            (==_refl id))

  made :
      (s' : Server)
      → s'.db ≡ Categories.create_category id (trim name) s.db
      → CategoryOutcome who name db (find_category id s'.db, s')
  made s' e =
      rw (e ∙ created_lem, found_lem)
        (record {
          listed = λ c h.
              let same : row ≡ c = ground arith in
              subst (λ x. Listed who name db x db_after) same
                (record {
                  allowed = may;
                  named = refl;
                  filled = filled;
                  last = in_order;
                  only = (a.0, refl);
                });
          refused = λ e' h. ground arith;
        })

-- No category has an id that is drawn.
abbrev pub AllNew : Server → Type 0
AllNew s = (n : ℕ) → any (λ (c : Category). c.id == s.ids n) s.db.categories ≡ false

-- A request of a known account to create a category either ends in an error, and the database is
-- as before but for the audit log; or the account may manage channels, and besides the audit log
-- exactly the category that is returned is added, with the name of the request without white
-- space at its ends, which is not empty, and it is listed after all the others, which are listed
-- as before, if no category has an id that is drawn.
pub create_category-CategoryOutcome :
    (env : Env) (header : Option Text) (name : Text) (s : Server) (who : Uuid)
    → caller env header "invalid id in token" ≡ ok who
    → AllNew s
    → CategoryOutcome who name s.db (create_category env header name s)
unfolding create_category
create_category-CategoryOutcome env header name s who known new = rw known (
    after P (require s.db who manage_channels) _ s (λ e h. refused_by who name s.db e s same)
      λ _ may.
        after P (if is_empty (trim name) then bad_argument "category name is required" else ok tt) _
          s (λ e h. refused_by who name s.db e s same)
          λ _ filled.
            after P guarded.0 _ guarded.1 (λ e h. refused_by who name s.db e guarded.1 audited)
              λ _ passed.
                made who name s.db id guarded.1 audited (may ∙ refl) (ground arith) unused _ refl)
  where
    P : Result Category × Server → Type 0
    P = CategoryOutcome who name s.db

    same : Audited s.db s.db
    same = (s.db.audit_log, refl)

    guarded : Result (Unit {0}) × Server
    guarded = guard env who ActionClass.create_channel (trim name) (some (trim name)) [] s

    audited : Audited s.db guarded.1.db
    audited = guard-Audited env who ActionClass.create_channel (trim name) (some (trim name)) [] s

    id : Uuid
    id = guarded.1.ids guarded.1.ticks

    unused : any (λ (c : Category). c.id == id) s.db.categories ≡ false
    unused =
        ap (λ (ids : ℕ → Uuid). any (λ (c : Category). c.id == ids guarded.1.ticks) s.db.categories)
          (guard-ids env who ActionClass.create_channel (trim name) (some (trim name)) [] s)
        ∙ new guarded.1.ticks
