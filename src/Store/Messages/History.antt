-- ===== src/Store/Messages/History.antt =====
-- The pages of the history of a public channel.
use accord_rfc.Base.{
  ℕ, ◌||◌, ◌≤◌, ◌≡◌, ◌⊎◌, Bool, true, ◌&&◌, List, [], ◌∷◌, Uuid, any, length, All, ◌==◌, ltb,
}
use accord_rfc.Store.{Db}
use accord_rfc.Store.Messages.{PublicMessageRow, matching, unbounded}

-- The rows go from higher numbers to lower ones.
abbrev pub Descending : List PublicMessageRow → Type 0
Descending [] = Unit
Descending (r ∷ rs) = All (λ (x : PublicMessageRow). x.seq ≤ r.seq) rs × Descending rs

-- The row has the number.
abbrev pub numbered : ℕ → PublicMessageRow → Bool
numbered n r = r.seq == n

-- The page is full, of rows that are no older than the number.
abbrev pub FullOfNewer : ℕ → ℕ → List PublicMessageRow → Type 0
FullOfNewer limit n page = (length page ≡ limit) × All (λ (x : PublicMessageRow). n ≤ x.seq) page

-- The row is of the group and below the bound.
abbrev pub InChannel : Uuid → ℕ → PublicMessageRow → Type 0
InChannel group before r = (r.group_id == group && (unbounded before || ltb r.seq before)) ≡ true

-- What a page of the history holds.
pub record Page (db : Db) (group before limit : ℕ) (page : List PublicMessageRow) : Type 0 where
  pub size : length page ≤ limit
  pub order : Descending page
  pub channel : All (InChannel group before) page
  pub sound :
      (n : ℕ) → any (numbered n) page ≡ true → any (numbered n) (matching db group before) ≡ true
  pub complete :
      (n : ℕ)
      → any (numbered n) (matching db group before) ≡ true
      → (any (numbered n) page ≡ true) ⊎ FullOfNewer limit n page
