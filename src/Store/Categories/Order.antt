-- ===== src/Store/Categories/Order.antt =====
-- The order of the categories, and where a new one stands in it.
use accord_rfc.Base.{
  ℕ, ◌<◌, ◌≡◌, refl, ap, ◌∙◌, inl, inr, Bool, false, ◌||◌, List, [], ◌∷◌, ◌++◌, any, All, All-map,
  Bool-cases, arith,
}
use accord_rfc.Base.Strings.{text_ltb}
use accord_rfc.Store.{Category}
use accord_rfc.Store.Categories.{is_after, insert_category, sort_categories, next_place}

abbrev pub AreBelow : ℕ → List Category → Type 0
AreBelow place = All λ (c : Category). c.position < place

pub next_place-AreBelow : (cs : List Category) → AreBelow (next_place cs) cs
unfolding next_place
next_place-AreBelow [] = tt
next_place-AreBelow (c ∷ cs) =
    (omega arith, All-map _ _ cs (λ d h. omega arith) (next_place-AreBelow cs))

insert_category-append :
    (d c : Category) (cs : List Category)
    → d.position < c.position
    → insert_category d (cs ++ c ∷ []) ≡ insert_category d cs ++ c ∷ []
unfolding text_ltb
insert_category-append d c [] h = let e : is_after d c ≡ false = ground arith in rw e refl
insert_category-append d c (x ∷ cs) h = elim (Bool-cases (is_after d x)) [
  | inl e ↦ rw e (ap (λ xs. x ∷ xs) (insert_category-append d c cs h))
  | inr e ↦ rw e refl
]

-- A category at a place beyond the others is the last.
pub sort_categories-append :
    (c : Category) (cs : List Category)
    → AreBelow c.position cs
    → sort_categories (cs ++ c ∷ []) ≡ sort_categories cs ++ c ∷ []
unfolding sort_categories text_ltb
sort_categories-append c [] h = refl
sort_categories-append c (d ∷ cs) (h, hs) =
    ap (insert_category d) (sort_categories-append c cs hs)
    ∙ insert_category-append d c (sort_categories cs) h

any-insert_category :
    (p : Category → Bool) (d : Category) (cs : List Category)
    → any p (insert_category d cs) ≡ (p d || any p cs)
unfolding text_ltb
any-insert_category p d [] = refl
any-insert_category p d (c ∷ cs) = elim (Bool-cases (is_after d c)) [
  | inl e ↦ rw e (ground (arith, any-insert_category p d cs))
  | inr e ↦ rw e refl
]

pub any-sort_categories :
    (p : Category → Bool) (cs : List Category) → any p (sort_categories cs) ≡ any p cs
unfolding sort_categories text_ltb
any-sort_categories p [] = refl
any-sort_categories p (c ∷ cs) =
    any-insert_category p c (sort_categories cs) ∙ ap (λ b. p c || b) (any-sort_categories p cs)
