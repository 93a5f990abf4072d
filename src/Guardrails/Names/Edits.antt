-- ===== src/Guardrails/Names/Edits.antt =====
-- Edit scripts, which say what the edit distance of guardrails/names.rs means.
use accord_rfc.Base.{
  ℕ, zero, suc, ◌+◌, ◌≤◌, min, ◌≡◌, sym, subst, ◌⊎◌, inl, inr, List, [], ◌∷◌, length, ◌==◌, ==_iff,
  ==_refl, leb, Bool-cases, if◌then◌else◌, arith,
}

-- A script that turns the first list into the second, front to back, and its number of edits.
pub data Edits : List ℕ → List ℕ → ℕ → Type 0 where
  done : Edits [] [] 0
  keep : {x : ℕ} {a b : List ℕ} {n : ℕ} → Edits a b n → Edits (x ∷ a) (x ∷ b) n
  replace : {x y : ℕ} {a b : List ℕ} {n : ℕ} → Edits a b n → Edits (x ∷ a) (y ∷ b) (suc n)
  delete : {x : ℕ} {a b : List ℕ} {n : ℕ} → Edits a b n → Edits (x ∷ a) b (suc n)
  insert : {y : ℕ} {a b : List ℕ} {n : ℕ} → Edits a b n → Edits a (y ∷ b) (suc n)

-- The fewest edits.
pub record Least (a b : List ℕ) (n : ℕ) : Type 0 where
  pub script : Edits a b n
  pub least : (m : ℕ) → Edits a b m → n ≤ m

all_inserted : (b : List ℕ) → Edits [] b (length b)
all_inserted [] = done
all_inserted (y ∷ b) = insert (all_inserted b)

all_deleted : (a : List ℕ) → Edits a [] (length a)
all_deleted [] = done
all_deleted (x ∷ a) = delete (all_deleted a)

inserts-le : (b : List ℕ) (m : ℕ) → Edits [] b m → length b ≤ m
inserts-le [] m e = omega arith
inserts-le (y ∷ b) zero e = elim e [ ]
inserts-le (y ∷ b) (suc m) (insert e) = omega (arith, inserts-le b m e)

deletes-le : (a : List ℕ) (m : ℕ) → Edits a [] m → length a ≤ m
deletes-le [] m e = omega arith
deletes-le (x ∷ a) zero e = elim e [ ]
deletes-le (x ∷ a) (suc m) (delete e) = omega (arith, deletes-le a m e)

pub Least-nil_left : (b : List ℕ) → Least [] b (length b)
Least-nil_left b = record { script = all_inserted b; least = inserts-le b }

pub Least-nil_right : (a : List ℕ) → Least a [] (length a)
Least-nil_right a = record { script = all_deleted a; least = deletes-le a }

-- The cost of a letter against a letter.
abbrev pub cost : ℕ → ℕ → ℕ
cost x y = if x == y then 0 else 1

step-le :
    (x y : ℕ) (a b : List ℕ) (above left diagonal m : ℕ)
    → Least a (y ∷ b) above
    → Least (x ∷ a) b left
    → Least a b diagonal
    → Edits (x ∷ a) (y ∷ b) m
    → min (min (above + 1) (left + 1)) (diagonal + cost x y) ≤ m
step-le x _ a b above left diagonal m u l d (keep e) = rw (==_refl x) (omega (arith, d.least m e))
step-le x y a b above left diagonal (suc m) u l d (replace e) = ground (arith, d.least m e)
step-le x y a b above left diagonal (suc m) u l d (delete e) = omega (arith, u.least m e)
step-le x y a b above left diagonal (suc m) u l d (insert e) = omega (arith, l.least m e)

pub recount : {a b : List ℕ} {n m : ℕ} → n ≡ m → Edits a b n → Edits a b m
recount {a} {b} e = subst (Edits a b) e

-- A letter against a letter.
match : (x y : ℕ) (a b : List ℕ) (n : ℕ) → Edits a b n → Edits (x ∷ a) (y ∷ b) (n + cost x y)
match x y a b n e = elim (Bool-cases (x == y)) [
  | inl h ↦
      subst (λ z. Edits (x ∷ a) (z ∷ b) (n + cost x y)) ((==_iff x y).0 h)
        (recount (ground arith) (keep e))
  | inr h ↦ recount (ground arith) (replace e)
]

-- The least of three is one of them.
min_of_three : (p q r : ℕ) → (min (min p q) r ≡ p) ⊎ ((min (min p q) r ≡ q) ⊎ (min (min p q) r ≡ r))
min_of_three p q r = elim (Bool-cases (leb p q)) [
  | inl h ↦ elim (Bool-cases (leb p r)) [
    | inl k ↦ inl (ground arith)
    | inr k ↦ inr (inr (ground arith))
  ]
  | inr h ↦ elim (Bool-cases (leb q r)) [
    | inl k ↦ inr (inl (ground arith))
    | inr k ↦ inr (inr (ground arith))
  ]
]

step-script :
    (x y : ℕ) (a b : List ℕ) (above left diagonal : ℕ)
    → Least a (y ∷ b) above
    → Least (x ∷ a) b left
    → Least a b diagonal
    → Edits (x ∷ a) (y ∷ b) (min (min (above + 1) (left + 1)) (diagonal + cost x y))
step-script x y a b above left diagonal u l d =
    elim (min_of_three (above + 1) (left + 1) (diagonal + cost x y)) [
      | inl e ↦ recount (omega (arith, e)) (delete {x = x} u.script)
      | inr (inl e) ↦ recount (omega (arith, e)) (insert {y = y} l.script)
      | inr (inr e) ↦ recount (sym e) (match x y a b diagonal d.script)
    ]

-- The step of the dynamic program.
pub Least-step :
    (x y : ℕ) (a b : List ℕ) (above left diagonal : ℕ)
    → Least a (y ∷ b) above
    → Least (x ∷ a) b left
    → Least a b diagonal
    → Least (x ∷ a) (y ∷ b) (min (min (above + 1) (left + 1)) (diagonal + cost x y))
Least-step x y a b above left diagonal u l d = record {
  script = step-script x y a b above left diagonal u l d;
  least = λ m. step-le x y a b above left diagonal m u l d;
}

-- The list in reverse, before another one.
abbrev pub reverse_onto : List ℕ → List ℕ → List ℕ
reverse_onto [] c = c
reverse_onto (x ∷ a) c = reverse_onto a (x ∷ c)

-- A script reads the same from the back.
pub Edits-reverse_onto :
    {a b c d : List ℕ} {n m : ℕ}
    → Edits a b n
    → Edits c d m
    → Edits (reverse_onto a c) (reverse_onto b d) (n + m)
Edits-reverse_onto done f = recount (omega arith) f
Edits-reverse_onto (keep e) f = Edits-reverse_onto e (keep f)
Edits-reverse_onto (replace e) f = recount (omega arith) (Edits-reverse_onto e (replace f))
Edits-reverse_onto (delete e) f = recount (omega arith) (Edits-reverse_onto e (delete f))
Edits-reverse_onto (insert e) f = recount (omega arith) (Edits-reverse_onto e (insert f))
