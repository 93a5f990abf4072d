-- ===== src/Guardrails/Names/Levenshtein.antt =====
-- `levenshtein` of guardrails/names.rs against edit scripts, and what it says of similar names.
use accord_rfc.Base.{ℕ, suc, ◌≡◌, refl, sym, ap, ◌∙◌, List, [], ◌∷◌, ◌++◌, length, arith}
use accord_rfc.Guardrails.Names.{cells, rows, count_up, cell_at, levenshtein}
use accord_rfc.Guardrails.Names.Edits.{
  Edits, Least, Least-nil_left, Least-nil_right, Least-step, reverse_onto, Edits-reverse_onto, done,
  recount,
}

-- The cells of a row from the column of `rb` on: each holds the distance of the prefixes, which
-- are kept in reverse.
abbrev Row : List ℕ → List ℕ → List ℕ → List ℕ → Type 0
Row ra rb [] (n ∷ []) = Least ra rb n
Row ra rb (cb ∷ b) (n ∷ row) = Least ra rb n × Row ra (cb ∷ rb) b row
Row ra rb _ _ = ⊥

Row-head : (ra rb b : List ℕ) (n : ℕ) (row : List ℕ) → Row ra rb b (n ∷ row) → Least ra rb n
Row-head ra rb [] n [] r = r
Row-head ra rb [] n (_ ∷ _) r = elim r [ ]
Row-head ra rb (cb ∷ b) n row r = r.0

Row-nil : (ra rb b : List ℕ) → Row ra rb b [] → ⊥
Row-nil ra rb [] r = r
Row-nil ra rb (cb ∷ b) r = r

first-Row : (rb b : List ℕ) → Row [] rb b (count_up (length rb) (suc (length b)))
first-Row rb [] = Least-nil_left rb
first-Row rb (cb ∷ b) = (Least-nil_left rb, first-Row (cb ∷ rb) b)

-- A row from the row above.
cells-Row :
    (ra rb b row : List ℕ) (ca left : ℕ)
    → Row ra rb b row
    → Least (ca ∷ ra) rb left
    → Row (ca ∷ ra) rb b (left ∷ cells ca b row left)
unfolding cells
cells-Row ra rb [] row ca left r l = l
cells-Row ra rb (cb ∷ b) (diagonal ∷ above ∷ row) ca left (d, r) l = (
  l,
  cells-Row ra (cb ∷ rb) b (above ∷ row) ca _ r
      (Least-step ca cb ra rb above left diagonal (Row-head ra (cb ∷ rb) b above row r) l d),
)
cells-Row ra rb (cb ∷ b) (diagonal ∷ []) ca left (d, r) l = absurd (Row-nil ra (cb ∷ rb) b r)
cells-Row ra rb (cb ∷ b) [] ca left r l = absurd r

rows-Row :
    (a ra b row : List ℕ)
    → Row ra [] b row
    → Row (reverse_onto a ra) [] b (rows a b (length ra) row)
unfolding rows
rows-Row [] ra b row r = r
rows-Row (ca ∷ a) ra b row r =
    rows-Row a (ca ∷ ra) b (suc (length ra) ∷ cells ca b row (suc (length ra)))
      (cells-Row ra [] b row ca (suc (length ra)) r (Least-nil_right (ca ∷ ra)))

Row-last :
    (ra rb b row : List ℕ) → Row ra rb b row → Least ra (reverse_onto b rb) (cell_at (length b) row)
Row-last ra rb [] (n ∷ []) r = r
Row-last ra rb [] [] r = elim r [ ]
Row-last ra rb [] (n ∷ (_ ∷ _)) r = elim r [ ]
Row-last ra rb (cb ∷ b) [] r = elim r [ ]
Row-last ra rb (cb ∷ b) (n ∷ row) (_, r) = Row-last ra (cb ∷ rb) b row r

reverse_twice : (a c d : List ℕ) → reverse_onto (reverse_onto a c) d ≡ reverse_onto c (a ++ d)
reverse_twice [] c d = refl
reverse_twice (x ∷ a) c d = reverse_twice a (x ∷ c) d

append-nil : (a : List ℕ) → a ++ [] ≡ a
append-nil [] = refl
append-nil (x ∷ a) = ap (λ t. x ∷ t) (append-nil a)

back : (a : List ℕ) → reverse_onto (reverse_onto a []) [] ≡ a
back a = reverse_twice a [] [] ∙ append-nil a

turned : {a b : List ℕ} {n : ℕ} → Edits a b n → Edits (reverse_onto a []) (reverse_onto b []) n
turned {n} e = recount (omega arith) (Edits-reverse_onto e done)

-- The distance of two lists in reverse is theirs.
unturn : (a b : List ℕ) (n : ℕ) → Least (reverse_onto a []) (reverse_onto b []) n → Least a b n
unturn a b n l = record {
  script = rw (sym (back a), sym (back b)) (turned l.script);
  least = λ m e. l.least m (turned e);
}

-- `levenshtein a b`, which works on two rows, is the number of edits of a script of insertions,
-- deletions and replacements from `a` to `b`, and no script has fewer.
pub levenshtein-Least : (a b : List ℕ) → Least a b (levenshtein a b)
unfolding levenshtein
levenshtein-Least [] b = Least-nil_left b
levenshtein-Least (ca ∷ a) [] = Least-nil_right (ca ∷ a)
levenshtein-Least (ca ∷ a) (cb ∷ b) = unturn (ca ∷ a) (cb ∷ b) _ (
    Row-last (reverse_onto (ca ∷ a) []) [] (cb ∷ b) _
      (rows-Row (ca ∷ a) [] (cb ∷ b) (count_up 0 (suc (length (cb ∷ b)))) (first-Row [] (cb ∷ b))))
