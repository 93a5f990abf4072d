-- ===== src/Guardrails/Names.antt =====
-- crates/accord-server/src/guardrails/names.rs: the heuristics on channel names. A name is the list
-- of its code points; the ratios of the source are compared as fractions.
pub mod Edits
pub mod Levenshtein
use Prim.Native.Char.{code}
use Prim.Native.String.{String}
use accord_rfc.Base.{
  ℕ, zero, suc, ◌+◌, ◌*◌, ◌/◌, min, max, Bool, true, false, ◌&&◌, ◌||◌, List, [], ◌∷◌, Option, none,
  some, Text, format, trim, is_empty, not, length, filter, take, ltb, leb, ◌==◌, if◌then◌else◌,
}
use accord_rfc.Perms.Decimal.{display}
use accord_rfc.Base.Strings.{is_whitespace}

-- `s.chars().collect()`
abbrev pub chars : Text → List ℕ
chars String.[] = []
chars (String.◌∷◌ c s) = code c ∷ chars s

abbrev push : Text → List Text → List Text
push word words = if is_empty word then words else word ∷ words

-- The first word, which is empty after a space, and the words after it.
split : Text → Text × List Text
unfolding is_whitespace
split String.[] = (String.[], [])
split (String.◌∷◌ c s) =
    let (word, words) = split s in
    if is_whitespace (code c) then (String.[], push word words) else (String.◌∷◌ c word, words)

-- `split_whitespace`
split_whitespace : Text → List Text
unfolding split
split_whitespace s = let (word, words) = split s in push word words

-- `join(" ")`
join : List Text → Text
join [] = ""
join (word ∷ []) = word
join (word ∷ more ∷ words) = format (word ∷ " " ∷ join (more ∷ words) ∷ [])

-- `normalize`, given `str::to_lowercase`.
unfoldable pub normalize : (Text → Text) → Text → Text
unfolding split_whitespace join
normalize to_lowercase s = join (split_whitespace (to_lowercase (trim s)))

-- `char::is_ascii_alphabetic` and `char::is_ascii_digit`
abbrev is_alphabetic : ℕ → Bool
is_alphabetic c = (leb 65 c && leb c 90) || (leb 97 c && leb c 122)

abbrev is_digit : ℕ → Bool
is_digit c = leb 48 c && leb c 57

-- One of a, e, i, o, u and y.
abbrev is_vowel : ℕ → Bool
is_vowel c = c == 97 || c == 101 || c == 105 || c == 111 || c == 117 || c == 121

insert : ℕ → List ℕ → List ℕ
insert x [] = x ∷ []
insert x (y ∷ ys) = let rest = insert x ys in if leb x y then x ∷ y ∷ ys else y ∷ rest

-- `sort_unstable`
sort : List ℕ → List ℕ
unfolding insert
sort [] = []
sort (x ∷ xs) = insert x (sort xs)

-- `dedup`, which drops an element equal to the next one.
dedup : List ℕ → List ℕ
dedup [] = []
dedup (x ∷ []) = x ∷ []
dedup (x ∷ y ∷ ys) = let rest = dedup (y ∷ ys) in if x == y then rest else x ∷ rest

-- The number of different letters.
distinct : List ℕ → ℕ
unfolding sort dedup
distinct letters = length (dedup (sort letters))

-- The tests of `looks_random` on the letters alone.
letters_look_random : List ℕ → Option Text
unfolding distinct
letters_look_random letters =
    if ltb (length letters) 5
    then none
    else if ltb (length (filter is_vowel letters) * 100) (15 * length letters)
    then some "no vowels (likely random)"
    else if leb 6 (length letters) && leb (distinct letters) 2
    then some "very low character variety"
    else none

-- `looks_random`
unfoldable pub looks_random : List ℕ → Option Text
unfolding is_whitespace letters_look_random
looks_random norm =
    let letters = filter is_alphabetic norm in
    let digits = length (filter is_digit norm) in
    let total = length (filter (λ c. not (is_whitespace c)) norm) in
    if ltb total 5
    then none
    else if ltb total (digits * 2)
    then some (format ("mostly digits (" ∷ display (digits * 100 / total) ∷ "%)" ∷ []))
    else letters_look_random letters

-- The cells of the row of `ca` that are left, given the cells of the row above from the one at the
-- upper left, and the cell at the left.
unfoldable pub cells : ℕ → List ℕ → List ℕ → ℕ → List ℕ
cells ca (cb ∷ bs) (diagonal ∷ above ∷ row) left =
    let cost = if ca == cb then 0 else 1 in
    let cell = min (min (above + 1) (left + 1)) (diagonal + cost) in
    cell ∷ cells ca bs (above ∷ row) cell
cells ca _ _ left = []

-- The rows of `levenshtein` from the one before row `i`.
unfoldable pub rows : List ℕ → List ℕ → ℕ → List ℕ → List ℕ
unfolding cells
rows [] b i prev = prev
rows (ca ∷ a) b i prev = rows a b (suc i) (suc i ∷ cells ca b prev (suc i))

-- `(from..).take(n)`
abbrev pub count_up : ℕ → ℕ → List ℕ
count_up from zero = []
count_up from (suc n) = from ∷ count_up (suc from) n

-- `prev[k]`
abbrev pub cell_at : ℕ → List ℕ → ℕ
cell_at k [] = 0
cell_at zero (x ∷ xs) = x
cell_at (suc k) (x ∷ xs) = cell_at k xs

-- `levenshtein`
unfoldable pub levenshtein : List ℕ → List ℕ → ℕ
unfolding rows
levenshtein [] b = length b
levenshtein a [] = length a
levenshtein a b = cell_at (length b) (rows a b 0 (count_up 0 (suc (length b))))

-- `similarity(a, b) >= SIMILAR`: one minus the distance over the longer length is at least 0.8.
unfoldable pub is_similar : List ℕ → List ℕ → Bool
unfolding levenshtein
is_similar a b =
    let longest = max (length a) (length b) in
    if longest == 0 then true else leb (levenshtein a b * 5) longest

-- `SPAM_CLUSTER`
abbrev spam_cluster : ℕ
spam_cluster = 3

-- How many recent names are near-identical.
unfoldable pub count_similar : (Text → Text) → List ℕ → List Text → ℕ
unfolding is_similar normalize
count_similar to_lowercase norm recent =
    length (filter (λ r. is_similar norm (chars (normalize to_lowercase r))) recent)

-- `assess_name`: none is `NameVerdict::Ok`, and some reason `NameVerdict::Suspicious`.
unfoldable pub assess_name : (Text → Text) → Text → List Text → Option Text
unfolding normalize looks_random count_similar
assess_name to_lowercase name recent =
    let norm = chars (normalize to_lowercase name) in
    let similar = count_similar to_lowercase norm recent in
    if length norm == 0 then none else elim (looks_random norm) [
      | some reason ↦ some reason
      | none ↦
          if leb spam_cluster similar
          then some (
              format (
                "low-variance name (≈" ∷ display similar ∷ " near-identical recent channels)" ∷ []))
          else none
    ]
