-- ===== src/Base/Strings.antt =====
-- `String` of the source, and the operations of it that the program uses.
use Prim.Native.Nat.{ℕ}
use Prim.Native.Char.{code}
use Prim.Native.String.{String, ◌++◌ as str_append}
use Prim.Native.String
use mathlib.Core.List.{List, [], ◌∷◌}
use text.Mathlib.Text.{◌==◌ as str_eq}
use text.Mathlib.TextEquality.{eq_iff}
use text.Mathlib.TextLemmas.{nil-append, cons-append}
use mathlib.Core.Path.{◌≡◌, refl, sym, ap, ◌∙◌}
use mathlib.Core.Logic.{◌↔◌, ◌≢◌, inl, inr}
use mathlib.Core.Bool.{Bool, true, false, ◌&&◌, ◌||◌}
use accord_rfc.Base.Tests.{leb, ltb, ◌==◌, if◌then◌else◌, Bool-cases}

abbrev pub Text : Type 0
Text = String

abbrev pub text_eq : Text → Text → Bool
text_eq = str_eq

pub text_eq_iff : (s t : Text) → (text_eq s t ≡ true) ↔ (s ≡ t)
text_eq_iff s t = eq_iff s t

pub text_eq_refl : (s : Text) → text_eq s s ≡ true
text_eq_refl s = (eq_iff s s).1 refl

-- A text that is equal to `t` is not equal to another.
pub text_eq_other : (s t u : Text) → t ≢ u → text_eq s t ≡ true → text_eq s u ≡ false
text_eq_other s t u n e = elim (Bool-cases (text_eq s u)) [
  | inl h ↦ absurd (n (sym ((eq_iff s t).0 e) ∙ (eq_iff s u).0 h))
  | inr h ↦ h
]

pub text_eq_of_ne : (s t : Text) → s ≢ t → text_eq s t ≡ false
text_eq_of_ne s t n = text_eq_other s s t n (text_eq_refl s)

abbrev pub is_empty : Text → Bool
is_empty String.[] = true
is_empty (String.◌∷◌ c s) = false

-- `char::is_whitespace`: the code points with the property White_Space.
unfoldable pub is_whitespace : ℕ → Bool
is_whitespace c =
    (leb 9 c && leb c 13)
    || (c == 32 || c == 0x85 || c == 0xa0 || c == 0x1680)
    || (leb 0x2000 c && leb c 0x200a)
    || (c == 0x2028 || c == 0x2029 || c == 0x202f || c == 0x205f || c == 0x3000)

trim_start : Text → Text
unfolding is_whitespace
trim_start String.[] = String.[]
trim_start (String.◌∷◌ c s) = if is_whitespace (code c) then trim_start s else String.◌∷◌ c s

trim_end : Text → Text
unfolding is_whitespace
trim_end String.[] = String.[]
trim_end (String.◌∷◌ c s) =
    let rest = trim_end s in
    if is_whitespace (code c) && is_empty rest then String.[] else String.◌∷◌ c rest

-- `str::trim`
unfoldable pub trim : Text → Text
unfolding trim_start trim_end
trim s = trim_end (trim_start s)

-- No character is white space.
abbrev pub NoSpace : Text → Type 0
NoSpace String.[] = Unit
NoSpace (String.◌∷◌ c s) = (is_whitespace (code c) ≡ false) × NoSpace s

trim_end-NoSpace : (s : Text) → NoSpace s → trim_end s ≡ s
unfolding trim_end
trim_end-NoSpace String.[] h = refl
trim_end-NoSpace (String.◌∷◌ c s) h = rw (h.0, trim_end-NoSpace s h.1) refl

trim_start-NoSpace : (s : Text) → NoSpace s → trim_start s ≡ s
unfolding trim_start
trim_start-NoSpace String.[] h = refl
trim_start-NoSpace (String.◌∷◌ c s) h = rw h.0 refl

-- A text without white space stays as it is.
pub trim-NoSpace : (s : Text) → NoSpace s → trim s ≡ s
unfolding trim
trim-NoSpace s h = ap trim_end (trim_start-NoSpace s h) ∙ trim_end-NoSpace s h

pub NoSpace-append : (s t : Text) → NoSpace s → NoSpace t → NoSpace (str_append s t)
NoSpace-append String.[] t h k = rw nil-append k
NoSpace-append (String.◌∷◌ c s) t h k = rw cons-append (h.0, NoSpace-append s t h.1 k)

-- `str::len`, which counts bytes of UTF-8.
abbrev pub count_bytes : Text → ℕ
count_bytes = String.len

-- `format!`: the pieces one after the other.
abbrev pub format : List Text → Text
format [] = String.[]
format (piece ∷ pieces) = str_append piece (format pieces)

-- The order of texts by their characters.
unfoldable pub text_ltb : Text → Text → Bool
text_ltb s String.[] = false
text_ltb String.[] (String.◌∷◌ c t) = true
text_ltb (String.◌∷◌ b s) (String.◌∷◌ c t) =
    let rest = text_ltb s t in ltb (code b) (code c) || (code b == code c && rest)
