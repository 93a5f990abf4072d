-- ===== src/Api/Examples.antt =====
-- An environment in which uuids are written in tally marks and a token is its subject.
use Prim.Native.String.{String}
use accord_rfc.Base.{ℕ, zero, suc, ◌≡◌, refl, ap, Text, some}
use accord_rfc.Api.Request.{Env}

abbrev marks : ℕ → Text
marks zero = String.[]
marks (suc n) = String.◌∷◌ "i" (marks n)

abbrev count : Text → ℕ
count String.[] = 0
count (String.◌∷◌ c s) = suc (count s)

pub count-marks : (n : ℕ) → count (marks n) ≡ n
count-marks zero = refl
count-marks (suc n) = ap suc (count-marks n)

abbrev pub tally : Env
tally = record {
  decode = λ token. some (record { sub = token; device_id = token });
  parse_str = λ s. some (count s);
  show = marks;
  to_lowercase = λ s. s;
  parse_str-show = λ u. ap some (count-marks u);
}
