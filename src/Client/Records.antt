-- ===== src/Client/Records.antt =====
-- crates/accord-client/src-tauri/src/history.rs: the records of an archive file.
use accord_rfc.Base.{
  ℕ, suc, ◌+◌, ◌*◌, ◌/◌, ◌%◌, List, [], ◌∷◌, ◌++◌, length, take, drop, Bytes, ltb, if◌then◌else◌,
}

-- `u32::to_le_bytes` of a length `as u32`, and `u32::from_le_bytes`.
abbrev pub to_le_bytes : ℕ → Bytes
to_le_bytes n = n % 256 ∷ n / 256 % 256 ∷ n / 65536 % 256 ∷ n / 16777216 % 256 ∷ []

abbrev pub from_le_bytes : ℕ → ℕ → ℕ → ℕ → ℕ
from_le_bytes b0 b1 b2 b3 = b0 + 256 * b1 + 65536 * b2 + 16777216 * b3

-- `frame`
abbrev pub frame : ℕ → Bytes → Bytes
frame flag payload = flag ∷ (to_le_bytes (length payload) ++ payload)

-- A record that is read, and the rest of the loop on what follows it; or the end.
abbrev pub or_break : ℕ → ℕ → Bytes → (Bytes → List (ℕ × Bytes)) → List (ℕ × Bytes)
or_break flag len rest more =
    let records = more (drop len rest) in
    if ltb (length rest) len then [] else (flag, take len rest) ∷ records

-- The loop of `read_records` on what is left of the data. The fuel is the number of bytes, of which
-- each turn takes five or more.
unfoldable pub records_of : ℕ → Bytes → List (ℕ × Bytes)
records_of (suc fuel) (flag ∷ b0 ∷ b1 ∷ b2 ∷ b3 ∷ rest) =
    or_break flag (from_le_bytes b0 b1 b2 b3) rest (records_of fuel)
records_of fuel bytes = []

-- `read_records`, of the data of a file.
unfoldable pub read_records : Bytes → List (ℕ × Bytes)
unfolding records_of
read_records bytes = records_of (length bytes) bytes
