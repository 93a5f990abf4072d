-- ===== src/Client/Framing.antt =====
-- crates/accord-client/src-tauri/src/history.rs: the records of an archive file, there and back.
use mathlib.Core.List.{append_assoc}
use accord_rfc.Base.{
  ℕ, zero, suc, ◌/◌, ◌%◌, ◌^◌, ◌≤◌, ◌<◌, ◌≡◌, refl, ap, sym, ◌∙◌, inl, inr, true, false, List, [],
  ◌∷◌, ◌++◌, length, length-append, take, drop, take-append, drop-append, append-take-drop,
  length-take, length-drop-le, All, AreBytes, Bytes, ltb, Bool-cases, arith,
}
use accord_rfc.Client.Records.{to_le_bytes, from_le_bytes, frame, records_of, read_records}

-- The records one after the other.
abbrev pub frames : List (ℕ × Bytes) → Bytes
frames [] = []
frames ((flag, payload) ∷ records) = frame flag payload ++ frames records

pub frames-append : (rs qs : List (ℕ × Bytes)) → frames (rs ++ qs) ≡ frames rs ++ frames qs
frames-append [] qs = refl
frames-append ((flag, payload) ∷ rs) qs =
    ap (λ b. frame flag payload ++ b) (frames-append rs qs)
    ∙ sym (append_assoc (frame flag payload) (frames rs) (frames qs))

-- The length of the payload is a `u32`.
abbrev pub Fits : ℕ × Bytes → Type 0
Fits (flag, payload) = length payload < 2 ^ 32

-- Less than a record: the head is cut off, or the payload.
abbrev pub Incomplete : Bytes → Type 0
Incomplete (flag ∷ b0 ∷ b1 ∷ b2 ∷ b3 ∷ rest) = length rest < from_le_bytes b0 b1 b2 b3
Incomplete bytes = Unit

from_le_bytes-to_le_bytes :
    (n : ℕ)
    → n < 2 ^ 32
    → from_le_bytes (n % 256) (n / 256 % 256) (n / 65536 % 256) (n / 16777216 % 256) ≡ n
from_le_bytes-to_le_bytes n h = omega arith

records_of-Incomplete : (fuel : ℕ) (tail : Bytes) → Incomplete tail → records_of fuel tail ≡ []
unfolding records_of
records_of-Incomplete zero tail h = refl
records_of-Incomplete (suc fuel) (flag ∷ b0 ∷ b1 ∷ b2 ∷ b3 ∷ rest) h =
    let e : ltb (length rest) (from_le_bytes b0 b1 b2 b3) ≡ true = ground arith in rw e refl
records_of-Incomplete (suc fuel) [] h = refl
records_of-Incomplete (suc fuel) (a ∷ []) h = refl
records_of-Incomplete (suc fuel) (a ∷ b ∷ []) h = refl
records_of-Incomplete (suc fuel) (a ∷ b ∷ c ∷ []) h = refl
records_of-Incomplete (suc fuel) (a ∷ b ∷ c ∷ d ∷ []) h = refl

records_of-frame :
    (fuel flag : ℕ) (payload rest : Bytes)
    → length payload < 2 ^ 32
    → records_of (suc fuel) (frame flag payload ++ rest) ≡ (flag, payload) ∷ records_of fuel rest
unfolding records_of
records_of-frame fuel flag payload rest h =
    let e : ltb (length (payload ++ rest)) (length payload) ≡ false =
      ground (arith, length-append payload rest) in
    rw (from_le_bytes-to_le_bytes (length payload) h)
      (rw e (rw (take-append payload rest, drop-append payload rest) refl))

records_of-frames :
    (records : List (ℕ × Bytes)) (fuel : ℕ) (tail : Bytes)
    → length (frames records) ≤ fuel
    → All Fits records
    → Incomplete tail
    → records_of fuel (frames records ++ tail) ≡ records
records_of-frames [] fuel tail h fits cut = records_of-Incomplete fuel tail cut
records_of-frames ((flag, payload) ∷ records) zero tail h fits cut = absurd (omega arith)
records_of-frames ((flag, payload) ∷ records) (suc fuel) tail h (fit, fits) cut =
    ap (records_of (suc fuel)) (append_assoc (frame flag payload) (frames records) tail)
    ∙ records_of-frame fuel flag payload (frames records ++ tail) fit
    ∙ ap (λ rs. (flag, payload) ∷ rs)
        (records_of-frames records fuel tail
          (omega (arith, h, length-append payload (frames records))) fits cut)

-- What is framed is read, also where less than a record follows.
pub read_records-frames :
    (records : List (ℕ × Bytes)) (tail : Bytes)
    → All Fits records
    → Incomplete tail
    → read_records (frames records ++ tail) ≡ records
unfolding read_records
read_records-frames records tail fits cut =
    records_of-frames records (length (frames records ++ tail)) tail
      (omega (arith, length-append (frames records) tail)) fits cut

-- The records of the bytes, and a part of a record that is left.
pub record Split (records : List (ℕ × Bytes)) (bytes : Bytes) : Type 0 where
  pub tail : Bytes
  pub whole : bytes ≡ frames records ++ tail
  pub cut : Incomplete tail
  pub fits : All Fits records

to_le_bytes-from_le_bytes :
    (b0 b1 b2 b3 : ℕ)
    → b0 < 256
    → b1 < 256
    → b2 < 256
    → b3 < 256
    → to_le_bytes (from_le_bytes b0 b1 b2 b3) ≡ b0 ∷ b1 ∷ b2 ∷ b3 ∷ []
to_le_bytes-from_le_bytes b0 b1 b2 b3 h0 h1 h2 h3 =
    let e0 : from_le_bytes b0 b1 b2 b3 % 256 ≡ b0 = omega arith in
    let e1 : from_le_bytes b0 b1 b2 b3 / 256 % 256 ≡ b1 = omega arith in
    let e2 : from_le_bytes b0 b1 b2 b3 / 65536 % 256 ≡ b2 = omega arith in
    let e3 : from_le_bytes b0 b1 b2 b3 / 16777216 % 256 ≡ b3 = omega arith in
    rw (e0, e1, e2, e3) refl

AreBytes-drop : (n : ℕ) (bytes : Bytes) → AreBytes bytes → AreBytes (drop n bytes)
AreBytes-drop zero bytes h = h
AreBytes-drop (suc n) [] h = h
AreBytes-drop (suc n) (b ∷ bytes) h = AreBytes-drop n bytes h.1

records_of-Split :
    (fuel : ℕ) (bytes : Bytes)
    → length bytes ≤ fuel
    → AreBytes bytes
    → Split (records_of fuel bytes) bytes
unfolding records_of
records_of-Split zero [] h are = record { tail = []; whole = refl; cut = tt; fits = tt }
records_of-Split zero (b ∷ bytes) h are = absurd (omega arith)
records_of-Split (suc fuel) [] h are = record { tail = []; whole = refl; cut = tt; fits = tt }
records_of-Split (suc fuel) (a ∷ []) h are = record {
  tail = a ∷ [];
  whole = refl;
  cut = tt;
  fits = tt;
}
records_of-Split (suc fuel) (a ∷ b ∷ []) h are = record {
  tail = a ∷ b ∷ [];
  whole = refl;
  cut = tt;
  fits = tt;
}
records_of-Split (suc fuel) (a ∷ b ∷ c ∷ []) h are = record {
  tail = a ∷ b ∷ c ∷ [];
  whole = refl;
  cut = tt;
  fits = tt;
}
records_of-Split (suc fuel) (a ∷ b ∷ c ∷ d ∷ []) h are = record {
  tail = a ∷ b ∷ c ∷ d ∷ [];
  whole = refl;
  cut = tt;
  fits = tt;
}
records_of-Split (suc fuel) (flag ∷ b0 ∷ b1 ∷ b2 ∷ b3 ∷ rest) h (_, (h0, (h1, (h2, (h3, are))))) =
    elim (Bool-cases (ltb (length rest) len)) [
      | inl e ↦ rw e (record {
        tail = flag ∷ b0 ∷ b1 ∷ b2 ∷ b3 ∷ rest;
        whole = refl;
        cut = ground (arith, e);
        fits = tt;
      })
      | inr e ↦ rw e (
          split e (
            records_of-Split fuel (drop len rest) (omega (arith, h, length-drop-le len rest))
              (AreBytes-drop len rest are)))
    ]
  where
    len : ℕ
    len = from_le_bytes b0 b1 b2 b3

    split :
        ltb (length rest) len ≡ false
        → Split (records_of fuel (drop len rest)) (drop len rest)
        → Split
            ((flag, take len rest) ∷ records_of fuel (drop len rest))
            (flag ∷ b0 ∷ b1 ∷ b2 ∷ b3 ∷ rest)
    split e s = record {
      tail = s.tail;
      whole =
          ap (λ r. flag ∷ b0 ∷ b1 ∷ b2 ∷ b3 ∷ r) (sym body)
          ∙ ap (λ head. flag ∷ (head ++ (payload ++ frames more) ++ s.tail)) (sym head);
      cut = s.cut;
      fits = (omega (arith, size), s.fits);
    }
      where
        payload : Bytes
        payload = take len rest

        more : List (ℕ × Bytes)
        more = records_of fuel (drop len rest)

        size : length payload ≡ len
        size = length-take len rest (ground (arith, e))

        head : to_le_bytes (length payload) ≡ b0 ∷ b1 ∷ b2 ∷ b3 ∷ []
        head = ap to_le_bytes size ∙ to_le_bytes-from_le_bytes b0 b1 b2 b3 h0 h1 h2 h3

        body : (payload ++ frames more) ++ s.tail ≡ rest
        body =
            append_assoc payload (frames more) s.tail
            ∙ ap (λ r. payload ++ r) (sym s.whole)
            ∙ append-take-drop len rest

-- On any bytes the loop of `read_records` reads on until less than a record is left: the bytes
-- are the frames of the records that are read, each with a payload of less than 2^32 bytes, and a
-- rest whose head or payload is cut off.
pub read_records-Split : (bytes : Bytes) → AreBytes bytes → Split (read_records bytes) bytes
unfolding read_records
read_records-Split bytes are = records_of-Split (length bytes) bytes (omega arith) are
