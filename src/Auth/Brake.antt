-- ===== src/Auth/Brake.antt =====
-- The limit on registrations from elsewhere: how many pass in an hour.
use mathlib.Core.List.{append-nil, append_assoc}
use accord_rfc.Base.{
  ℕ, ◌+◌, ◌-◌, ◌≤◌, ◌≡◌, refl, ap, sym, ◌∙◌, inl, inr, Bool, true, false, ◌&&◌, List, [], ◌∷◌, ◌++◌,
  length, filter, filter-append, filter_twice, length-append, All, All-map, All-append, leb, ltb,
  if◌then◌else◌, Bool-cases, arith,
}
use accord_rfc.Api.Error.{Result, ok, err}
use accord_rfc.Api.Server.{Address, v4, v6}
use accord_rfc.Auth.Limits.{Log, window, recent, same_address, check_registration_rate}

-- A call of `check_registration_rate`: from where, and when.
abbrev pub Call : Type 0
Call = Address × ℕ

abbrev pub passed : Result (Unit {0}) → Bool
passed (ok a) = true
passed (err e) = false

-- The times at which the calls from one address pass.
pub passes : Address → List Call → Log → List ℕ
unfolding check_registration_rate
passes ip [] log = []
passes ip ((from, now) ∷ calls) log =
    let (r, log') = check_registration_rate from now log in
    let rest = passes ip calls log' in if same_address from ip && passed r then now ∷ rest else rest

-- The clock does not go back.
abbrev pub IsForward : ℕ → List Call → Type 0
IsForward from [] = Unit
IsForward from ((ip, now) ∷ calls) = (from ≤ now) × IsForward now calls

abbrev pub in_window : ℕ → ℕ → Bool
in_window start t = leb start t && ltb t (start + window)

same_address-eq : (a b : Address) → same_address a b ≡ true → a ≡ b
same_address-eq (v4 m) (v4 n) h = ground arith
same_address-eq (v6 m) (v6 n) h = ground arith
same_address-eq (v4 m) (v6 n) h = cc
same_address-eq (v6 m) (v4 n) h = cc

same_address_refl : (a : Address) → same_address a a ≡ true
same_address_refl (v4 m) = ground arith
same_address_refl (v6 m) = ground arith

same_address_comm : (a b : Address) → same_address a b ≡ same_address b a
same_address_comm (v4 m) (v4 n) = ground arith
same_address_comm (v6 m) (v6 n) = ground arith
same_address_comm (v4 m) (v6 n) = refl
same_address_comm (v6 m) (v4 n) = refl

length-filter_mono :
    (p q : ℕ → Bool) (xs : List ℕ) (last : ℕ)
    → All (λ t. t ≤ last) xs
    → ((t : ℕ) → t ≤ last → p t ≡ true → q t ≡ true)
    → length (filter p xs) ≤ length (filter q xs)
length-filter_mono p q [] last h k = omega arith
length-filter_mono p q (x ∷ xs) last h k =
    ground (arith, k x h.0, length-filter_mono p q xs last h.1 k)

recent_later :
    (now later : ℕ) (xs : List ℕ) → now ≤ later → recent later (recent now xs) ≡ recent later xs
recent_later now later xs h =
    filter_twice (λ t. ltb (later - t) window) (λ t. ltb (now - t) window) xs λ t e. ground arith

-- What the log keeps of the calls that passed so far, up to a time.
record Kept (ip : Address) (log : Log) (past : List ℕ) (last : ℕ) : Type 0 where
  keeps : (now : ℕ) → last ≤ now → recent now (log ip) ≡ recent now past
  old : All (λ t. t ≤ last) past
  few : (start : ℕ) → length (filter (in_window start) past) ≤ 5

module _ (ip : Address) (past : List ℕ) (last now : ℕ) (later : last ≤ now) where
  older : All (λ t. t ≤ last) past → All (λ t. t ≤ now) past
  older h = All-map (λ t. t ≤ last) (λ t. t ≤ now) past (λ t e. omega arith) h

  -- A call from another address, and one that is refused.
  Kept-same :
      (log log' : Log)
      → ((t : ℕ) → now ≤ t → recent t (log' ip) ≡ recent t (log ip))
      → Kept ip log past last
      → Kept ip log' past now
  Kept-same log log' same k = record {
    keeps = λ t h. same t h ∙ k.keeps t (omega arith);
    old = older k.old;
    few = k.few;
  }

  -- A call that passes.
  Kept-pass :
      (log log' : Log)
      → log' ip ≡ recent now (log ip) ++ now ∷ []
      → length (recent now (log ip)) ≤ 4
      → Kept ip log past last
      → Kept ip log' (past ++ now ∷ []) now
  Kept-pass log log' put below k = record {
    keeps = λ t h.
        ap (recent t) put
        ∙ filter-append _ (recent now (log ip)) (now ∷ [])
        ∙ ap (λ xs. xs ++ recent t (now ∷ []))
            (recent_later now t (log ip) h ∙ k.keeps t (omega arith))
        ∙ sym (filter-append _ past (now ∷ []));
    old = All-append (λ t. t ≤ now) past (now ∷ []) (older k.old) (omega arith, tt);
    few = few_of;
  }
    where
      inside :
          (start : ℕ)
          → in_window start now ≡ true
          → length (filter (in_window start) past) ≤ length (recent now past)
      inside start e =
          length-filter_mono (in_window start) (λ t. ltb (now - t) window) past last k.old
            λ t h i. ground arith

      few_of : (start : ℕ) → length (filter (in_window start) (past ++ now ∷ [])) ≤ 5
      few_of start = rw (filter-append (in_window start) past (now ∷ [])) (
          rw (length-append (filter (in_window start) past) (filter (in_window start) (now ∷ [])))
            (elim (Bool-cases (in_window start now)) [
              | inl e ↦
                  let kept : length (recent now (log ip)) ≡ length (recent now past) =
                    ap length (k.keeps now later) in
                  ground (arith, inside start e)
              | inr e ↦ ground (arith, k.few start)
            ]))

-- What a call does to the log at its own address, and at another.
module _ (ip : Address) (now : ℕ) (log : Log) where
  refused_lem :
      leb 5 (length (recent now (log ip))) ≡ true
      → (passed (check_registration_rate ip now log).0 ≡ false)
        × ((check_registration_rate ip now log).1 ip ≡ recent now (log ip))
  unfolding check_registration_rate
  refused_lem e = rw e (refl, rw (same_address_refl ip) refl)

  passed_lem :
      leb 5 (length (recent now (log ip))) ≡ false
      → (passed (check_registration_rate ip now log).0 ≡ true)
        × ((check_registration_rate ip now log).1 ip ≡ recent now (log ip) ++ now ∷ [])
  unfolding check_registration_rate
  passed_lem e = rw e (refl, rw (same_address_refl ip) refl)

  other_lem :
      (from : Address)
      → same_address ip from ≡ false
      → (check_registration_rate from now log).1 ip ≡ log ip
  unfolding check_registration_rate
  other_lem from e = elim (Bool-cases (leb 5 (length (recent now (log from))))) [
    | inl full ↦ rw full (rw e refl)
    | inr free ↦ rw free (rw e refl)
  ]

passes_few :
    (ip : Address) (calls : List Call) (log : Log) (past : List ℕ) (last : ℕ)
    → Kept ip log past last
    → IsForward last calls
    → (start : ℕ) → length (filter (in_window start) (past ++ passes ip calls log)) ≤ 5
unfolding passes
passes_few ip [] log past last k f start = rw (append-nil past) (k.few start)
passes_few ip ((from, now) ∷ calls) log past last k (later, f) start =
    elim (Bool-cases (same_address from ip)) [
      | inr other ↦ rw other (
          passes_few ip calls log_after past now
            (Kept-same ip past last now later log log_after
              (λ t h. ap (recent t) (other_lem ip now log from (same_address_comm ip from ∙ other)))
              k)
            f start)
      | inl same ↦ rw (same_address-eq from ip same) (
          rw (same_address_refl ip) (
            own_call λ p kept.
              passes_few ip calls (check_registration_rate ip now log).1 p now kept f start))
    ]
  where
    log_after : Log
    log_after = (check_registration_rate from now log).1

    log_own : Log
    log_own = (check_registration_rate ip now log).1

    own_call :
        ((p : List ℕ)
          → Kept ip log_own p now
          → length (filter (in_window start) (p ++ passes ip calls log_own)) ≤ 5)
        → length (
            filter (in_window start) (
              past
              ++ (if passed (check_registration_rate ip now log).0
                  then now ∷ passes ip calls log_own
                  else passes ip calls log_own)))
          ≤ 5
    own_call rest = elim (Bool-cases (leb 5 (length (recent now (log ip))))) [
      | inl full ↦
          let (refused, kept) = refused_lem ip now log full in
          rw refused (
            rest past (
              Kept-same ip past last now later log log_own
                (λ t h. ap (recent t) kept ∙ recent_later now t (log ip) h) k))
      | inr free ↦
          let (let_through, kept) = passed_lem ip now log free in
          rw let_through (
            rw (← append_assoc past (now ∷ []) (passes ip calls log_own)) (
              rest (past ++ now ∷ [])
                (Kept-pass ip past last now later log log_own kept (ground arith) k)))
    ]

-- In any sequence of registrations from any addresses on a clock that does not go back, from a
-- log without calls of an address, the limit lets at most 5 of that address pass in each window
-- of an hour.
pub passes_bounded :
    (ip : Address) (calls : List Call) (log : Log) (from start : ℕ)
    → log ip ≡ []
    → IsForward from calls
    → length (filter (in_window start) (passes ip calls log)) ≤ 5
passes_bounded ip calls log from start fresh f =
    passes_few ip calls log [] from
      (record { keeps = λ now h. ap (recent now) fresh; old = tt; few = λ s. omega arith }) f start
