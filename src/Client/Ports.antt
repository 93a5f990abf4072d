-- ===== src/Client/Ports.antt =====
-- crates/accord-client/src-tauri/src/taverns.rs: the ports of the hosted taverns that are known.
use accord_rfc.Base.{
  ℕ, zero, suc, ◌+◌, ◌≤◌, ◌<◌, ◌≡◌, ◌⊎◌, subst, sym, ◌∙◌, inl, inr, Bool, true, false, not, ◌&&◌,
  ◌||◌, List, [], ◌∷◌, ◌++◌, any, any-append, any-filter, any_mono, map, some, Text, text_eq,
  text_eq_iff, ◌==◌, Bool-cases, arith,
}
use accord_rfc.Client.Taverns.{
  TavernMeta, Hosting, System, is_taken, find_port, ports_of, without, started, save_meta,
  known_ports,
}

-- A tavern with this id and this port is persisted, or runs.
abbrev pub is_meta : Text → ℕ → TavernMeta → Bool
is_meta id port m = text_eq m.id id && m.port == port

abbrev pub is_server : Text → ℕ → Text × ℕ → Bool
is_server id port r = text_eq r.0 id && r.1 == port

abbrev pub is_known : Text → ℕ → Hosting → Bool
is_known id port h = any (is_meta id port) h.metas || any (is_server id port) h.running

pub record Sound (h : Hosting) : Type 0 where
  pub apart : (i j : Text) (port : ℕ) → is_known i port h ≡ true → is_known j port h ≡ true → i ≡ j
  pub in_range : (i : Text) (port : ℕ) → is_known i port h ≡ true → (50052 ≤ port) × (port ≤ 50307)

-- A change after which no more is known.
pub Sound-mono :
    (h h' : Hosting)
    → ((i : Text) (port : ℕ) → is_known i port h' ≡ true → is_known i port h ≡ true)
    → Sound h
    → Sound h'
Sound-mono h h' less s = record {
  apart = λ i j port a b. s.apart i j port (less i port a) (less j port b);
  in_range = λ i port a. s.in_range i port (less i port a);
}

-- What a port that is found is.
pub record Free (first n : ℕ) (taken : List ℕ) (port : ℕ) : Type 0 where
  pub low : first ≤ port
  pub high : port < first + n
  pub fresh : is_taken taken port ≡ false

pub find_port-Free :
    (first n : ℕ) (taken : List ℕ) (is_free : ℕ → Bool) (port : ℕ)
    → find_port first n taken is_free ≡ some port
    → Free first n taken port
unfolding find_port
find_port-Free first zero taken is_free port h = cc
find_port-Free first (suc n) taken is_free port h =
    elim (Bool-cases (not (is_taken taken first) && is_free first)) [
      | inl e ↦
          let here : some first ≡ some port = rw e at h in
          let same : first ≡ port = cc in
          subst (Free first (suc n) taken) same
            (record { low = omega arith; high = omega arith; fresh = ground arith })
      | inr e ↦
          let f = find_port-Free (suc first) n taken is_free port (rw e at h) in
          record { low = omega (arith, f.low); high = omega (arith, f.high); fresh = f.fresh }
    ]

any-ports :
    (i : Text) (port : ℕ) (metas : List TavernMeta)
    → any (is_meta i port) metas ≡ true
    → is_taken (ports_of metas) port ≡ true
any-ports i port [] h = h
any-ports i port (m ∷ metas) h = ground (arith, any-ports i port metas)

any-servers :
    (i : Text) (port : ℕ) (running : List (Text × ℕ))
    → any (is_server i port) running ≡ true
    → is_taken (map (λ (r : Text × ℕ). r.1) running) port ≡ true
any-servers i port [] h = h
any-servers i port (r ∷ running) h = ground (arith, any-servers i port running)

-- A port that is not taken is that of no tavern.
unknown :
    (i : Text) (port : ℕ) (h : Hosting)
    → is_taken (known_ports h) port ≡ false
    → is_known i port h ≡ false
unknown i port h e = elim (Bool-cases (is_known i port h)) [
  | inr f ↦ f
  | inl f ↦ ground (
    arith,
    e,
    f,
    any-append (λ p. p == port) (map (λ (r : Text × ℕ). r.1) h.running) (ports_of h.metas),
    any-ports i port h.metas,
    any-servers i port h.running,
  )
]

pub without-le :
    (id i : Text) (port : ℕ) (running : List (Text × ℕ))
    → any (is_server i port) (without id running) ≡ true
    → any (is_server i port) running ≡ true
without-le id i port running h =
    any_mono (λ (r : Text × ℕ). not (text_eq r.0 id) && is_server i port r) (is_server i port)
      running (λ r e. ground arith)
      (sym (any-filter (is_server i port) (λ (r : Text × ℕ). not (text_eq r.0 id)) running) ∙ h)

pub started-known :
    (meta : TavernMeta) (h : Hosting) (i : Text) (port : ℕ)
    → is_known i port (started meta h) ≡ true
    → (is_meta i port meta ≡ true) ⊎ (is_known i port h ≡ true)
started-known meta h i port e = elim (Bool-cases (is_meta i port meta)) [
  | inl f ↦ inl f
  | inr f ↦ inr (ground (arith, e, f, without-le meta.id i port h.running))
]

-- A new tavern on a port of no other.
module _ (system : System) (id name : Text) (port : ℕ) (h : Hosting)
    (free : Free 50052 256 (known_ports h) port) (sound : Sound h) where
  abbrev pub meta : TavernMeta
  meta = record { id = id; name = name; port = port }

  -- What is known then.
  unfoldable pub KnownBy : Hosting → Type 0
  KnownBy h' =
      (i : Text) (p : ℕ)
      → is_known i p h' ≡ true
      → (is_meta i p meta ≡ true) ⊎ (is_known i p h ≡ true)

  pub known_saved : KnownBy (save_meta system (h.metas ++ meta ∷ []) (started meta h))
  unfolding KnownBy
  known_saved i p e = elim (Bool-cases system.saves) [
    | inl f ↦ elim (Bool-cases (is_meta i p meta)) [
      | inl g ↦ inl g
      | inr g ↦ inr (
          ground (
            arith,
            rw f at e,
            g,
            any-append (is_meta i p) h.metas (meta ∷ []),
            without-le id i p h.running,
          ))
    ]
    | inr f ↦ started-known meta h i p (rw f at e)
  ]

  pub Sound-new : (h' : Hosting) → KnownBy h' → Sound h'
  unfolding KnownBy
  Sound-new h' known = record {
    apart = λ i j p a b. elim (known i p a) [
      | inl new ↦ elim (known j p b) [
        | inl new' ↦ sym (text_eq_of i p new) ∙ text_eq_of j p new'
        | inr old ↦ absurd (clash i j p old new)
      ]
      | inr old ↦ elim (known j p b) [
        | inl new' ↦ absurd (clash j i p old new')
        | inr old' ↦ sound.apart i j p old old'
      ]
    ];
    in_range = λ i p a. elim (known i p a) [
      | inl new ↦
          let e : port ≡ p = ground arith in
          (omega (arith, e, free.low), omega (arith, e, free.high))
      | inr old ↦ sound.in_range i p old
    ];
  }
    where
      text_eq_of : (i : Text) (p : ℕ) → is_meta i p meta ≡ true → id ≡ i
      text_eq_of i p new = (text_eq_iff id i).0 (ground arith)

      clash : (i j : Text) (p : ℕ) → is_known j p h ≡ true → is_meta i p meta ≡ true → ⊥
      clash i j p old new =
          let e : port ≡ p = ground arith in
          let u = unknown j port h free.fresh in
          ground (arith, old, subst (λ q. is_known j q h ≡ false) e u)
