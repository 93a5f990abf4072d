-- ===== src/Vault/Stored.antt =====
-- The vault as a map from accounts and names to blobs, which the requests read and write.
use accord_rfc.Base.{
  ◌≡◌, refl, ap, sym, ◌∙◌, Bool, true, false, ◌&&◌, List, [], ◌∷◌, Option, none, some, Text,
  text_eq, text_eq_iff, text_eq_refl, Uuid, Bytes, any, find, find-any, find-append_none,
  find-append_other, find-filter-none, find-filter_same, find-update_other, update, ◌==◌,
  if◌then◌else◌, Bool-cases, inl, inr, arith,
}
use accord_rfc.Store.{VaultBlob, Db}
use accord_rfc.Store.Blobs.{is_blob, get_vault_blob, put_vault_blob, delete_vault_blob}

abbrev blob_of : Option VaultBlob → Option Bytes
blob_of none = none
blob_of (some b) = some b.blob

get_lem :
    (db : Db) (user : Uuid) (name : Text)
    → get_vault_blob db user name ≡ blob_of (find (is_blob user name) db.vault_blobs)
unfolding get_vault_blob
get_lem db user name = split (find (is_blob user name) db.vault_blobs)
  where
    split : (o : Option VaultBlob) → (elim o [ none ↦ none | some b ↦ some b.blob ]) ≡ blob_of o
    split none = refl
    split (some b) = refl

abbrev is_key : Uuid → Text → Uuid → Text → Bool
is_key user name u n = u == user && text_eq n name

find-updated :
    (user : Uuid) (name : Text) (blob : Bytes) (rows : List VaultBlob)
    → any (is_blob user name) rows ≡ true
    → blob_of (
        find
          (is_blob user name)
          (update (is_blob user name) (λ (b : VaultBlob). record b { blob = blob }) rows))
      ≡ some blob
find-updated user name blob [] h = cc
find-updated user name blob (r ∷ rows) h = elim (Bool-cases (is_blob user name r)) [
  | inl e ↦ rw e (rw e refl)
  | inr e ↦ rw e (rw e (find-updated user name blob rows (ground (arith, e))))
]

-- A row is under one key.
one_key :
    (user u : Uuid) (name n : Text) (r : VaultBlob)
    → is_key user name u n ≡ false
    → is_blob user name r ≡ true
    → is_blob u n r ≡ false
one_key user u name n r apart e = elim (Bool-cases (is_blob u n r)) [
  | inl f ↦
      ground (arith, apart, e, f, text_eq_iff r.name name, text_eq_iff r.name n, text_eq_iff n name)
  | inr f ↦ f
]

-- The same key, as a search.
key_eq :
    (user u : Uuid) (name n : Text)
    → is_key user name u n ≡ true
    → (db : Db) → get_vault_blob db u n ≡ get_vault_blob db user name
key_eq user u name n e db =
    let same : u ≡ user = ground arith in
    let called : n ≡ name = (text_eq_iff n name).0 (ground arith) in rw (same, called) refl

pub get-put :
    (user : Uuid) (name : Text) (blob : Bytes) (db : Db) (u : Uuid) (n : Text)
    → get_vault_blob (put_vault_blob user name blob db) u n
      ≡ (if is_key user name u n then some blob else get_vault_blob db u n)
unfolding put_vault_blob
get-put user name blob db u n = elim (Bool-cases (is_key user name u n)) [
  | inl e ↦ rw e (key_eq user u name n e (put_vault_blob user name blob db) ∙ own)
  | inr e ↦ rw e (get_lem _ u n ∙ ap blob_of (other e) ∙ sym (get_lem db u n))
]
  where
    own : get_vault_blob (put_vault_blob user name blob db) user name ≡ some blob
    own = get_lem _ user name ∙ elim (Bool-cases (any (is_blob user name) db.vault_blobs)) [
      | inl e ↦ rw e (find-updated user name blob db.vault_blobs e)
      | inr e ↦ rw e (
          ap blob_of (
            find-append_none (is_blob user name) db.vault_blobs _ (find-any _ db.vault_blobs e)
              (ground (arith, text_eq_refl name))))
    ]

    other :
        is_key user name u n ≡ false
        → find (is_blob u n) (put_vault_blob user name blob db).vault_blobs
          ≡ find (is_blob u n) db.vault_blobs
    other e = elim (Bool-cases (any (is_blob user name) db.vault_blobs)) [
      | inl f ↦ rw f (
          find-update_other (is_blob u n) (is_blob user name) _ db.vault_blobs
            (λ r k. one_key user u name n r e k) λ r k. one_key user u name n r e k)
      | inr f ↦ rw f (
          find-append_other (is_blob u n) db.vault_blobs _ (
            one_key user u name n (record { user_id = user; name = name; blob = blob }) e
              (ground (arith, text_eq_refl name))))
    ]

pub get-delete :
    (user : Uuid) (name : Text) (db : Db) (u : Uuid) (n : Text)
    → get_vault_blob (delete_vault_blob user name db) u n
      ≡ (if is_key user name u n then none else get_vault_blob db u n)
unfolding delete_vault_blob
get-delete user name db u n = elim (Bool-cases (is_key user name u n)) [
  | inl e ↦ rw e (
      key_eq user u name n e (delete_vault_blob user name db)
      ∙ get_lem _ user name
      ∙ ap blob_of (find-filter-none (is_blob user name) _ db.vault_blobs λ r k. rw k refl))
  | inr e ↦ rw e (
      get_lem _ u n
      ∙ ap blob_of
          (find-filter_same (is_blob u n) _ db.vault_blobs λ r k. ground (arith, one_of e r k))
      ∙ sym (get_lem db u n))
]
  where
    one_of :
        is_key user name u n ≡ false
        → (r : VaultBlob) → is_blob u n r ≡ true
        → is_blob user name r ≡ false
    one_of e r k = elim (Bool-cases (is_blob user name r)) [
      | inl f ↦ ground (arith, k, one_key user u name n r e f)
      | inr f ↦ f
    ]
