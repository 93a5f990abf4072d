-- ===== src/Client/AtRest.antt =====
-- crates/accord-client/src-tauri/src/history.rs: what the archives on the disk may hold.
use mathlib.Core.List.{append-nil}
use accord_rfc.Base.{
  ℕ, ◌≡◌, ◌⊎◌, refl, subst, sym, ◌∙◌, inl, inr, not, ◌||◌, List, [], ◌∷◌, ◌++◌, length, Option,
  none, some, Text, text_eq, text_eq_iff, Bytes, All, All-append, ◌==◌, Bool-cases, Option-cases,
  arith,
}
use accord_rfc.Client.Records.{frame}
use accord_rfc.Client.Framing.{frames, frames-append}
use accord_rfc.Client.Sealing.{Cipher, App, data_key, prefixed, seal_with, seal_bytes}
use accord_rfc.Client.History.{ArchivedMessage, Json, framed, encode_json, encode}

module _ (cipher : Cipher) (json : Json) where
  -- A text that was encrypted, after its nonce.
  pub record Sealed (payload : Bytes) : Type 0 where
    pub key : Bytes
    pub nonce : Bytes
    pub plaintext : Bytes
    pub ciphertext : Bytes
    pub encrypted : cipher.encrypt key nonce plaintext ≡ some ciphertext
    pub whole : payload ≡ nonce ++ ciphertext

  -- A message of the account itself, in the clear.
  pub record OwnMessage (user : Text) (payload : Bytes) : Type 0 where
    pub message : ArchivedMessage
    pub written : json.to_vec message ≡ some payload
    pub own : message.sender_id ≡ user

  abbrev pub Entry : Text → ℕ × Bytes → Type 0
  Entry user (flag, payload) =
      ((flag ≡ 0) × OwnMessage user payload) ⊎ ((flag ≡ 1) × Sealed payload)

  -- The bytes of an archive.
  abbrev pub Holds : Text → Bytes → Type 0
  Holds user bytes =
      (records : List (ℕ × Bytes)) × (bytes ≡ frames records) × All (Entry user) records

  abbrev pub AtRest : App → Type 0
  AtRest app =
      (user group : Text) (bytes : Bytes) → app.files user group ≡ some bytes → Holds user bytes

  pub Holds-append : (user : Text) (b c : Bytes) → Holds user b → Holds user c → Holds user (b ++ c)
  Holds-append user b c (rs, eb, hb) (qs, ec, hc) =
      (rs ++ qs, rw (eb, ec) (sym (frames-append rs qs)), All-append (Entry user) rs qs hb hc)

  Holds-frame :
      (user : Text) (flag : ℕ) (payload : Bytes)
      → Entry user (flag, payload)
      → Holds user (frame flag payload)
  Holds-frame user flag payload e =
      ((flag, payload) ∷ [], sym (append-nil (frame flag payload)), (e, tt))

  pub files-data_key : (app : App) → (data_key app).1.files ≡ app.files
  files-data_key app = elim (Option-cases app.dek) [
    | inr (key, e) ↦ rw e refl
    | inl e ↦ rw e (elim (Option-cases app.secret) [
      | inl f ↦ rw f refl
      | inr (bytes, f) ↦
          rw f (elim (Bool-cases (length bytes == 32)) [ inl g ↦ rw g refl | inr g ↦ rw g refl ])
    ])
  ]

  seal_bytes-Sealed :
      (plaintext : Bytes) (app : App)
      → ((payload : Bytes) → (seal_bytes cipher plaintext app).0 ≡ some payload → Sealed payload)
        × ((seal_bytes cipher plaintext app).1.files ≡ app.files)
  seal_bytes-Sealed plaintext app =
      let (sealed, same) = sealed_under (data_key app).0 (data_key app).1 in
      (sealed, same ∙ files-data_key app)
    where
      sealed_under :
          (key : Option Bytes) (a : App)
          → ((payload : Bytes)
              → (seal_with cipher key plaintext a).0 ≡ some payload
              → Sealed payload)
            × ((seal_with cipher key plaintext a).1.files ≡ a.files)
      sealed_under none a = ((λ payload h. cc), refl)
      sealed_under (some key) a =
          ((λ payload h. opened (cipher.encrypt key (a.random a.draws 24) plaintext) refl h), refl)
        where
          opened :
              {payload : Bytes} (o : Option Bytes)
              → cipher.encrypt key (a.random a.draws 24) plaintext ≡ o
              → prefixed (a.random a.draws 24) o ≡ some payload
              → Sealed payload
          opened none e h = cc
          opened (some ct) e h = record {
            key = key;
            nonce = a.random a.draws 24;
            plaintext = plaintext;
            ciphertext = ct;
            encrypted = e;
            whole = cc;
          }

  -- What `encode` makes can stand in the archive.
  pub encode-Holds :
      (user : Text) (msg : ArchivedMessage) (app : App)
      → ((entry : Bytes) → (encode cipher json user msg app).0 ≡ some entry → Holds user entry)
        × ((encode cipher json user msg app).1.files ≡ app.files)
  encode-Holds user msg app = split (json.to_vec msg) refl
    where
      split :
          (o : Option Bytes)
          → json.to_vec msg ≡ o
          → ((entry : Bytes)
              → (encode_json cipher json
                  (not (text_eq msg.sender_id user) || app.encrypt_at_rest)
                  o
                  app).0
                ≡ some entry
              → Holds user entry)
            × ((encode_json cipher json
                  (not (text_eq msg.sender_id user) || app.encrypt_at_rest)
                  o
                  app).1.files
                ≡ app.files)
      split none e = ((λ entry h. cc), refl)
      split (some bytes) e =
          elim (Bool-cases (not (text_eq msg.sender_id user) || app.encrypt_at_rest)) [
            | inl f ↦ rw f (
              (λ entry h.
                  under_seal (seal_bytes cipher bytes app).0 (seal_bytes-Sealed bytes app).0 h),
              (seal_bytes-Sealed bytes app).1,
            )
            | inr f ↦ rw f (
              (λ entry h. subst (Holds user) (unwrapped h) (
                  Holds-frame user 0 bytes (
                    inl (
                      refl,
                      record {
                        message = msg;
                        written = e;
                        own = (text_eq_iff msg.sender_id user).0 (ground arith);
                      },
                    )))),
              refl,
            )
          ]
        where
          unwrapped : {x y : Bytes} → some x ≡ some y → x ≡ y
          unwrapped h = cc

          under_seal :
              {entry : Bytes} (o : Option Bytes)
              → ((payload : Bytes) → o ≡ some payload → Sealed payload)
              → framed 1 o ≡ some entry
              → Holds user entry
          under_seal none sealed h = cc
          under_seal (some payload) sealed h =
              subst (Holds user) (unwrapped h)
                (Holds-frame user 1 payload (inr (refl, sealed payload refl)))
