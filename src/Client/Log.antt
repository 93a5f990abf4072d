-- ===== src/Client/Log.antt =====
-- crates/accord-client/src-tauri/src/history.rs: the archive of a group as a log of messages.
use accord_rfc.Base.{
  ℕ, ◌+◌, ◌<◌, ◌≡◌, ◌^◌, refl, ap, sym, ◌∙◌, inl, inr, false, not, ◌&&◌, ◌||◌, List, [], ◌∷◌, ◌++◌,
  length, length-append, take, drop, take-append, drop-append, Option, none, some, Text, text_eq,
  Bytes, ltb, ◌==◌, if◌then◌else◌, Bool-cases, arith,
}
use accord_rfc.Client.Records.{frame}
use accord_rfc.Client.Sealing.{Cipher, App, data_key_lem, unseal}
use accord_rfc.Client.History.{ArchivedMessage, Json, parsed, push_some, encode, decode_each}
use accord_rfc.Client.Disk.{Event, recorded, restored, set_encrypt_at_rest}

abbrev pub message : Text → Text → Text → ℕ → ArchivedMessage
message group sender content timestamp_ms = record {
  group_id = group;
  sender_id = sender;
  content = content;
  timestamp_ms = timestamp_ms;
}

-- The messages that were recorded for a group of an account, in order.
unfoldable pub logged : Text → Text → List Event → List ArchivedMessage
logged user group [] = []
logged user group (recorded u g sender content timestamp_ms ∷ events) =
    let rest = logged user group events in
    if text_eq user u && text_eq group g then message g sender content timestamp_ms ∷ rest else rest
logged user group (restored u names get_sealed ∷ events) = logged user group events
logged user group (set_encrypt_at_rest enabled ∷ events) = logged user group events

-- What XChaCha20-Poly1305 promises of a key and a nonce of the right length: what is encrypted is
-- decrypted, and has a tag of 16 bytes.
pub record Honest (cipher : Cipher) : Type 0 where
  pub seals :
      (key nonce plaintext : Bytes)
      → length key ≡ 32
      → length nonce ≡ 24
      → (ciphertext : Bytes) × (cipher.encrypt key nonce plaintext ≡ some ciphertext)
        × (cipher.decrypt key nonce ciphertext ≡ some plaintext)
        × (length ciphertext ≡ length plaintext + 16)

-- The key is at hand, and the generator fills what it is given.
pub record Ready (key : Bytes) (app : App) : Type 0 where
  pub cached : app.dek ≡ some key
  pub size : length key ≡ 32
  pub fills : (n : ℕ) → length (app.random n 24) ≡ 24

module _ (cipher : Cipher) (json : Json) where
  -- JSON reads back what it writes of a message, which is short enough for a record.
  abbrev pub Writes : ArchivedMessage → Type 0
  Writes m =
      (bytes : Bytes) × (json.to_vec m ≡ some bytes)
      × (json.from_slice bytes ≡ some m)
      × (length bytes + 40 < 2 ^ 32)

  -- Messages that can be written, and no restoring.
  abbrev pub Loggable : Event → Type 0
  Loggable (recorded user group sender content timestamp_ms) =
      Writes (message group sender content timestamp_ms)
  Loggable (restored user names get_sealed) = ⊥
  Loggable (set_encrypt_at_rest enabled) = Unit

  abbrev pub message_of : Bytes → ℕ × Bytes → Option ArchivedMessage
  message_of key (flag, payload) =
      if flag == 1 then parsed cipher json (unseal cipher key payload) else json.from_slice payload

  unfoldable pub messages_of : Bytes → List (ℕ × Bytes) → List ArchivedMessage
  messages_of key [] = []
  messages_of key (r ∷ records) = push_some (message_of key r) (messages_of key records)

  pub messages_of-append :
      (key : Bytes) (rs qs : List (ℕ × Bytes))
      → messages_of key (rs ++ qs) ≡ messages_of key rs ++ messages_of key qs
  unfolding messages_of
  messages_of-append key [] qs = refl
  messages_of-append key (r ∷ rs) qs = step (message_of key r) (messages_of-append key rs qs)
    where
      step :
          (o : Option ArchivedMessage)
          → messages_of key (rs ++ qs) ≡ messages_of key rs ++ messages_of key qs
          → push_some o (messages_of key (rs ++ qs))
            ≡ push_some o (messages_of key rs) ++ messages_of key qs
      step none rest = rest
      step (some m) rest = ap (λ ms. m ∷ ms) rest

  pub decode_each-eq :
      (key : Bytes) (app : App) (records : List (ℕ × Bytes))
      → app.dek ≡ some key
      → (decode_each cipher json records app).0 ≡ messages_of key records
  unfolding decode_each messages_of
  decode_each-eq key app [] h = refl
  decode_each-eq key app ((flag, payload) ∷ records) h =
      rw (data_key_lem key app h) (elim (Bool-cases (flag == 1)) [
        | inl e ↦ rw e (
            ap (push_some (parsed cipher json (unseal cipher key payload)))
              (decode_each-eq key app records h))
        | inr e ↦ rw e (ap (push_some (json.from_slice payload)) (decode_each-eq key app records h))
      ])

  -- A record that stands for a message.
  pub record Stands (key : Bytes) (user : Text) (msg : ArchivedMessage) (app : App) : Type 0 where
    pub flag : ℕ
    pub payload : Bytes
    pub entry : (encode cipher json user msg app).0 ≡ some (frame flag payload)
    pub fits : length payload < 2 ^ 32
    pub means : message_of key (flag, payload) ≡ some msg
    pub same_files : (encode cipher json user msg app).1.files ≡ app.files
    pub ready : Ready key (encode cipher json user msg app).1

  pub encode-Stands :
      (key : Bytes) (user : Text) (msg : ArchivedMessage) (app : App)
      → Honest cipher
      → Ready key app
      → Writes msg
      → Stands key user msg app
  encode-Stands key user msg app honest ready (bytes, written, back, short) =
      elim (Bool-cases (not (text_eq msg.sender_id user) || app.encrypt_at_rest)) [
        | inl e ↦ record {
          flag = 1;
          payload = nonce ++ ct;
          entry = rw (written, e, data_key_lem key app ready.cached, encrypted) refl;
          fits = omega (arith, length-append nonce ct, grown, ready.fills app.draws);
          means = rw long (rw (first, second, decrypted) back);
          same_files = rw (written, e, data_key_lem key app ready.cached) refl;
          ready =
              rw (written, e, data_key_lem key app ready.cached)
                (record { cached = ready.cached; size = ready.size; fills = ready.fills });
        }
        | inr e ↦ record {
          flag = 0;
          payload = bytes;
          entry = rw (written, e) refl;
          fits = omega arith;
          means = back;
          same_files = rw (written, e) refl;
          ready = rw (written, e) ready;
        }
      ]
    where
      nonce : Bytes
      nonce = app.random app.draws 24

      sealed :
          (ciphertext : Bytes) × (cipher.encrypt key nonce bytes ≡ some ciphertext)
          × (cipher.decrypt key nonce ciphertext ≡ some bytes)
          × (length ciphertext ≡ length bytes + 16)
      sealed = honest.seals key nonce bytes ready.size (ready.fills app.draws)

      ct : Bytes
      ct = sealed.0

      encrypted : cipher.encrypt key nonce bytes ≡ some ct
      encrypted = sealed.1

      decrypted : cipher.decrypt key nonce ct ≡ some bytes
      decrypted = sealed.2

      grown : length ct ≡ length bytes + 16
      grown = sealed.3

      long : ltb (length (nonce ++ ct)) 24 ≡ false
      long = ground (arith, length-append nonce ct, ready.fills app.draws)

      first : take 24 (nonce ++ ct) ≡ nonce
      first = ap (λ n. take n (nonce ++ ct)) (sym (ready.fills app.draws)) ∙ take-append nonce ct

      second : drop 24 (nonce ++ ct) ≡ ct
      second = ap (λ n. drop n (nonce ++ ct)) (sym (ready.fills app.draws)) ∙ drop-append nonce ct
