-- ===== src/Client/Disk.antt =====
-- crates/accord-client/src-tauri/src/history.rs: the archives over any use of the client.
use accord_rfc.Base.{
  ℕ, ◌≡◌, refl, subst, sym, ◌∙◌, inl, inr, Bool, ◌&&◌, List, [], ◌∷◌, ◌++◌, Option, none, some,
  Text, text_eq, text_eq_iff, Bytes, is_some, Bool-cases, Option-cases, arith,
}
use accord_rfc.Api.Request.{strip_prefix}
use accord_rfc.Client.Sealing.{Cipher, App}
use accord_rfc.Client.History.{
  ArchivedMessage, Json, bytes_of, write_file, append_file, encode, record_message, split_lines,
}
use accord_rfc.Client.Restore.{
  no_bytes, or_return, encode_line, encode_lines, write_buffer, write_from_jsonl, write_fetched,
  restore_group, restore_all,
}
use accord_rfc.Client.AtRest.{Holds, AtRest, Holds-append, encode-Holds}

-- A use of the client: a message is recorded, the archives are restored, or the setting is changed.
pub data Event : Type 0 where
  recorded : (user group sender content : Text) (timestamp_ms : ℕ) → Event
  restored : (user : Text) (names : List Text) (get_sealed : Text → Option Bytes) → Event
  set_encrypt_at_rest : (enabled : Bool) → Event

module _ (cipher : Cipher) (json : Json) where
  abbrev pub happen : Event → App → App
  unfolding restore_all
  happen (recorded user group sender content timestamp_ms) app =
      record_message cipher json user group sender content timestamp_ms app
  happen (restored user names get_sealed) app = restore_all cipher json user names get_sealed app
  happen (set_encrypt_at_rest enabled) app = record app { encrypt_at_rest = enabled }

  unfoldable pub run : List Event → App → App
  run [] app = app
  run (e ∷ events) app = run events (happen e app)

  fine_same :
      (app app' : App) → app'.files ≡ app.files → AtRest cipher json app → AtRest cipher json app'
  fine_same app app' same h =
      subst
        (λ (files : Text → Text → Option Bytes).
          (u g : Text) (b : Bytes) → files u g ≡ some b → Holds cipher json u b)
        (sym same) h

  fine_write :
      (user group : Text) (bytes : Bytes) (app : App)
      → Holds cipher json user bytes
      → AtRest cipher json app
      → AtRest cipher json (write_file user group bytes app)
  fine_write user group bytes app held h u g b e =
      elim (Bool-cases (text_eq u user && text_eq g group)) [
        | inl f ↦ owned (rw f at e) ((text_eq_iff u user).0 (ground arith))
        | inr f ↦ h u g b (rw f at e)
      ]
    where
      owned : some bytes ≡ some b → u ≡ user → Holds cipher json u b
      owned k same =
          let content : bytes ≡ b = cc in
          subst (λ i. Holds cipher json i b) (sym same)
            (subst (Holds cipher json user) content held)

  bytes_of-Holds :
      (user group : Text) (app : App)
      → AtRest cipher json app
      → Holds cipher json user (bytes_of (app.files user group))
  bytes_of-Holds user group app h = elim (Option-cases (app.files user group)) [
    | inl e ↦ rw e ([], refl, tt)
    | inr (bytes, e) ↦ rw e (h user group bytes e)
  ]

  record_message-AtRest :
      (user group sender content : Text) (timestamp_ms : ℕ) (app : App)
      → AtRest cipher json app
      → AtRest cipher json (record_message cipher json user group sender content timestamp_ms app)
  unfolding record_message
  record_message-AtRest user group sender content timestamp_ms app h =
      appended (encode cipher json user msg app).0 (encode-Holds cipher json user msg app).0
    where
      msg : ArchivedMessage
      msg = record {
        group_id = group;
        sender_id = sender;
        content = content;
        timestamp_ms = timestamp_ms;
      }

      app' : App
      app' = (encode cipher json user msg app).1

      kept : AtRest cipher json app'
      kept = fine_same app app' (encode-Holds cipher json user msg app).1 h

      appended :
          (o : Option Bytes)
          → ((entry : Bytes) → o ≡ some entry → Holds cipher json user entry)
          → AtRest cipher json (append_file user group o app')
      appended none held = kept
      appended (some entry) held =
          fine_write user group (bytes_of (app'.files user group) ++ entry) app'
            (Holds-append cipher json user _ entry (bytes_of-Holds user group app' kept)
              (held entry refl))
            kept

  module _ (user : Text) where
    -- What the loop over lines leaves.
    record Buffered (app : App) (p : Option Bytes × App) : Type 0 where
      held : (out : Bytes) → p.0 ≡ some out → Holds cipher json user out
      same : p.1.files ≡ app.files

    encode_lines-Buffered :
        (lines : List Bytes) (buf : Bytes) (app : App)
        → Holds cipher json user buf
        → Buffered app (encode_lines cipher json user lines buf app)
    unfolding encode_lines
    encode_lines-Buffered [] buf app h = record {
      held = λ out e. let same : buf ≡ out = cc in subst (Holds cipher json user) same h;
      same = refl;
    }
    encode_lines-Buffered (line ∷ lines) buf app h = elim (Bool-cases (no_bytes line)) [
      | inl e ↦ rw e (encode_lines-Buffered lines buf app h)
      | inr e ↦ rw e (step (json.from_slice line) λ b a k. encode_lines-Buffered lines b a k)
    ]
      where
        more : Bytes → App → Option Bytes × App
        more = encode_lines cipher json user lines

        step :
            (o : Option ArchivedMessage)
            → ((b : Bytes) (a : App) → Holds cipher json user b → Buffered a (more b a))
            → Buffered app (encode_line cipher json user more o buf app)
        step none rest = rest buf app h
        step (some msg) rest =
            returned (encode cipher json user msg app).0 (encode cipher json user msg app).1
              (encode-Holds cipher json user msg app).0 (encode-Holds cipher json user msg app).1
          where
            returned :
                (o : Option Bytes) (a : App)
                → ((entry : Bytes) → o ≡ some entry → Holds cipher json user entry)
                → a.files ≡ app.files
                → Buffered app (or_return cipher json user more buf (o, a))
            returned none a held same = record { held = λ out e. cc; same = same }
            returned (some entry) a held same =
                let r =
                  rest (buf ++ entry) a
                    (Holds-append cipher json user buf entry h (held entry refl)) in
                record { held = r.held; same = r.same ∙ same }

    write_from_jsonl-AtRest :
        (group : Text) (jsonl : Bytes) (app : App)
        → AtRest cipher json app
        → AtRest cipher json (write_from_jsonl cipher json user group jsonl app)
    unfolding write_from_jsonl split_lines
    write_from_jsonl-AtRest group jsonl app h =
        let r = encode_lines-Buffered (split_lines jsonl) [] app ([], refl, tt) in
        written (encode_lines cipher json user (split_lines jsonl) [] app) r
      where
        written :
            (p : Option Bytes × App)
            → Buffered app p
            → AtRest cipher json (write_buffer cipher json user group p)
        written (none, a) r = fine_same app a r.same h
        written (some buf, a) r =
            fine_write user group buf a (r.held buf refl) (fine_same app a r.same h)

    restore_group-AtRest :
        (group : Option Text) (fetched : Option Bytes) (app : App)
        → AtRest cipher json app
        → AtRest cipher json (restore_group cipher json user group fetched app)
    unfolding write_from_jsonl
    restore_group-AtRest none fetched app h = h
    restore_group-AtRest (some group) fetched app h =
        elim (Bool-cases (is_some (app.files user group))) [
          | inl e ↦ rw e h
          | inr e ↦ rw e (fetched_fine fetched)
        ]
      where
        fetched_fine :
            (o : Option Bytes) → AtRest cipher json (write_fetched cipher json user group o app)
        fetched_fine none = h
        fetched_fine (some jsonl) = write_from_jsonl-AtRest group jsonl app h

    restore_all-AtRest :
        (names : List Text) (get_sealed : Text → Option Bytes) (app : App)
        → AtRest cipher json app
        → AtRest cipher json (restore_all cipher json user names get_sealed app)
    unfolding restore_all
    restore_all-AtRest [] get_sealed app h = h
    restore_all-AtRest (name ∷ names) get_sealed app h =
        restore_all-AtRest names get_sealed _
          (restore_group-AtRest (strip_prefix "hist/" name) (get_sealed name) app h)

  -- Whatever messages are recorded and archives restored, and however the setting changes, each
  -- archive of an account is a sequence of framed records, of which each one with flag 0 is the
  -- JSON of a message that the account itself sent, and each other one has flag 1 and is a
  -- ciphertext after its nonce, if that was so before.
  pub run-AtRest :
      (events : List Event) (app : App)
      → AtRest cipher json app
      → AtRest cipher json (run events app)
  unfolding run restore_all
  run-AtRest [] app h = h
  run-AtRest (recorded user group sender content timestamp_ms ∷ events) app h =
      run-AtRest events (record_message cipher json user group sender content timestamp_ms app)
        (record_message-AtRest user group sender content timestamp_ms app h)
  run-AtRest (restored user names get_sealed ∷ events) app h =
      run-AtRest events (restore_all cipher json user names get_sealed app)
        (restore_all-AtRest user names get_sealed app h)
  run-AtRest (set_encrypt_at_rest enabled ∷ events) app h =
      run-AtRest events (record app { encrypt_at_rest = enabled }) h
