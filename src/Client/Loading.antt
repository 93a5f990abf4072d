-- ===== src/Client/Loading.antt =====
-- crates/accord-client/src-tauri/src/history.rs: what is loaded of an archive after any use.
use mathlib.Core.List.{append_assoc, append-nil}
use accord_rfc.Base.{
  ℕ, ◌<◌, ◌≡◌, ◌^◌, refl, ap, sym, ◌∙◌, inl, inr, Bool, true, false, ◌&&◌, List, [], ◌∷◌, ◌++◌,
  length, Option, none, some, Text, text_eq, text_eq_iff, Bytes, All, All-append, if◌then◌else◌,
  Bool-cases, arith,
}
use accord_rfc.Client.Records.{frame, read_records}
use accord_rfc.Client.Framing.{frames, frames-append, Fits, read_records-frames}
use accord_rfc.Client.Sealing.{Cipher, App}
use accord_rfc.Client.History.{
  ArchivedMessage, Json, push_some, bytes_of, encode, load, load_bytes, append_file, mark_group,
  record_message,
}
use accord_rfc.Client.Restore.{restore_all}
use accord_rfc.Client.Disk.{Event, recorded, restored, set_encrypt_at_rest, run}
use accord_rfc.Client.Log.{
  message, logged, Honest, Ready, Loggable, message_of, messages_of, messages_of-append,
  decode_each-eq, Stands, encode-Stands,
}

module _ (cipher : Cipher) (json : Json) (key : Bytes) (user group : Text) where
  -- The archive of the group stands for these messages.
  record Archive (app : App) (msgs : List ArchivedMessage) : Type 0 where
    records : List (ℕ × Bytes)
    content : bytes_of (app.files user group) ≡ frames records
    fits : All Fits records
    means : messages_of cipher json key records ≡ msgs

  load_bytes-eq :
      (o : Option Bytes) (app : App)
      → app.dek ≡ some key
      → (load_bytes cipher json o app).0 ≡ messages_of cipher json key (read_records (bytes_of o))
  unfolding read_records messages_of accord_rfc.Client.History.decode_each
      accord_rfc.Client.Records.records_of
  load_bytes-eq none app h = refl
  load_bytes-eq (some bytes) app h = decode_each-eq cipher json key app (read_records bytes) h

  load-Archive :
      (app : App) (msgs : List ArchivedMessage)
      → Ready key app
      → Archive app msgs
      → (load cipher json user group app).0 ≡ msgs
  unfolding load read_records accord_rfc.Client.History.decode_each
  load-Archive app msgs ready a =
      load_bytes-eq (app.files user group) app ready.cached
      ∙ ap (λ b. messages_of cipher json key (read_records b))
          (a.content ∙ sym (append-nil (frames a.records)))
      ∙ ap (messages_of cipher json key) (read_records-frames a.records [] a.fits tt)
      ∙ a.means

  Archive-same :
      (app app' : App) (msgs : List ArchivedMessage)
      → app'.files user group ≡ app.files user group
      → Archive app msgs
      → Archive app' msgs
  Archive-same app app' msgs same a = record {
    records = a.records;
    content = ap bytes_of same ∙ a.content;
    fits = a.fits;
    means = a.means;
  }

  Archive-append :
      (app app' : App) (msgs : List ArchivedMessage) (msg : ArchivedMessage) (flag : ℕ)
      (payload : Bytes)
      → app'.files user group ≡ some (bytes_of (app.files user group) ++ frame flag payload)
      → length payload < 2 ^ 32
      → message_of cipher json key (flag, payload) ≡ some msg
      → Archive app msgs
      → Archive app' (msgs ++ msg ∷ [])
  unfolding messages_of
  Archive-append app app' msgs msg flag payload grown fit stands a = record {
    records = a.records ++ (flag, payload) ∷ [];
    content =
        ap bytes_of grown
        ∙ ap (λ b. b ++ frame flag payload) a.content
        ∙ ap (λ b. frames a.records ++ b) (sym (append-nil (frame flag payload)))
        ∙ sym (frames-append a.records ((flag, payload) ∷ []));
    fits = All-append Fits a.records _ a.fits (fit, tt);
    means =
        messages_of-append cipher json key a.records ((flag, payload) ∷ [])
        ∙ ap (λ ms. ms ++ push_some (message_of cipher json key (flag, payload)) []) a.means
        ∙ ap (λ o. msgs ++ push_some o []) stands;
  }

  -- One message that is recorded.
  module _ (u g sender content : Text) (timestamp_ms : ℕ) (app : App)
      (st : Stands cipher json key u (message g sender content timestamp_ms) app) where
    abbrev after_it : App
    after_it = record_message cipher json u g sender content timestamp_ms app

    files_after : after_it.files user group ≡ (
        if text_eq user u && text_eq group g
        then some (bytes_of (app.files u g) ++ frame st.flag st.payload)
        else app.files user group)
    unfolding record_message
    files_after =
        ap (λ o. (append_file u g o app').files user group) st.entry
        ∙ ap
            (λ (files : Text → Text → Option Bytes).
              if text_eq user u && text_eq group g
              then some (bytes_of (files u g) ++ frame st.flag st.payload)
              else files user group)
            st.same_files
      where
        app' : App
        app' = (encode cipher json u (message g sender content timestamp_ms) app).1

    record_message-Ready : Ready key after_it
    unfolding record_message
    record_message-Ready =
        written (encode cipher json u (message g sender content timestamp_ms) app).0
      where
        app' : App
        app' = (encode cipher json u (message g sender content timestamp_ms) app).1

        written : (o : Option Bytes) → Ready key (mark_group u g (append_file u g o app'))
        written none = record {
          cached = st.ready.cached;
          size = st.ready.size;
          fills = st.ready.fills;
        }
        written (some entry) = record {
          cached = st.ready.cached;
          size = st.ready.size;
          fills = st.ready.fills;
        }

    record_message-Archive :
        (msgs : List ArchivedMessage)
        → Archive app msgs
        → Archive after_it (
            if text_eq user u && text_eq group g
            then msgs ++ message g sender content timestamp_ms ∷ []
            else msgs)
    record_message-Archive msgs a = elim (Bool-cases (text_eq user u && text_eq group g)) [
      | inl e ↦
          let same_user : user ≡ u = (text_eq_iff user u).0 (ground arith) in
          let same_group : group ≡ g = (text_eq_iff group g).0 (ground arith) in
          rw e (
            Archive-append app after_it msgs _ st.flag st.payload
              (files_after
                ∙ ap
                    (λ b.
                      if b
                      then some (bytes_of (app.files u g) ++ frame st.flag st.payload)
                      else app.files user group)
                    e
                ∙ ap (λ i. some (bytes_of (app.files i g) ++ frame st.flag st.payload))
                    (sym same_user)
                ∙ ap (λ i. some (bytes_of (app.files user i) ++ frame st.flag st.payload))
                    (sym same_group))
              st.fits st.means a)
      | inr e ↦ rw e (
          Archive-same app after_it msgs
            (files_after
              ∙ ap
                  (λ b.
                    if b
                    then some (bytes_of (app.files u g) ++ frame st.flag st.payload)
                    else app.files user group)
                  e)
            a)
    ]

  load-run-from :
      (events : List Event) (app : App) (msgs : List ArchivedMessage)
      → Honest cipher
      → Ready key app
      → All (Loggable cipher json) events
      → Archive app msgs
      → (load cipher json user group (run cipher json events app)).0
        ≡ msgs ++ logged user group events
  unfolding run logged restore_all
  load-run-from [] app msgs honest ready l a = load-Archive app msgs ready a ∙ sym (append-nil msgs)
  load-run-from (recorded u g sender content timestamp_ms ∷ events) app msgs honest ready (w, l) a =
      let st =
        encode-Stands cipher json key u (message g sender content timestamp_ms) app honest ready
          w in
      load-run-from events (after_it u g sender content timestamp_ms app st) _ honest
        (record_message-Ready u g sender content timestamp_ms app st) l
        (record_message-Archive u g sender content timestamp_ms app st msgs a)
      ∙ moved (text_eq user u && text_eq group g) (message g sender content timestamp_ms)
          (logged user group events)
    where
      moved :
          (b : Bool) (m : ArchivedMessage) (rest : List ArchivedMessage)
          → (if b then msgs ++ m ∷ [] else msgs) ++ rest ≡ msgs ++ (if b then m ∷ rest else rest)
      moved true m rest = append_assoc msgs (m ∷ []) rest
      moved false m rest = refl
  load-run-from (restored u names get_sealed ∷ events) app msgs honest ready (never, l) a =
      absurd never
  load-run-from (set_encrypt_at_rest enabled ∷ events) app msgs honest ready (w, l) a =
      load-run-from events (record app { encrypt_at_rest = enabled }) msgs honest
        (record { cached = ready.cached; size = ready.size; fills = ready.fills }) l
        (Archive-same app _ msgs refl a)

  -- After any messages that are recorded by any accounts for any groups, with the setting for
  -- encryption at rest changed in between, what is loaded of the archive of a group of an account
  -- is the log of the messages that were recorded for it, in order, if there was no archive of
  -- it, the key is at hand and has 32 bytes, the generator gives nonces of 24 bytes, the cipher
  -- decrypts what it encrypts and adds 16 bytes, and JSON reads back what it writes of each
  -- message, in less than 2^32 - 40 bytes.
  pub load-run :
      (events : List Event) (app : App)
      → Honest cipher
      → Ready key app
      → app.files user group ≡ none
      → All (Loggable cipher json) events
      → (load cipher json user group (run cipher json events app)).0 ≡ logged user group events
  unfolding messages_of
  load-run events app honest ready fresh l =
      load-run-from events app [] honest ready l
        (record { records = []; content = ap bytes_of fresh; fits = tt; means = refl })
