-- ===== src/Client/History.antt =====
-- crates/accord-client/src-tauri/src/history.rs: the archive of the private messages of a group. An
-- error is a text that is only logged: none.
use accord_rfc.Base.{
  ℕ, suc, ◌-◌, Bool, not, ◌&&◌, ◌||◌, List, [], ◌∷◌, ◌++◌, length, drop, Option, none, some, Text,
  text_eq, Bytes, format, ◌==◌, if◌then◌else◌,
}
use accord_rfc.Perms.Decimal.{display}
use accord_rfc.Client.Records.{frame, read_records}
use accord_rfc.Client.Sealing.{Cipher, App, seal_bytes, open_bytes}

-- `ArchivedMessage`
pub record ArchivedMessage : Type 0 where
  pub group_id : Text
  pub sender_id : Text
  pub content : Text
  pub timestamp_ms : ℕ

-- `serde_json` on a message.
pub record Json : Type 0 where
  pub to_vec : ArchivedMessage → Option Bytes
  pub from_slice : Bytes → Option ArchivedMessage

-- `RawEntry`
pub record RawEntry : Type 0 where
  pub id : Text
  pub flag : ℕ
  pub payload : Bytes

abbrev pub push_some {ℓ} : {A : Type ℓ} → Option A → List A → List A
push_some none xs = xs
push_some (some x) xs = x ∷ xs

abbrev pub framed : ℕ → Option Bytes → Option Bytes
framed flag none = none
framed flag (some payload) = some (frame flag payload)

-- `std::fs::write`
abbrev pub write_file : Text → Text → Bytes → App → App
write_file user group bytes app = record app {
  files = λ u g. if text_eq u user && text_eq g group then some bytes else app.files u g;
}

-- The bytes of a file, none of which is an empty one, where it is to be appended to.
abbrev pub bytes_of : Option Bytes → Bytes
bytes_of none = []
bytes_of (some bytes) = bytes

abbrev pub append_file : Text → Text → Option Bytes → App → App
append_file user group none app = app
append_file user group (some entry) app =
    write_file user group (bytes_of (app.files user group) ++ entry) app

-- `sync::mark_group`
abbrev pub mark_group : Text → Text → App → App
mark_group user group app = record app { dirty = (user, group) ∷ app.dirty }

-- `split(|b| *b == b'\n')`
abbrev pub cut_line : ℕ → List Bytes → List Bytes
cut_line b [] = (b ∷ []) ∷ []
cut_line b (line ∷ lines) = if b == 10 then [] ∷ line ∷ lines else (b ∷ line) ∷ lines

unfoldable pub split_lines : Bytes → List Bytes
split_lines [] = [] ∷ []
split_lines (b ∷ bytes) = cut_line b (split_lines bytes)

module _ (cipher : Cipher) (json : Json) where
  abbrev pub parsed : Option Bytes → Option ArchivedMessage
  parsed none = none
  parsed (some bytes) = json.from_slice bytes

  -- `decode`
  abbrev pub decode : ℕ → Bytes → App → Option ArchivedMessage × App
  decode flag payload app =
      let (plain, app') = open_bytes cipher payload app in
      if flag == 1 then (parsed plain, app') else (json.from_slice payload, app)

  -- The rest of `encode`, given the JSON of a message.
  abbrev pub encode_json : Bool → Option Bytes → App → Option Bytes × App
  encode_json encrypt none app = (none, app)
  encode_json encrypt (some bytes) app =
      let (sealed, app') = seal_bytes cipher bytes app in
      if encrypt then (framed 1 sealed, app') else (some (frame 0 bytes), app)

  -- `encode`
  abbrev pub encode : Text → ArchivedMessage → App → Option Bytes × App
  encode user msg app =
      encode_json (not (text_eq msg.sender_id user) || app.encrypt_at_rest) (json.to_vec msg) app

  -- `filter_map` with `decode`.
  unfoldable pub decode_each : List (ℕ × Bytes) → App → List ArchivedMessage × App
  decode_each [] app = ([], app)
  decode_each ((flag, payload) ∷ records) app =
      let (message, app') = decode flag payload app in
      let (messages, app'') = decode_each records app' in (push_some message messages, app'')

  abbrev pub load_bytes : Option Bytes → App → List ArchivedMessage × App
  unfolding read_records decode_each
  load_bytes none app = ([], app)
  load_bytes (some bytes) app = decode_each (read_records bytes) app

  -- `load`
  unfoldable pub load : Text → Text → App → List ArchivedMessage × App
  unfolding read_records decode_each
  load user group app = load_bytes (app.files user group) app

  -- `record`
  unfoldable pub record_message : Text → Text → Text → Text → ℕ → App → App
  record_message user group sender content timestamp_ms app =
      let msg : ArchivedMessage = record {
        group_id = group;
        sender_id = sender;
        content = content;
        timestamp_ms = timestamp_ms;
      } in
      let (entry, app') = encode user msg app in
      mark_group user group (append_file user group entry app')

  abbrev pub lines_of : List ArchivedMessage → Bytes
  lines_of [] = []
  lines_of (m ∷ messages) = elim (json.to_vec m) [
    | none ↦ lines_of messages
    | some line ↦ line ++ 10 ∷ lines_of messages
  ]

  -- `plaintext_jsonl`
  unfoldable pub plaintext_jsonl : Text → Text → App → Option Bytes × App
  unfolding load
  plaintext_jsonl user group app =
      let (messages, app') = load user group app in
      (elim messages [ [] ↦ none | m ∷ ms ↦ some (lines_of (m ∷ ms)) ], app')

-- The records with their places, from one on.
abbrev pub numbered : Text → ℕ → List (ℕ × Bytes) → List RawEntry
numbered group index [] = []
numbered group index ((flag, payload) ∷ records) =
    record { id = format (group ∷ "#" ∷ display index ∷ []); flag = flag; payload = payload }
    ∷ numbered group (suc index) records

-- `tail_raw`: the last records, as they stand.
unfoldable pub tail_raw : Text → Text → ℕ → App → List RawEntry
unfolding read_records display
tail_raw user group limit app =
    let records = read_records (bytes_of (app.files user group)) in
    drop (length records - limit) (numbered group 0 records)
