-- ===== src/Client/Restore.antt =====
-- crates/accord-client/src-tauri/src/history.rs: archives that come back from the vault of the
-- server.
use accord_rfc.Base.{
  Bool, true, false, List, [], ◌∷◌, ◌++◌, Option, none, some, Text, Bytes, is_some, if◌then◌else◌,
}
use accord_rfc.Api.Request.{strip_prefix}
use accord_rfc.Client.Sealing.{Cipher, App}
use accord_rfc.Client.History.{ArchivedMessage, Json, write_file, split_lines, encode}

abbrev pub no_bytes : Bytes → Bool
no_bytes [] = true
no_bytes (b ∷ bytes) = false

module _ (cipher : Cipher) (json : Json) (user : Text) where
  -- A record that is put to the buffer before the rest of the loop, or the return at an error.
  abbrev pub or_return :
      (Bytes → App → Option Bytes × App) → Bytes → Option Bytes × App → Option Bytes × App
  or_return more buf (none, app) = (none, app)
  or_return more buf (some entry, app) = more (buf ++ entry) app

  abbrev pub encode_line :
      (Bytes → App → Option Bytes × App) → Option ArchivedMessage → Bytes → App → Option Bytes × App
  encode_line more none buf app = more buf app
  encode_line more (some msg) buf app = or_return more buf (encode cipher json user msg app)

  -- The loop of `write_from_jsonl`: what is in the buffer at its end.
  unfoldable pub encode_lines : List Bytes → Bytes → App → Option Bytes × App
  encode_lines [] buf app = (some buf, app)
  encode_lines (line ∷ lines) buf app =
      let skipped = encode_lines lines buf app in
      let encoded = encode_line (encode_lines lines) (json.from_slice line) buf app in
      if no_bytes line then skipped else encoded

  abbrev pub write_buffer : Text → Option Bytes × App → App
  write_buffer group (none, app) = app
  write_buffer group (some buf, app) = write_file user group buf app

  -- `write_from_jsonl`
  unfoldable pub write_from_jsonl : Text → Bytes → App → App
  unfolding encode_lines split_lines
  write_from_jsonl group jsonl app = write_buffer group (encode_lines (split_lines jsonl) [] app)

  abbrev pub write_fetched : Text → Option Bytes → App → App
  unfolding write_from_jsonl
  write_fetched group none app = app
  write_fetched group (some jsonl) app = write_from_jsonl group jsonl app

  -- `HISTORY_PREFIX`
  abbrev pub restore_group : Option Text → Option Bytes → App → App
  unfolding write_from_jsonl
  restore_group none fetched app = app
  restore_group (some group) fetched app =
      if is_some (app.files user group) then app else write_fetched group fetched app

  -- `restore_all`, given the names in the vault and what `get_sealed` answers for each.
  unfoldable pub restore_all : List Text → (Text → Option Bytes) → App → App
  unfolding strip_prefix write_from_jsonl
  restore_all [] get_sealed app = app
  restore_all (name ∷ names) get_sealed app =
      restore_all names get_sealed (restore_group (strip_prefix "hist/" name) (get_sealed name) app)
