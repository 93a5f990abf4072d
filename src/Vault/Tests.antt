-- ===== src/Vault/Tests.antt =====
-- An instance of the theorem on the vault: a blob is put, read, dropped and asked for again.
use accord_rfc.Base.{◌+◌, ◌≡◌, false, List, [], ◌∷◌, some}
use accord_rfc.Store.Examples.{tavern}
use accord_rfc.Hub.{empty_hub}
use accord_rfc.Guardrails.{new_guardrails}
use accord_rfc.Api.Server.{Server}
use accord_rfc.Api.Examples.{tally}
use accord_rfc.Vault.History.{Call, put, fetch, drop, view, answers, expected, answers-eq-expected}

abbrev server : Server
server = record {
  db = tavern;
  hub = empty_hub;
  guardrails = new_guardrails false;
  registrations = λ ip. [];
  ids = λ n. 100 + n;
  instants = λ n. n;
  times = λ n. n;
  ticks = 0;
}

abbrev calls : List Call
calls =
    put (some "ii") "history" (1 ∷ 2 ∷ [])
    ∷ fetch (some "ii") "history"
    ∷ fetch (some "iii") "history"
    ∷ drop (some "ii") "history"
    ∷ fetch (some "ii") "history"
    ∷ []

answers-eq-expected_example : answers tally calls server ≡ expected tally calls (view server.db)
answers-eq-expected_example = answers-eq-expected tally calls server
