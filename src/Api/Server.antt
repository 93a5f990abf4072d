-- ===== src/Api/Server.antt =====
-- The state of the services over the database, the hub and the guardrails.
use accord_rfc.Base.{ℕ, suc, List, Uuid}
use accord_rfc.Store.{Db}
use accord_rfc.Hub.{Hub}
use accord_rfc.Guardrails.{Guardrails}
use accord_rfc.Api.Error.{Result, ok}
use accord_rfc.Api.Action.{Action}

-- `std::net::IpAddr`: an address of 32 bits, or of 128.
pub data Address : Type 0 where
  v4 v6 : ℕ → Address

-- What the services hold (`registrations` is the `reg_log` of `AuthSvc`), and the world: the uuids that will be drawn, what the monotonic clock and
-- the wall clock will show, and how often they were asked.
pub record Server : Type 0 where
  pub db : Db
  pub hub : Hub
  pub guardrails : Guardrails
  pub registrations : Address → List ℕ
  pub ids : ℕ → Uuid
  pub instants : ℕ → ℕ
  pub times : ℕ → ℕ
  pub ticks : ℕ

-- A read of the database that can fail, or not, and a write to it.
abbrev pub reads_db : {A : Type 0} → (Db → Result A) → Action Server A
reads_db f s = (f s.db, s)

abbrev pub modify_db : (Db → Db) → Action Server Unit
modify_db f s = (ok tt, record s { db = f s.db })

-- A uuid and the time of the wall clock.
abbrev pub draw : Action Server (Uuid × ℕ)
draw s = (ok (s.ids s.ticks, s.times s.ticks), record s { ticks = suc s.ticks })
