-- ===== src/Client/Taverns.antt =====
-- crates/accord-client/src-tauri/src/taverns.rs: the taverns that a client hosts. A server that runs
-- is its id and its port; what is in hosted-taverns.json is a list.
use accord_rfc.Base.{
  ℕ, zero, suc, Bool, not, ◌&&◌, List, [], ◌∷◌, ◌++◌, length, any, filter, map, Option, none, some,
  Text, text_eq, trim, is_empty, format, leb, ltb, ◌==◌, if◌then◌else◌,
}
use accord_rfc.Perms.Decimal.{display}

-- `TavernMeta`
pub record TavernMeta : Type 0 where
  pub id : Text
  pub name : Text
  pub port : ℕ

-- `TavernConnect`, without the certificate.
pub record TavernConnect : Type 0 where
  pub id : Text
  pub name : Text
  pub endpoint : Text

-- `HostedTaverns`, with the persisted list and the setting for the cap.
pub record Hosting : Type 0 where
  pub running : List (Text × ℕ)
  pub metas : List TavernMeta
  pub max_hosted_taverns : ℕ

-- What the system answers during a call: which ports can be bound, whether a server with its
-- database and certificate comes up, and whether the list can be written.
pub record System : Type 0 where
  pub port_is_free : ℕ → Bool
  pub starts : TavernMeta → Bool
  pub saves : Bool

-- The errors, whose texts are for the user.
pub data TavernError : Type 0 where
  name_required limit_reached no_free_port not_started not_hosted : TavernError

pub data Hosted {ℓ} (A : Type ℓ) : Type ℓ where
  ok : A → Hosted A
  err : TavernError → Hosted A

-- `FIRST_TAVERN_PORT`, and the number of ports up to `LAST_TAVERN_PORT`.
abbrev pub first_tavern_port : ℕ
first_tavern_port = 50052

abbrev pub tavern_ports : ℕ
tavern_ports = 256

abbrev pub is_taken : List ℕ → ℕ → Bool
is_taken taken port = any (λ p. p == port) taken

-- The search in a range of ports, given its first and how many they are.
unfoldable pub find_port : ℕ → ℕ → List ℕ → (ℕ → Bool) → Option ℕ
find_port port zero taken is_free = none
find_port port (suc n) taken is_free =
    let rest = find_port (suc port) n taken is_free in
    if not (is_taken taken port) && is_free port then some port else rest

-- `first_free_port`
abbrev pub first_free_port : List ℕ → (ℕ → Bool) → Option ℕ
unfolding find_port
first_free_port = find_port first_tavern_port tavern_ports

abbrev pub ids_of : List TavernMeta → List Text
ids_of = map λ (m : TavernMeta). m.id

abbrev pub ports_of : List TavernMeta → List ℕ
ports_of = map λ (m : TavernMeta). m.port

abbrev pub has_id : Text → List Text → Bool
has_id id = any λ i. text_eq i id

-- A `HashSet` of ids, in some order.
unfoldable pub distinct_ids : List Text → List Text
distinct_ids [] = []
distinct_ids (id ∷ ids) = let rest = distinct_ids ids in if has_id id rest then rest else id ∷ rest

abbrev pub is_running : Text → Hosting → Bool
is_running id h = any (λ (r : Text × ℕ). text_eq r.0 id) h.running

abbrev pub without : Text → List (Text × ℕ) → List (Text × ℕ)
without id = filter λ (r : Text × ℕ). not (text_eq r.0 id)

-- `running.insert`
abbrev pub started : TavernMeta → Hosting → Hosting
started meta h = record h { running = (meta.id, meta.port) ∷ without meta.id h.running }

-- `save_meta`, whose failure is only logged.
abbrev pub save_meta : System → List TavernMeta → Hosting → Hosting
save_meta system metas h = if system.saves then record h { metas = metas } else h

abbrev pub connect_of : TavernMeta → TavernConnect
connect_of meta = record {
  id = meta.id;
  name = meta.name;
  endpoint = format ("https://127.0.0.1:" ∷ display meta.port ∷ []);
}

-- `spawn_tavern`: whether the server is up.
abbrev pub spawns : System → TavernMeta → Bool
spawns system meta = system.port_is_free meta.port && system.starts meta

abbrev pub create_on : System → Text → Text → Option ℕ → Hosting → Hosted TavernConnect × Hosting
create_on system id name none h = (err no_free_port, h)
create_on system id name (some port) h =
    let meta : TavernMeta = record { id = id; name = name; port = port } in
    if spawns system meta
    then (ok (connect_of meta), save_meta system (h.metas ++ meta ∷ []) (started meta h))
    else (err not_started, h)

-- The ids and the ports that are known.
abbrev pub known_ids : Hosting → List Text
unfolding distinct_ids
known_ids h = distinct_ids (ids_of h.metas ++ map (λ (r : Text × ℕ). r.0) h.running)

abbrev pub known_ports : Hosting → List ℕ
known_ports h = map (λ (r : Text × ℕ). r.1) h.running ++ ports_of h.metas

-- `create_tavern`, given the id that is drawn.
unfoldable pub create_tavern : System → Text → Text → Hosting → Hosted TavernConnect × Hosting
unfolding distinct_ids find_port
create_tavern system id name h =
    if is_empty (trim name)
    then (err name_required, h)
    else if leb h.max_hosted_taverns (length (known_ids h))
    then (err limit_reached, h)
    else create_on system id (trim name) (first_free_port (known_ports h) system.port_is_free) h

-- One turn of the loop of `resume_hosted_taverns`, and what it adds to the list for the user.
abbrev pub resume_one : System → TavernMeta → Hosting → Hosting
resume_one system meta h =
    if is_running meta.id h then h else if spawns system meta then started meta h else h

abbrev pub resumed : System → TavernMeta → Hosting → List TavernConnect
resumed system meta h =
    if not (is_running meta.id h) && spawns system meta then connect_of meta ∷ [] else []

unfoldable pub resume_each : System → List TavernMeta → Hosting → List TavernConnect × Hosting
resume_each system [] h = ([], h)
resume_each system (meta ∷ metas) h =
    let (out, h') = resume_each system metas (resume_one system meta h) in
    (resumed system meta h ++ out, h')

-- `resume_hosted_taverns`
unfoldable pub resume_hosted_taverns : System → Hosting → List TavernConnect × Hosting
unfolding resume_each
resume_hosted_taverns system h = resume_each system h.metas h

-- `delete_tavern`
unfoldable pub delete_tavern : System → Text → Hosting → Hosted (Unit {0}) × Hosting
delete_tavern system id h =
    if is_running id h
    then (
      ok tt,
      save_meta system (filter (λ (m : TavernMeta). not (text_eq m.id id)) h.metas)
          (record h { running = without id h.running }),
    )
    else (err not_hosted, h)

-- `stop_all`
unfoldable pub stop_all : Hosting → Hosting
stop_all h = record h { running = [] }

-- `set_max_hosted_taverns` of settings.rs.
unfoldable pub set_max_hosted_taverns : ℕ → Hosting → Hosting
set_max_hosted_taverns max h = record h {
  max_hosted_taverns = if ltb max 1 then 1 else if ltb 200 max then 200 else max;
}
