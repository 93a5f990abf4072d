-- ===== src/Client/Hosting.antt =====
-- crates/accord-client/src-tauri/src/taverns.rs: sequences of calls on the hosted taverns.
use accord_rfc.Base.{
  ℕ, ◌≡◌, refl, sym, ◌∙◌, inl, inr, true, not, ◌&&◌, List, [], ◌∷◌, any, any-filter, any_mono,
  filter, Option, none, some, Text, text_eq, is_empty, trim, length, leb, Bool-cases, arith,
}
use accord_rfc.Client.Taverns.{
  TavernMeta, Hosting, System, first_free_port, is_running, without, started, save_meta, spawns,
  create_on, known_ids, known_ports, create_tavern, resume_each, resume_hosted_taverns,
  delete_tavern, stop_all, set_max_hosted_taverns,
}
use accord_rfc.Client.Ports.{
  is_meta, is_known, Sound, Sound-mono, Free, find_port-Free, without-le, started-known, meta,
  known_saved, Sound-new,
}

create_tavern-Sound :
    (system : System) (id name : Text) (h : Hosting)
    → Sound h
    → Sound (create_tavern system id name h).1
unfolding create_tavern
create_tavern-Sound system id name h s = elim (Bool-cases (is_empty (trim name))) [
  | inl e ↦ rw e s
  | inr e ↦ rw e (elim (Bool-cases (leb h.max_hosted_taverns (length (known_ids h)))) [
    | inl f ↦ rw f s
    | inr f ↦ rw f (
        on (first_free_port (known_ports h) system.port_is_free)
          λ port found. find_port-Free 50052 256 (known_ports h) system.port_is_free port found)
  ])
]
  where
    on :
        (o : Option ℕ)
        → ((port : ℕ) → o ≡ some port → Free 50052 256 (known_ports h) port)
        → Sound (create_on system id (trim name) o h).1
    on none free = s
    on (some port) free =
        elim (Bool-cases (spawns system (meta system id (trim name) port h (free port refl) s))) [
          | inl e ↦ rw e (
              Sound-new system id (trim name) port h (free port refl) s _
                (known_saved system id (trim name) port h (free port refl) s))
          | inr e ↦ rw e s
        ]

-- A server of the list that comes up.
resume_each-Sound :
    (system : System) (metas : List TavernMeta) (h : Hosting)
    → ((i : Text) (port : ℕ)
        → any (is_meta i port) metas ≡ true
        → any (is_meta i port) h.metas ≡ true)
    → Sound h
    → Sound (resume_each system metas h).1
unfolding resume_each
resume_each-Sound system [] h listed s = s
resume_each-Sound system (m ∷ metas) h listed s = elim (Bool-cases (is_running m.id h)) [
  | inl e ↦ rw e (resume_each-Sound system metas h (λ i p k. listed i p (ground arith)) s)
  | inr e ↦ rw e (elim (Bool-cases (spawns system m)) [
    | inr f ↦ rw f (resume_each-Sound system metas h (λ i p k. listed i p (ground arith)) s)
    | inl f ↦ rw f (
        resume_each-Sound system metas (started m h) (λ i p k. listed i p (ground arith))
          (Sound-mono h (started m h) fewer s))
  ])
]
  where
    fewer : (i : Text) (p : ℕ) → is_known i p (started m h) ≡ true → is_known i p h ≡ true
    fewer i p k = elim (started-known m h i p k) [
      | inl new ↦ ground (arith, listed i p (ground (arith, new)))
      | inr old ↦ old
    ]

without-metas :
    (id i : Text) (port : ℕ) (metas : List TavernMeta)
    → any (is_meta i port) (filter (λ (m : TavernMeta). not (text_eq m.id id)) metas) ≡ true
    → any (is_meta i port) metas ≡ true
without-metas id i port metas h =
    any_mono (λ (m : TavernMeta). not (text_eq m.id id) && is_meta i port m) (is_meta i port) metas
      (λ m e. ground arith)
      (sym (any-filter (is_meta i port) (λ (m : TavernMeta). not (text_eq m.id id)) metas) ∙ h)

delete_tavern-Sound :
    (system : System) (id : Text) (h : Hosting) → Sound h → Sound (delete_tavern system id h).1
unfolding delete_tavern
delete_tavern-Sound system id h s = elim (Bool-cases (is_running id h)) [
  | inr e ↦ rw e s
  | inl e ↦ rw e (Sound-mono h _ fewer s)
]
  where
    fewer :
        (i : Text) (p : ℕ)
        → is_known i p (
            save_meta system
              (filter (λ (m : TavernMeta). not (text_eq m.id id)) h.metas)
              (record h { running = without id h.running }))
          ≡ true
        → is_known i p h ≡ true
    fewer i p k = elim (Bool-cases system.saves) [
      | inl f ↦ ground (arith, rw f at k, without-metas id i p h.metas, without-le id i p h.running)
      | inr f ↦ ground (arith, rw f at k, without-le id i p h.running)
    ]

-- A call of the client, with what the system answers meanwhile, or its end.
pub data Call : Type 0 where
  create : (system : System) (id name : Text) → Call
  resume : (system : System) → Call
  delete : (system : System) (id : Text) → Call
  stop : Call
  set_max : (max : ℕ) → Call

abbrev pub answer : Call → Hosting → Hosting
unfolding create_tavern resume_hosted_taverns delete_tavern stop_all set_max_hosted_taverns
answer (create system id name) h = (create_tavern system id name h).1
answer (resume system) h = (resume_hosted_taverns system h).1
answer (delete system id) h = (delete_tavern system id h).1
answer stop h = stop_all h
answer (set_max max) h = set_max_hosted_taverns max h

unfoldable pub serve : List Call → Hosting → Hosting
serve [] h = h
serve (c ∷ calls) h = serve calls (answer c h)

answer-Sound : (c : Call) (h : Hosting) → Sound h → Sound (answer c h)
unfolding create_tavern resume_hosted_taverns delete_tavern stop_all set_max_hosted_taverns
answer-Sound (create system id name) h s = create_tavern-Sound system id name h s
answer-Sound (resume system) h s = resume_each-Sound system h.metas h (λ i p k. k) s
answer-Sound (delete system id) h s = delete_tavern-Sound system id h s
answer-Sound stop h s = Sound-mono h (stop_all h) (λ i p k. ground arith) s
answer-Sound (set_max max) h s = Sound-mono h (set_max_hosted_taverns max h) (λ i p k. k) s

-- After any calls to create, resume, delete and stop hosted taverns and to set their number,
-- whatever the system answers, no two taverns that are persisted or run share a port, and each
-- port is from 50052 to 50307, if that was so before.
pub serve-Sound : (calls : List Call) (h : Hosting) → Sound h → Sound (serve calls h)
unfolding serve
serve-Sound [] h s = s
serve-Sound (c ∷ calls) h s = serve-Sound calls (answer c h) (answer-Sound c h s)
