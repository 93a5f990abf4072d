-- ===== src/Friends/Parked.antt =====
-- crates/accord-server/src/friends/service.rs: the requests that wait, and how many.
use accord_rfc.Base.{
  suc, ◌≤◌, ◌<◌, ◌≡◌, ◌≢◌, ◌⊎◌, inl, inr, refl, subst, ap, sym, Bool, true, ◌&&◌, List, [], ◌∷◌,
  ◌++◌, Option, none, some, Text, text_eq, text_eq_refl, Uuid, Bytes, bytes_eq_refl, any, any-last,
  filter, filter-append, filter-append_other, update, length, length-append, ◌==◌, Bool-cases,
  arith,
}
use accord_rfc.Store.{User, FriendRequest, Db}
use accord_rfc.Store.Blobs.{is_request, is_to, upsert_friend_request, count_friend_requests}
use accord_rfc.Links.{Codec}
use accord_rfc.Links.Contact.{ContactCode, decode_contact}
use accord_rfc.Api.Error.{Result, ok, err, Status, Result-cases, bad_argument, ok_or}
use accord_rfc.Api.Request.{Env, caller}
use accord_rfc.Api.Server.{Server}
use accord_rfc.Api.Action.{after}
use accord_rfc.Friends.{
  check_kind, check_size, check_identity, check_room, read_code, parsed_id, park,
  send_friend_request,
}

-- No account has more than fifty requests waiting.
abbrev pub IsBounded : Db → Type 0
IsBounded db = (u : Uuid) → count_friend_requests db u ≤ 50

-- A request with this code waits.
abbrev pub is_parked : Uuid → Bytes → Text → Text → FriendRequest → Bool
is_parked recipient identity kind code r =
    is_request recipient identity kind r && text_eq r.contact_code code

-- What sending has done.
pub record Parked (to : Uuid) (identity : Bytes) (kind code : Text) (db db' : Db) : Type 0 where
  pub room : count_friend_requests db to < 50
  pub waiting : any (is_parked to identity kind code) db'.friend_requests ≡ true
  pub grown : (u : Uuid) → count_friend_requests db' u ≤ suc (count_friend_requests db u)
  pub others : (u : Uuid) → u ≢ to → count_friend_requests db' u ≡ count_friend_requests db u

pub record ParkOutcome (s : Server) (p : Result (Unit {0}) × Server) (kind code : Text)
    : Type 0 where
  pub parked :
      p.0 ≡ ok tt
      → (to : Uuid) × (identity : Bytes) × (length identity ≡ 32)
        × Parked to identity kind code s.db p.1.db
  pub refused : (e : Status) → p.0 ≡ err e → p.1.db ≡ s.db

update-waiting :
    (to : Uuid) (identity : Bytes) (kind code : Text) (rows : List FriendRequest)
    → any (is_request to identity kind) rows ≡ true
    → any (is_parked to identity kind code) (
        update
          (is_request to identity kind)
          (λ (r : FriendRequest). record r { contact_code = code })
          rows)
      ≡ true
update-waiting to identity kind code [] h = cc
update-waiting to identity kind code (r ∷ rows) h =
    elim (Bool-cases (is_request to identity kind r)) [
      | inl e ↦ rw e (ground (arith, e, text_eq_refl code))
      | inr e ↦ rw e (ground (arith, e, update-waiting to identity kind code rows))
    ]

update-count :
    (q : FriendRequest → Bool) (code : Text) (u : Uuid) (rows : List FriendRequest)
    → length
        (filter (is_to u) (update q (λ (r : FriendRequest). record r { contact_code = code }) rows))
      ≡ length (filter (is_to u) rows)
update-count q code u [] = refl
update-count q code u (r ∷ rows) = ground (arith, update-count q code u rows)

-- A request that is there already, and a new one.
module _ (new : FriendRequest) (db : Db) (room : count_friend_requests db new.recipient < 50) where
  same : FriendRequest → Bool
  same = is_request new.recipient new.sender_identity new.kind

  updated : Db
  updated = record db {
    friend_requests =
        update same (λ (r : FriendRequest). record r { contact_code = new.contact_code })
          db.friend_requests;
  }

  appended : Db
  appended = record db { friend_requests = db.friend_requests ++ new ∷ [] }

  abbrev AfterUpsert : Db → Type 0
  AfterUpsert db' = Parked new.recipient new.sender_identity new.kind new.contact_code db db'

  updated-Parked : any same db.friend_requests ≡ true → AfterUpsert updated
  unfolding count_friend_requests same updated
  updated-Parked e = record {
    room = room;
    waiting =
        update-waiting new.recipient new.sender_identity new.kind new.contact_code
          db.friend_requests e;
    grown = λ u. omega (arith, update-count same new.contact_code u db.friend_requests);
    others = λ u n. update-count same new.contact_code u db.friend_requests;
  }

  appended-Parked : AfterUpsert appended
  unfolding count_friend_requests same appended
  appended-Parked = record {
    room = room;
    waiting =
        any-last (is_parked new.recipient new.sender_identity new.kind new.contact_code)
          db.friend_requests new
          (ground (
            arith,
            text_eq_refl new.contact_code,
            text_eq_refl new.kind,
            bytes_eq_refl new.sender_identity,
          ));
    grown = λ u. elim (Bool-cases (is_to u new)) [
      | inl e ↦
          rw (filter-append (is_to u) db.friend_requests (new ∷ []), length-append)
            (rw e (omega arith))
      | inr e ↦ rw (filter-append_other (is_to u) db.friend_requests new e) (omega arith)
    ];
    others =
        λ u n. ap length (filter-append_other (is_to u) db.friend_requests new (ground (arith, n)));
  }

  -- What `upsert_friend_request` gives.
  upsert-cases :
      (upsert_friend_request new db ≡ none)
      ⊎ ((db' : Db) × (upsert_friend_request new db ≡ some db') × AfterUpsert db')
  unfolding upsert_friend_request updated appended same
  upsert-cases = elim (Bool-cases (any (λ (u : User). u.id == new.recipient) db.users)) [
    | inr e ↦ inl (rw e refl)
    | inl e ↦ elim (Bool-cases (any same db.friend_requests)) [
      | inl f ↦ inr (updated, rw (e, f) refl, updated-Parked f)
      | inr f ↦ inr (appended, rw (e, f) refl, appended-Parked)
    ]
  ]

refused_at :
    (s s' : Server) (kind code : Text) (e : Status)
    → s'.db ≡ s.db
    → ParkOutcome s (err e, s') kind code
refused_at s s' kind code e h = record { parked = λ k. ground arith; refused = λ e' k. h }

-- `park`, where there is room.
park-ParkOutcome :
    (to : Uuid) (identity : Bytes) (kind code : Text) (s : Server)
    → length identity ≡ 32
    → count_friend_requests s.db to < 50
    → ParkOutcome s (park to identity kind code s) kind code
park-ParkOutcome to identity kind code s size room = elim (upsert-cases new s.db room) [
  | inl e ↦ rw (park, e) (refused_at s _ kind code _ refl)
  | inr (db', e, p) ↦
      rw (park, e)
        (record { parked = λ k. (to, identity, size, p); refused = λ e' k. ground arith })
]
  where
    new : FriendRequest
    new = record {
      id = s.ids s.ticks;
      recipient = to;
      sender_identity = identity;
      kind = kind;
      contact_code = code;
      created_at_ms = s.times s.ticks;
    }

-- A request to be friends is refused, or waits, for an account with room for it.
pub send_friend_request-ParkOutcome :
    (env : Env) (codec : Codec ContactCode) (header recipient : Option Text) (kind code : Text)
    (s : Server)
    → ParkOutcome s (send_friend_request env codec header recipient kind code s) kind code
unfolding send_friend_request
send_friend_request-ParkOutcome env codec header recipient kind code s =
    after P (caller env header "invalid user id in token") _ s (λ e h. no_park e)
      λ _ known.
        after P (ok_or (parsed_id env recipient) (bad_argument "recipient id required")) _ s
          (λ e h. no_park e)
          λ to named.
            after P (check_kind kind) _ s (λ e h. no_park e)
              λ _ k.
                after P (check_size code) _ s (λ e h. no_park e)
                  λ _ z.
                    after P (read_code (decode_contact codec code)) _ s (λ e h. no_park e)
                      λ c read.
                        after P (check_identity c) _ s (λ e h. no_park e)
                          λ _ sane.
                            after P (check_room s.db to) _ s (λ e h. no_park e)
                              λ _ room.
                                park-ParkOutcome to c.identity_pubkey kind code s (ground arith)
                                  (ground arith)
  where
    P : Result (Unit {0}) × Server → Type 0
    P p = ParkOutcome s p kind code

    no_park : (e : Status) → ParkOutcome s (err e, s) kind code
    no_park e = refused_at s s kind code e refl

-- If no account has more than 50 friend requests waiting, none has after another request to send
-- one.
pub send_friend_request-IsBounded :
    (env : Env) (codec : Codec ContactCode) (header recipient : Option Text) (kind code : Text)
    (s : Server)
    → IsBounded s.db
    → IsBounded (send_friend_request env codec header recipient kind code s).1.db
send_friend_request-IsBounded env codec header recipient kind code s h u =
    let out = send_friend_request-ParkOutcome env codec header recipient kind code s in
    elim (Result-cases (send_friend_request env codec header recipient kind code s).0) [
      | inl (_, e) ↦ bounded (out.parked e)
      | inr (e, f) ↦
          subst (λ (d : Db). count_friend_requests d u ≤ 50) (sym (out.refused e f)) (h u)
    ]
  where
    db' : Db
    db' = (send_friend_request env codec header recipient kind code s).1.db

    bounded :
        (to : Uuid) × (identity : Bytes) × (length identity ≡ 32)
          × Parked to identity kind code s.db db'
        → count_friend_requests db' u ≤ 50
    bounded (to, identity, size, p) = elim (Bool-cases (u == to)) [
      | inl e ↦
          let same : to ≡ u = ground arith in
          omega (arith, p.grown u, subst (λ i. count_friend_requests s.db i < 50) same p.room)
      | inr e ↦ omega (arith, p.others u (λ f. ground (arith, e, f)), h u)
    ]
