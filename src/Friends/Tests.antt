-- ===== src/Friends/Tests.antt =====
-- An instance of the bound on friend requests: one waits, and one more is sent.
use accord_rfc.Base.{◌+◌, arith, false, [], ◌∷◌, some, Bytes, ◌==◌, Bool-cases, inl, inr}
use accord_rfc.Store.{Db}
use accord_rfc.Store.Blobs.{count_friend_requests}
use accord_rfc.Store.Examples.{tavern}
use accord_rfc.Hub.{empty_hub}
use accord_rfc.Guardrails.{new_guardrails}
use accord_rfc.Links.{Codec}
use accord_rfc.Links.Contact.{ContactCode, new_contact}
use accord_rfc.Api.Server.{Server}
use accord_rfc.Api.Examples.{tally}
use accord_rfc.Friends.{send_friend_request}
use accord_rfc.Friends.Parked.{IsBounded, send_friend_request-IsBounded}

abbrev waiting : Db
waiting = record tavern {
  friend_requests =
      record {
        id = 60;
        recipient = 2;
        sender_identity = 1 ∷ [];
        kind = "accept";
        contact_code = "accordc:e30";
        created_at_ms = 5;
      }
      ∷ [];
}

abbrev server : Server
server = record {
  db = waiting;
  hub = empty_hub;
  guardrails = new_guardrails false;
  registrations = λ ip. [];
  ids = λ n. 100 + n;
  instants = λ n. n;
  times = λ n. n;
  ticks = 0;
}

abbrev identity : Bytes
identity =
    0 ∷ 1 ∷ 2 ∷ 3 ∷ 4 ∷ 5 ∷ 6 ∷ 7 ∷ 8 ∷ 9 ∷ 10 ∷ 11 ∷ 12 ∷ 13 ∷ 14 ∷ 15 ∷ 16 ∷ 17 ∷ 18 ∷ 19 ∷ 20
    ∷ 21 ∷ 22 ∷ 23 ∷ 24 ∷ 25 ∷ 26 ∷ 27 ∷ 28 ∷ 29 ∷ 30 ∷ 31 ∷ []

abbrev codec : Codec ContactCode
codec = record {
  encode64 = λ bytes. "e30";
  decode64 = λ text. some (123 ∷ 125 ∷ []);
  to_vec = λ value. 123 ∷ 125 ∷ [];
  from_slice = λ bytes. some (new_contact identity);
}

waiting-IsBounded : IsBounded waiting
unfolding count_friend_requests
waiting-IsBounded u = elim (Bool-cases (2 == u)) [
  | inl e ↦ rw e (omega arith)
  | inr e ↦ rw e (omega arith)
]

send_friend_request-IsBounded_example :
    IsBounded
      (send_friend_request tally codec (some "iii") (some "ii") "request" "accordc:e30" server).1.db
send_friend_request-IsBounded_example =
    send_friend_request-IsBounded tally codec (some "iii") (some "ii") "request" "accordc:e30"
      server waiting-IsBounded
