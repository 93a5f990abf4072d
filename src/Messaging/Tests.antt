-- ===== src/Messaging/Tests.antt =====
-- Instances of the theorems on messages: the channel 20 with the members 2 and 3, and the owner 1
-- outside.
use accord_rfc.Api.Error.{ok}
use accord_rfc.Base.{
  ℕ, suc, ◌+◌, ◌≡◌, arith, refl, true, false, List, [], ◌∷◌, none, some, Text, Uuid, trim,
}
use accord_rfc.Store.Examples.{lounge}
use accord_rfc.Store.Users.{is_user_guest}
use accord_rfc.Store.Groups.{is_member, find_group, add_member}
use accord_rfc.Store.Moderation.{is_banned}
use accord_rfc.Store.Messages.{insert_row, insert_public_message}
use accord_rfc.Store.Messages.Keys.{insert_row_again}
use accord_rfc.Hub.{empty_hub}
use accord_rfc.Guardrails.{new_guardrails}
use accord_rfc.Api.Request.{require_id}
use accord_rfc.Api.Server.{Server}
use accord_rfc.Api.Examples.{tally}
use accord_rfc.Store.{Device, Db}
use accord_rfc.Messaging.Private.{Codec, handle_private_message}
use accord_rfc.Messaging.Stream.{open_stream}
use accord_rfc.Messaging.Mailing.{MailOutcome, handle_private_message-MailOutcome}
use accord_rfc.Messaging.Backlog.{Opened, open_stream-Opened}
use accord_rfc.Messaging.{ensure_participant, handle_public_message}
use accord_rfc.Messaging.Sending.{SendOutcome, handle_public_message-SendOutcome}
use accord_rfc.Messaging.Participation.{Participation, ensure_participant-Participation}

abbrev server : Server
server = record {
  db = lounge;
  hub = empty_hub;
  guardrails = new_guardrails false;
  registrations = λ ip. [];
  ids = λ n. 100 + n;
  instants = λ n. n;
  times = λ n. n;
  ticks = 0;
}

ensure_participant-Participation_example :
    Participation 20 1 lounge (ensure_participant tally 20 1 server)
ensure_participant-Participation_example = ensure_participant-Participation tally 20 1 server

insert_row_again_example :
    insert_row 31 20 3 "again" 7 2 (insert_row 30 20 2 "hello" 7 1 lounge).1 ≡ (
      (insert_row 30 20 2 "hello" 7 1 lounge).0,
      record (insert_row 30 20 2 "hello" 7 1 lounge).1 {
        public_seq = suc (insert_row 30 20 2 "hello" 7 1 lounge).1.public_seq;
      },
    )
insert_row_again_example = insert_row_again 30 31 20 2 3 "hello" "again" 7 1 2 lounge

-- The owner writes in the channel, and is a member then.
joined_on_use :
    is_member
      (handle_public_message tally 1 (some "iiiiiiiiiiiiiiiiiiii") " hi " none server).1.db
      20
      1
    ≡ true
unfolding handle_public_message ensure_participant require_id is_member find_group is_user_guest
    is_banned add_member insert_public_message insert_row accord_rfc.Base.Strings.trim
joined_on_use = refl

lounge_named :
    require_id tally
      (some "iiiiiiiiiiiiiiiiiiii")
      "group_id is required"
      "group_id is not a valid UUID"
    ≡ ok 20
unfolding require_id
lounge_named = refl

handle_public_message-SendOutcome_example :
    SendOutcome tally
      (some "iiiiiii")
      1
      20
      lounge
      (handle_public_message tally 1 (some "iiiiiiiiiiiiiiiiiiii") " hi " (some "iiiiiii") server)
handle_public_message-SendOutcome_example =
    handle_public_message-SendOutcome tally 1 (some "iiiiiiiiiiiiiiiiiiii") " hi " (some "iiiiiii")
      server 20 lounge_named

abbrev codec : Codec
codec = record {
  to_vec = λ payload. payload.ciphertext;
  from_slice = λ bytes.
      some (record {
        ciphertext = bytes;
        sender_id = 2;
        epoch = 0;
        timestamp = 0;
        sequence_number = 1;
      });
}

-- The members of the lounge with one device each, of which one has a message waiting.
abbrev equipped : Db
equipped = record lounge {
  devices = device 70 2 ∷ device 71 3 ∷ [];
  mls_inbox =
      record { id = 80; device_id = 71; kind = "private"; group_id = 20; payload = 9 ∷ [] } ∷ [];
}
  where
    device : Uuid → Uuid → Device
    device id user = record {
      id = id;
      user_id = user;
      name = "phone";
      revoked_at = none;
      mls_credential = none;
    }

handle_private_message-MailOutcome_example :
    MailOutcome codec 2 70 20
      (5 ∷ [])
      (record server { db = equipped })
      (handle_private_message tally codec 2 70
        (some "iiiiiiiiiiiiiiiiiiii")
        (5 ∷ [])
        0
        none
        (record server { db = equipped }))
handle_private_message-MailOutcome_example =
    handle_private_message-MailOutcome tally codec 2 70 (some "iiiiiiiiiiiiiiiiiiii") (5 ∷ []) 0
      none (record server { db = equipped }) 20 lounge_named

open_stream-Opened_example :
    Opened codec 71 0
      (record server { db = equipped })
      (open_stream codec 3 71 (record server { db = equipped }))
open_stream-Opened_example = open_stream-Opened codec 3 71 (record server { db = equipped }) refl
