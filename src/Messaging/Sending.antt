-- ===== src/Messaging/Sending.antt =====
-- `handle_public_message`: what is stored of a message, and who may send it.
use accord_rfc.Base.{
  ℕ, suc, ◌+◌, ◌≡◌, refl, subst, ◌∙◌, ◌⊎◌, inl, inr, Bool, true, false, Option, none, some, Text,
  Uuid, trim, is_empty, find, if◌then◌else◌, arith,
}
use accord_rfc.Store.{PublicMessage, User, Db}
use accord_rfc.Store.Groups.{is_member}
use accord_rfc.Store.Messages.{
  PublicMessageRow, same_message, find_sender, insert_row, insert_public_message,
}
use accord_rfc.Store.Messages.Keys.{Inserted, insert_row-Inserted}
use accord_rfc.Api.Error.{Result, ok, err, Status, ServerError, to_status, bad_argument, ok_or}
use accord_rfc.Api.Request.{Env, require_id}
use accord_rfc.Api.Server.{Server}
use accord_rfc.Api.Action.{after, ◌>>=◌}
use accord_rfc.GroupService.Joining.{IsPublic, Welcome}
use accord_rfc.Messaging.{
  ensure_participant, handle_public_message, permit_participant, insert_message, publish_public,
  on_hub, chosen_id,
}
use accord_rfc.Messaging.Participation.{Participation, ensure_participant-Participation}

-- The client id is that of the request, if the request has one that can be read.
abbrev pub IsKeyOf : Env → Option Text → Uuid → Type 0
IsKeyOf env sent_id client =
    (value : Text) (id : Uuid) → sent_id ≡ some value → env.parse_str value ≡ some id → client ≡ id

chosen-IsKeyOf :
    (env : Env) (sent_id : Option Text) (fresh : Uuid)
    → IsKeyOf env sent_id (chosen_id env sent_id fresh)
chosen-IsKeyOf env sent_id fresh value id e f = rw (chosen_id, e, f) refl

-- The account may write in the group, is a member afterwards, and a message is stored under the
-- group and the client id of the request, or one that was drawn.
pub record Sent (env : Env) (sent_id : Option Text) (user group : Uuid) (db db' : Db) : Type 0 where
  pub may_write : (is_member db group user ≡ true) ⊎ (IsPublic db group × Welcome db user)
  pub joined : is_member db' group user ≡ true
  pub stored :
      (client : Uuid) × IsKeyOf env sent_id client
      × (m : PublicMessage) × (find (same_message group client) db'.public_messages ≡ some m)

-- By how the handler ended.
pub record SendOutcome (env : Env) (sent_id : Option Text) (user group : Uuid) (db : Db)
    (p : Result (Unit {0}) × Server) : Type 0 where
  pub sent : p.0 ≡ ok tt → Sent env sent_id user group db p.1.db
  pub refused : (e : Status) → p.0 ≡ err e → (p.1.db ≡ db) ⊎ (find_sender p.1.db user ≡ none)

refused_here :
    (env : Env) (sent_id : Option Text) (user group : Uuid) (db : Db) (e : Status) (s : Server)
    → s.db ≡ db
    → SendOutcome env sent_id user group db (err e, s)
refused_here env sent_id user group db e s h = record {
  sent = λ k. ground arith;
  refused = λ e' k. inl h;
}

-- A row that the store does not return is that of an account without one.
row-none :
    (id group sender : Uuid) (content : Text) (client : Uuid) (now : ℕ) (db : Db) (e : Status)
    (e' : Status)
    → ok_or (insert_public_message id group sender content client now db).0 (err e) ≡ err e'
    → find_sender (insert_public_message id group sender content client now db).1 sender ≡ none
unfolding insert_public_message
row-none id group sender content client now db e e' h =
    none_of (find_sender (insert_row id group sender content client now db).1 sender) _ h
  where
    none_of :
        (o : Option User) (f : User → PublicMessageRow)
        → ok_or (elim o [ none ↦ none | some u ↦ some (f u) ]) (err e) ≡ err e'
        → o ≡ none
    none_of none f k = refl
    none_of (some u) f k = absurd (ground arith)

insert_public_message-Inserted :
    (id group sender : Uuid) (content : Text) (client : Uuid) (now : ℕ) (db : Db)
    → Inserted group client db (insert_public_message id group sender content client now db).1
unfolding insert_public_message
insert_public_message-Inserted id group sender content client now db =
    insert_row-Inserted id group sender content client now db

-- The handler from the insertion on.
insertion :
    (env : Env) (sent_id : Option Text) (user group client : Uuid) (content : Text) (db : Db)
    (s : Server)
    → (is_member db group user ≡ true) ⊎ (IsPublic db group × Welcome db user)
    → is_member s.db group user ≡ true
    → IsKeyOf env sent_id client
    → SendOutcome env sent_id user group db (
        (insert_message env group user content client >>= λ row. on_hub (publish_public env row)) s)
insertion env sent_id user group client content db s may member key =
    after P (ok_or row (err failure)) _ stored
      (λ e h. record {
        sent = λ k. ground arith;
        refused = λ e' k. inr (row-none _ group user content client _ s.db failure e h);
      })
      λ r h. record {
        sent = λ k. record {
          may_write = may;
          joined = there.members group user ∙ member;
          stored = (client, key, there.stored.0, there.stored.1);
        };
        refused = λ e' k. ground arith;
      }
  where
    P : Result (Unit {0}) × Server → Type 0
    P = SendOutcome env sent_id user group db

    failure : Status
    failure = to_status (ServerError.internal "database error")

    row : Option PublicMessageRow
    row = (insert_public_message (s.ids s.ticks) group user content client (s.times s.ticks) s.db).0

    stored : Server
    stored = record s {
      db =
          (insert_public_message (s.ids s.ticks) group user content client (s.times s.ticks)
            s.db).1;
      ticks = s.ticks + 1;
    }

    there : Inserted group client s.db stored.db
    there =
        insert_public_message-Inserted (s.ids s.ticks) group user content client (s.times s.ticks)
          s.db

-- If `handle_public_message` on a group succeeds, the account was a member of the group, or the
-- group is a public channel and the account is no guest and not banned; afterwards the account is
-- a member, and a message is stored for the group under the client id of the request, if that can
-- be read. If it fails, the database is as before, or the account has no row.
pub handle_public_message-SendOutcome :
    (env : Env) (user : Uuid) (group_id : Option Text) (content : Text) (sent_id : Option Text)
    (s : Server) (group : Uuid)
    → require_id env group_id "group_id is required" "group_id is not a valid UUID" ≡ ok group
    → SendOutcome env sent_id user group s.db
        (handle_public_message env user group_id content sent_id s)
unfolding handle_public_message
handle_public_message-SendOutcome env user group_id content sent_id s group named = rw named (
    after P (if is_empty (trim content) then bad_argument "message content is empty" else ok tt) _ s
      (λ e h. refused_here env sent_id user group s.db e s refl)
      λ _ e1.
        after P part.0 _ part.1
          (λ e h. refused_here env sent_id user group s.db e part.1 (subst C h taken).0)
          λ joined h.
            after P (permit_participant joined) _ part.1
              (λ e k.
                let out : joined ≡ false = ground arith in
                let (same, outside, kept_out) = subst (λ j. C (ok j)) out (subst C h taken) in
                refused_here env sent_id user group s.db e part.1 same)
              λ _ k.
                let ins : joined ≡ true = ground arith in
                let (grown, member, may) = subst (λ j. C (ok j)) ins (subst C h taken) in
                insertion env sent_id user group (chosen_id env sent_id (part.1.ids part.1.ticks))
                  (trim content) s.db (record part.1 { ticks = suc part.1.ticks }) may member
                  (chosen-IsKeyOf env sent_id (part.1.ids part.1.ticks)))
  where
    P : Result (Unit {0}) × Server → Type 0
    P = SendOutcome env sent_id user group s.db

    part : Result Bool × Server
    part = ensure_participant env group user s

    C : Result Bool → Type 0
    C r = Participation group user s.db (r, part.1)

    taken : C part.0
    taken = ensure_participant-Participation env group user s
