-- ===== src/Messaging.antt =====
-- crates/accord-server/src/messaging/service.rs: messages in public channels, and voice.
pub mod Participation
pub mod Sending
pub mod Private
pub mod Stream
pub mod Mailbox
pub mod Mailing
pub mod Backlog
mod Tests
use accord_rfc.Base.{
  ℕ, ◌+◌, min, Bool, true, false, not, ◌&&◌, ◌||◌, List, [], ◌∷◌, Option, none, some, Text, Uuid,
  trim, is_empty, text_eq, format, ◌==◌, if◌then◌else◌,
}
use accord_rfc.Base.Maps.{Map}
use accord_rfc.Store.{Group, Db}
use accord_rfc.Store.Users.{is_user_guest, user_profile}
use accord_rfc.Store.Groups.{is_member, find_group, add_member}
use accord_rfc.Store.Moderation.{is_banned}
use accord_rfc.Store.Messages
use accord_rfc.Store.Messages.{PublicMessageRow, insert_public_message}
use accord_rfc.Hub.{
  Hub, VoiceState, public_message, voice_participant, deliver_to_group, deliver_to_device,
  subscribe, voice_join, voice_leave,
}
use accord_rfc.Api.Error.{
  Result, ok, err, ServerError, to_status, denied, bad_argument, missing, ok_or,
}
use accord_rfc.Api.Request.{Env, caller, require_id}
use accord_rfc.Api.Server.{Server, reads_db, modify_db, draw}
use accord_rfc.Api.Action.{Action, pure, lift, gets, ◌>>=◌, ◌>>◌}

abbrev pub on_hub : (Hub → Hub) → Action Server Unit
on_hub f s = (ok tt, record s { hub = f s.hub })

abbrev pub permit_participant : Bool → Result (Unit {0})
permit_participant joined = if joined then ok tt else denied

-- The states of the others in the voice channel, one message for each.
pub send_roster : Uuid → Uuid → Map VoiceState → Hub → Hub
send_roster group device [] hub = hub
send_roster group device ((other, state) ∷ roster) hub = send_roster group device roster (
    if other == device
    then hub
    else deliver_to_device device (voice_participant group other state true) hub)

abbrev join_voice : Uuid → Uuid → VoiceState → Hub → Hub
unfolding send_roster
join_voice group device state hub =
    let (roster, hub') = voice_join group device state hub in
    send_roster group device roster
      (deliver_to_group group (voice_participant group device state true) none hub')

abbrev leave_voice : Uuid → Uuid → VoiceState → Hub → Hub
leave_voice group device state hub =
    deliver_to_group group (voice_participant group device state false) none
      (voice_leave group device hub).1

abbrev voice_state_of : Db → Uuid → Bool → Bool → Bool → VoiceState
voice_state_of db user_id muted camera_on screen_on =
    let state : Text × Text × Text → VoiceState = λ profile. record {
      user_id = user_id;
      username = profile.0;
      display_name = profile.1;
      muted = muted;
      camera_on = camera_on;
      screen_on = screen_on;
    } in
    elim (user_profile db user_id) [ some profile ↦ state profile | none ↦ state ("", "", "") ]

-- `clamp_limit`, with its two constants.
abbrev pub clamp_limit : ℕ → ℕ
clamp_limit requested = if requested == 0 then 50 else min requested 200

module _ (env : Env) where
  abbrev pub message_group : Option Text → Action Server Uuid
  message_group id = lift (require_id env id "group_id is required" "group_id is not a valid UUID")

  -- What follows in `ensure_participant` once the account is no member.
  abbrev pub join_on_use : Uuid → Uuid → Group → Action Server Bool
  join_on_use group_id user_id group s =
      if not (text_eq group.kind "public") || (is_user_guest s.db user_id || is_banned s.db user_id)
      then (ok false, s)
      else (ok true, record s { db = add_member group_id user_id "member" s.db })

  -- `ensure_participant`
  pub ensure_participant : Uuid → Uuid → Action Server Bool
  ensure_participant group_id user_id s =
      if is_member s.db group_id user_id then (ok true, s) else elim (find_group s.db group_id) [
        | none ↦ (missing (format ("group " ∷ env.show group_id ∷ [])), s)
        | some group ↦ join_on_use group_id user_id group s
      ]

  -- `and_then(|id| Uuid::parse_str(&id.value).ok()).unwrap_or_else(Uuid::now_v7)`
  abbrev pub chosen_id : Option Text → Uuid → Uuid
  chosen_id none fresh = fresh
  chosen_id (some value) fresh = elim (env.parse_str value) [ some id ↦ id | none ↦ fresh ]

  abbrev pub message_id : Option Text → Action Server Uuid
  message_id client_message_id = do (fresh, now) ← draw; pure (chosen_id client_message_id fresh)

  abbrev pub insert_message : Uuid → Uuid → Text → Uuid → Action Server PublicMessageRow
  insert_message group_id user_id content client_message_id s =
      let (row, db) =
        insert_public_message (s.ids s.ticks) group_id user_id content client_message_id
          (s.times s.ticks) s.db in
      (
        ok_or row (err (to_status (ServerError.internal "database error"))),
        record s { db = db; ticks = s.ticks + 1 },
      )

  -- `publish_public`, over the local transport.
  abbrev pub publish_public : PublicMessageRow → Hub → Hub
  publish_public row hub =
      deliver_to_group row.group_id
        (public_message row.id row.group_id row.sender_id row.sender_display_name row.content
          row.created_at row.seq)
        none hub

  -- `handle_public_message`
  pub handle_public_message : Uuid → Option Text → Text → Option Text → Action Server Unit
  unfolding ensure_participant
  handle_public_message user_id group_id content client_message_id = do
    group ← message_group group_id
    lift (if is_empty (trim content) then bad_argument "message content is empty" else ok tt)
    joined ← ensure_participant group user_id
    lift (permit_participant joined)
    client ← message_id client_message_id
    row ← insert_message group user_id (trim content) client
    on_hub (publish_public row)

  -- `handle_voice_state`
  pub handle_voice_state :
      Uuid → Uuid → Option Text → Bool → Bool → Bool → Bool → Action Server Unit
  unfolding ensure_participant
  handle_voice_state user_id device_id group_id joined muted camera_on screen_on = do
    group ← message_group group_id
    participant ← ensure_participant group user_id
    lift (permit_participant participant)
    on_hub (subscribe device_id group)
    state ← gets (λ (s : Server). voice_state_of s.db user_id muted camera_on screen_on)
    on_hub (if joined then join_voice group device_id state else leave_voice group device_id state)

  -- `fetch_public_history`
  pub fetch_public_history :
      Option Text → Option Text → ℕ → ℕ → Action Server (List PublicMessageRow)
  unfolding ensure_participant
  fetch_public_history header group_id before_sequence limit = do
    user_id ← lift (caller env header "invalid user id in token")
    group ← message_group group_id
    joined ← ensure_participant group user_id
    lift (permit_participant joined)
    gets (λ (s : Server).
        Messages.fetch_public_history s.db group before_sequence (clamp_limit limit))
