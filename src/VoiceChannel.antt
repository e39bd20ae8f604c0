-- ===== src/VoiceChannel.antt =====
-- clients/web/src/components/voice/VoiceChannel.tsx: the participants that a voice channel shows, and what its buttons do
-- beside the voice store. What is rendered is left out.
pub mod Following
use together.Base.{
  ℕ, String, Bool, true, false, not, ◌&&◌, Option, none, some, List, [], ◌∷◌, ◌++◌, map, filter,
  if◌then◌else◌, is_id, get_or, includes, ◌==◌, Outcome, returned, thrown, Reply, ok, failed,
  has_id, update_id, remove_id, find_id, or_else, take,
}
use together.Voice.{VoiceParticipant, VoiceStore, join, leave, clear_error}

pub record VoiceStateUpdateEvent : Type 0 where
  pub user_id : String
  pub username : String
  pub channel_id : Option String
  pub self_mute : Bool
  pub self_deaf : Bool
  pub self_video : Bool
  pub self_screen : Bool
  pub server_mute : Bool
  pub server_deaf : Bool
  pub joined_at : Option String

pub record Room : Type 0 where
  pub participants : List VoiceParticipant
  pub initial_peers : List String
  pub rtc_error : Option String
  pub speaking_users : List String

abbrev pub id_of : VoiceParticipant → String
id_of p = p.user_id

-- { ...p, self_mute: event.self_mute, ... }
abbrev pub with_state : VoiceStateUpdateEvent → VoiceParticipant → VoiceParticipant
with_state event p = record p {
  self_mute = event.self_mute;
  self_deaf = event.self_deaf;
  self_video = event.self_video;
  self_screen = event.self_screen;
  server_mute = event.server_mute;
  server_deaf = event.server_deaf;
}

-- `now` is the text of the present time.
abbrev pub participant_of : (now : String) → VoiceStateUpdateEvent → VoiceParticipant
participant_of now event = record {
  user_id = event.user_id;
  username = event.username;
  channel_id = event.channel_id;
  self_mute = event.self_mute;
  self_deaf = event.self_deaf;
  self_video = event.self_video;
  self_screen = event.self_screen;
  server_mute = event.server_mute;
  server_deaf = event.server_deaf;
  joined_at = some (get_or event.joined_at now);
}

-- What VOICE_STATE_UPDATE makes of the participants.
unfoldable pub on_voice_state_update :
    (channel_id now : String)
    → VoiceStateUpdateEvent
    → List VoiceParticipant
    → List VoiceParticipant
on_voice_state_update channel_id now event prev =
    if is_id event.channel_id channel_id
    then if has_id id_of event.user_id prev
      then update_id id_of event.user_id (with_state event) prev
      else prev ++ participant_of now event ∷ []
    else remove_id id_of event.user_id prev

-- An error is only logged.
unfoldable pub fetch_participants : Reply (List VoiceParticipant) → Room → Room
fetch_participants (ok list) room = record room { participants = list }
fetch_participants (failed err) room = room

unfoldable pub handle_speaking_change : (user_id : String) → (is_speaking : Bool) → Room → Room
handle_speaking_change user_id is_speaking room =
    if is_speaking
    then record room {
      speaking_users =
          if includes room.speaking_users user_id
          then room.speaking_users
          else room.speaking_users ++ user_id ∷ [];
    }
    else record room { speaking_users = filter (λ k. not (k == user_id)) room.speaking_users }

abbrev pub ids : List VoiceParticipant → List String
ids [] = []
ids (p ∷ ps) = p.user_id ∷ ids ps

-- `user?.id !== p.user_id`, where nobody may be signed in
abbrev pub others : (user : Option String) → List VoiceParticipant → List VoiceParticipant
others user = filter (λ p. not (is_id user p.user_id))

-- The participants at the time of joining, and the peers that offers go to.
abbrev pub show_joined : (user : Option String) → Reply (List VoiceParticipant) → Room → Room
show_joined user (ok list) room = record room {
  participants = list;
  initial_peers = ids (others user list);
}
show_joined user (failed err) room = room

-- `handleJoin`, its two requests awaited one after the other; an error is only logged.
abbrev pub after_join :
    (user : Option String)
    → (meanwhile : Room → Room) → Reply (List VoiceParticipant)
    → Outcome VoiceParticipant
    → Room
    → Room
after_join user meanwhile listed (thrown err) room = room
after_join user meanwhile listed (returned _) room = show_joined user listed (meanwhile room)

unfoldable pub handle_join :
    (user : Option String) (channel_id : String) (meanwhile : VoiceStore → VoiceStore)
    (joining listing : Room → Room)
    → Reply VoiceParticipant
    → Reply (List VoiceParticipant)
    → VoiceStore × Room
    → VoiceStore × Room
unfolding join
handle_join user channel_id meanwhile joining listing joined listed (store, room) =
    let (store', outcome) = join channel_id meanwhile joined (clear_error store) in
    (store', after_join user listing listed outcome (joining (record room { rtc_error = none })))

unfoldable pub handle_leave :
    (leaving listing : Room → Room)
    → Reply (List VoiceParticipant)
    → VoiceStore × Room
    → VoiceStore × Room
unfolding leave fetch_participants
handle_leave leaving listing listed (store, room) =
    let gone = record (leaving room) { initial_peers = []; speaking_users = [] } in
    (leave store, fetch_participants listed (listing gone))

-- How a handler of a toggle takes the store's outcome.
abbrev pub note_failure {ℓ} : {A : Type ℓ} → (message : String) → Outcome A → Room → Room
note_failure message (returned _) room = room
note_failure message (thrown err) room = record room { rtc_error = some message }

-- `handleToggleMute` and `handleToggleDeafen`, which do nothing outside the channel, and the handlers of the camera and the
-- screen, which go ahead: `toggle` is the store's action.
module _ {ℓ} {A : Type ℓ} (toggle : VoiceStore → VoiceStore × Outcome A) where
  abbrev pub try_toggle : (message : String) → VoiceStore × Room → VoiceStore × Room
  try_toggle message (store, room) =
      let (store', outcome) = toggle store in (store', note_failure message outcome room)

  abbrev pub toggle_in_channel :
      (channel_id message : String) → VoiceStore × Room → VoiceStore × Room
  toggle_in_channel channel_id message (store, room) =
      if is_id store.connected_channel_id channel_id
      then try_toggle message (store, room)
      else (store, room)

-- The error that is shown.
abbrev pub active_error : VoiceStore → Room → (go_live_error : Option String) → Option String
active_error store room go_live_error = or_else store.error (or_else room.rtc_error go_live_error)
