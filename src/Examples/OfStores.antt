-- ===== src/Examples/OfStores.antt =====
-- The theorems on the smaller stores at concrete states.
use together.Base.{
  ℕ, String, ◌≡◌, refl, true, false, none, some, List, [], ◌∷◌, arith, ok, failed, other_error,
  if◌then◌else◌, ◌==◌,
}
use together.Base.Dict.{get}
use together.Types.Community.{Channel}
use together.Dms
use together.Dms.{messages_in}
use together.Dms.Ordering.{add_message_lem}
use together.ReadState.Counting.{ReadEvent, run, unread, run-since_read}
use together.Typing.{TypingState, TypingUser, add_typing_user, get_typing_users, cleanup_expired}
use together.Typing.Expiry.{IsWellFormed, get_typing_users-cleanup_expired, operations-IsWellFormed}
use together.Voice
use together.Voice.{VoiceStore, join, leave, toggle_mute}
use together.Voice.Consistency.{IsConsistent, operations-IsConsistent}
use together.Channels.{ChannelState}
use together.Emojis.{CustomEmoji}
use together.Examples.Data.{dms, direct, channel}

time : String → ℕ
time t = if t == "2026" then 7 else 0

add_message_lem_example : messages_in "d2" (Dms.add_message time direct dms) ≡ direct ∷ []
unfolding get
add_message_lem_example = (add_message_lem time direct dms "d2" refl).0

abbrev history : List ReadEvent
history =
    ReadEvent.message "c" ∷ ReadEvent.read "c" ∷ ReadEvent.message "c" ∷ ReadEvent.message "d" ∷ []

run-since_read_example :
    unread "c" (run history (record { unread_counts = []; mention_counts = [] })) ≡ 1
unfolding get
run-since_read_example =
    (run-since_read "c" history (record { unread_counts = []; mention_counts = [] })).0

abbrev bob_typing : TypingUser
bob_typing = record { user_id = "bob"; username = "Bob"; channel_id = "c"; timestamp = 100 }

abbrev typing : TypingState
typing = record { typing_users = ("c", bob_typing ∷ []) ∷ [] }

abbrev typing-IsWellFormed : IsWellFormed typing
typing-IsWellFormed = record { object = refl; once = refl }

get_typing_users-cleanup_expired_example :
    get_typing_users 20000 "c" none (cleanup_expired 15000 typing)
    ≡ get_typing_users 20000 "c" none typing
get_typing_users-cleanup_expired_example =
    get_typing_users-cleanup_expired 15000 20000 "c" none typing typing-IsWellFormed (omega arith)

operations-IsWellFormed_example : IsWellFormed (add_typing_user 200 "ann" "Ann" "c" typing)
operations-IsWellFormed_example =
    (operations-IsWellFormed 200 "ann" "Ann" "c" typing typing-IsWellFormed).0

abbrev in_voice : VoiceStore
in_voice = record (Voice.initial) { connected_channel_id = some "v"; is_muted = true }

operations-IsConsistent_example : IsConsistent (leave in_voice)
operations-IsConsistent_example =
    (operations-IsConsistent "v" (failed other_error) (ok tt) in_voice refl
      (record { muted = λ e. cc; deafened = λ e. cc; camera = λ e. cc; screen = λ e. cc })).1

abbrev two_channels : List Channel
two_channels = channel "b" 2 ∷ channel "a" 1 ∷ []

abbrev channels : ChannelState
channels = record {
  channels = two_channels;
  active_channel_id = some "a";
  is_loading = false;
  error = none;
}

abbrev emoji : CustomEmoji
emoji = record {
  id = "e1";
  server_id = "guild";
  created_by = "ann";
  name = "wave";
  url = "/emojis/e1";
  content_type = "image/png";
  file_size = 10;
  created_at = "2026";
}
