-- ===== src/Examples/OfCalls.antt =====
-- The theorems on calls, broadcasts and voice channels at concrete inputs.
use together.Base.{
  ◌≡◌, refl, String, true, false, not, none, some, List, [], ◌∷◌, any, eqb, arith, Outcome,
  returned,
}
use together.Base.Dict.{get, put}
use together.Calls.{close_peer, Call, Stream, audio, video, fresh, offer}
use together.Calls.Signals
use together.Calls.Signals.{Incoming, stable, have_local_offer, offer_to, unmount}
use together.Calls.Media.{on_microphone, gate_microphone}
use together.Calls.Steps.{Reach, here, then_step, offers, state_changes}
use together.Calls.Leaks.{IsTight}
use together.Calls.Reachable.{no_connection_leaks, offered_only_once}
use together.Calls.HotMic.{is_open, new_microphone_is_open}
use together.GoLive.{Live, GoLiveSession, no_live, medium_720p, QualityConstraints}
use together.GoLive.Broadcast
use together.GoLive.Broadcast.{
  capture, on_registered, on_participants, on_capture, stop_broadcast, disable,
}
use together.GoLive.Steps as Airing
use together.GoLive.Reachable.{closed_unless_answering}
use together.GoLive.Offers.{newcomers_only}
use together.GoLive.Mixed.{go_live_signal}
use together.VoiceChannel.{VoiceStateUpdateEvent}
use together.VoiceChannel.Following.{
  Account, Shows, account_after_all, after_events, participants_follow_account,
}

abbrev microphone : Stream
microphone = record { stream_id = 1; tracks = record { id = 7; kind = audio } ∷ [] }

abbrev screen : Stream
screen = record { stream_id = 2; tracks = record { id = 8; kind = video } ∷ [] }

abbrev second_screen : Stream
second_screen = record { stream_id = 3; tracks = record { id = 9; kind = video } ∷ [] }

-- An offer to "a", whose connection fails.
abbrev called : Call
called =
    Signals.on_connection_state_change true "a" (offer_to (λ x. x) (returned "sdp") "me" "a" fresh)

called-Reach : Reach "me" fresh called
called-Reach =
    then_step (then_step here (offers (λ x. x) (returned "sdp") "a" (λ x. here)))
      (state_changes true "a")

no_connection_leaks_example : IsTight called × (any (eqb 0) (unmount called).closed ≡ true)
unfolding offer_to Signals.on_connection_state_change close_peer get put
no_connection_leaks_example = no_connection_leaks "me" 0 called-Reach (omega arith)

offered_only_once_example :
    (offer_to (λ x. x) (returned "again") "me" "a" called ≡ called)
    × (get (offer_to (λ x. x) (returned "again") "me" "a" (close_peer "a" called)).peers "a" ≡ none)
offered_only_once_example =
    offered_only_once "me" "a" (λ x. x) (λ x. x) (returned "sdp") (returned "again") fresh
      (λ x. here) refl (then_step here (state_changes true "a"))

new_microphone_is_open_example :
    let gated = gate_microphone false false true fresh in
    let d =
      on_microphone
        (λ n. true)
        (record { context_available = true; detector_works = true })
        "me"
        false
        (returned microphone)
        gated in
    (d.local_stream ≡ some microphone) × (is_open microphone d ≡ true)
unfolding gate_microphone
new_microphone_is_open_example =
    new_microphone_is_open false false true (λ n. true)
      (record { context_available = true; detector_works = true }) "me" microphone fresh refl refl

abbrev session : GoLiveSession
session = record {
  channel_id = "c";
  broadcaster_id = "me";
  quality = medium_720p;
  started_at = "t";
}

abbrev media : QualityConstraints → Outcome Stream
media constraints = returned screen

abbrev captured : Live
captured = capture media medium_720p no_live

abbrev aired : Live
aired = on_registered "me" ("me" ∷ "a" ∷ []) none screen (returned session) captured

-- While the user is live, "b" sends an offer too.
abbrev watched : Live
watched = (Broadcast.on_voice_signal "me" stable (go_live_signal "b" offer "sdp") aired).0

watched-Reach : Airing.Reach "me" "c" no_live watched
watched-Reach =
    Airing.then_step
      (Airing.then_step (Airing.then_step Airing.here (Airing.captures media medium_720p))
        (Airing.registers ("me" ∷ "a" ∷ []) none screen (returned session)))
      (Airing.receives stable (go_live_signal "b" offer "sdp"))

closed_unless_answering_example :
    (any (eqb 1) (stop_broadcast watched).closed ≡ not (any (eqb 1) watched.answering))
    × (any (eqb 1) (disable watched).closed ≡ not (any (eqb 1) watched.answering))
    × (any (eqb 1) (Broadcast.unmount watched).closed ≡ not (any (eqb 1) watched.answering))
unfolding Broadcast.on_voice_signal on_registered capture get
closed_unless_answering_example = closed_unless_answering "me" "c" 1 watched-Reach (omega arith)

newcomers_only_example :
    on_participants "me" ("me" ∷ "a" ∷ "b" ∷ []) aired ≡ on_participants "me" ("b" ∷ []) aired
newcomers_only_example =
    newcomers_only "me" ("me" ∷ "a" ∷ []) ("b" ∷ []) none screen session captured

-- "a" is in the channel, "b" comes, and "a" moves to another one.
abbrev moves : String → String → VoiceStateUpdateEvent
moves user channel = record {
  user_id = user;
  username = user;
  channel_id = some channel;
  self_mute = true;
  self_deaf = false;
  self_video = false;
  self_screen = false;
  server_mute = false;
  server_deaf = false;
  joined_at = none;
}

abbrev nobody : Account
nobody u = none

abbrev history : List (String × VoiceStateUpdateEvent)
history = ("t1", moves "a" "here") ∷ ("t2", moves "b" "here") ∷ ("t3", moves "a" "there") ∷ []

participants_follow_account_example :
    Shows "here" (account_after_all history nobody) (after_events "here" history [])
participants_follow_account_example =
    participants_follow_account "here" history nobody [] (record { each = λ u. refl; once = refl })
