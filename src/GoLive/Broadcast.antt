-- ===== src/GoLive/Broadcast.antt =====
-- useGoLive.ts: the signals that come in, the start and the end of a broadcast.
use together.Base.{
  ℕ, ◌+◌, String, Bool, not, ◌||◌, Option, none, some, List, [], ◌∷◌, ◌++◌, if◌then◌else◌, is_some,
  is_id, get_or, truthy, ◌==◌, Outcome, returned, thrown, Failure, api_request_error, other_error,
}
use together.Base.Dict.{Dict, get}
use together.Calls.{Stream, SignalType, offer, answer, candidate, track_ids}
use together.Calls.Signals.{SignalingState, have_local_offer, Incoming}
use together.GoLive.{
  Live, GoLiveQuality, GoLiveSession, QualityConstraints, quality_map, is_broadcasting, report,
  signal, send_go_live_offer,
}

-- The viewer's connection, which no ref keeps.
unfoldable pub on_offer : Live → Live
on_offer l = record l { made = l.made + 1; answering = l.made ∷ l.answering }

-- What follows when the browser has taken the offer and made an answer, or has failed to.
unfoldable pub answer_made : String → Outcome String → Live → Live
answer_made from_id (returned sdp) l = signal from_id answer sdp l
answer_made from_id (thrown err) l = report "Failed to receive Go Live stream" l

-- An answer is handed to a connection that waits for one, and a candidate to the connection of the peer: the number of
-- that connection.
abbrev pub waiting : SignalingState → Option ℕ → Option ℕ
waiting have_local_offer found = found
waiting _ found = none

abbrev pub by_type : SignalType → SignalingState → String → Live → Live × Option ℕ
unfolding on_offer
by_type offer state from_id l = (on_offer l, some l.made)
by_type answer state from_id l = (l, waiting state (get l.go_live_peers from_id))
by_type candidate state from_id l = (l, get l.go_live_peers from_id)

-- The state after a signal, and the connection that is handed what came.
unfoldable pub on_voice_signal :
    (my_user_id : String) → SignalingState → Incoming → Live → Live × Option ℕ
unfolding on_offer
on_voice_signal my_user_id state msg l =
    let from_id = get_or msg.from_user_id "" in
    if not (is_id msg.stream_type "go_live")
    then (l, none)
    else if not (truthy msg.from_user_id) || from_id == my_user_id
    then (l, none)
    else by_type msg.type state from_id l

-- `remoteStream` of a viewer's connection, with the tracks that have come so far.
unfoldable pub on_track : (remote_stream : Stream) → Live → Live
on_track remote_stream l = record l { viewer_stream = some remote_stream }

unfoldable pub on_viewer_state_change : (failed_or_closed : Bool) → Live → Live
on_viewer_state_change failed_or_closed l =
    if failed_or_closed then record l { viewer_stream = none } else l

-- An offer to every participant but the user: the calls run one after the other until each awaits the browser.
unfoldable pub send_offers : (my_user_id : String) → (participants : List String) → Live → Live
unfolding send_go_live_offer
send_offers my_user_id [] l = l
send_offers my_user_id (p ∷ ps) l =
    send_offers my_user_id ps (if p == my_user_id then l else send_go_live_offer p l)

-- The effect for participants that join.
unfoldable pub on_participants : (my_user_id : String) → (participants : List String) → Live → Live
unfolding send_offers
on_participants my_user_id participants l =
    if not (is_some l.display_stream) || not (is_broadcasting my_user_id l)
    then l
    else send_offers my_user_id participants l

-- `startBroadcast` when the picker is done.
abbrev pub on_capture : Outcome Stream → Live → Live
on_capture (thrown err) l = report "Screen capture permission was denied" l
on_capture (returned display_stream) l = record l { display_stream = some display_stream }

unfoldable pub capture : (QualityConstraints → Outcome Stream) → GoLiveQuality → Live → Live
capture get_display_media quality l = on_capture (get_display_media (quality_map quality)) l

-- `err instanceof Error ? err.message : fallback`, where `text` is the message of an error that the API did not send.
abbrev pub message_of : (text : Option String) → Failure → String
message_of text (api_request_error status message) = message
message_of text other_error = get_or text "Failed to start Go Live"

-- What the server says to the broadcast: an error stops the capture.
unfoldable pub on_registered :
    (my_user_id : String)
    → (participants : List String) → (text : Option String) → Stream
    → Outcome GoLiveSession
    → Live
    → Live
unfolding send_offers
on_registered my_user_id participants text display_stream (returned session) l =
    send_offers my_user_id participants (record l { active_session = some session })
on_registered my_user_id participants text display_stream (thrown err) l =
    report (message_of text err)
      (record l { stopped = l.stopped ++ track_ids display_stream.tracks; display_stream = none })

abbrev pub display_tracks : Option Stream → List ℕ
display_tracks none = []
display_tracks (some s) = track_ids s.tracks

abbrev pub connections : Dict ℕ → List ℕ
connections [] = []
connections ((_, pc) ∷ d) = pc ∷ connections d

-- The display stream and the broadcaster's connections come to an end.
abbrev pub tear_down : Live → Live
tear_down l = record l {
  stopped = l.stopped ++ display_tracks l.display_stream;
  display_stream = none;
  closed = connections l.go_live_peers ++ l.closed;
  go_live_peers = [];
  offered_go_live_peers = [];
}

-- Also when the picture ends. An error of `api.stopGoLive` after it is only logged.
unfoldable pub stop_broadcast : Live → Live
stop_broadcast l = record (tear_down l) { active_session = none }

-- The effect for a user who is not in the channel (any more).
unfoldable pub disable : Live → Live
disable l = record (tear_down l) { viewer_stream = none }

-- The clean-up when the component goes: nothing is forgotten.
unfoldable pub unmount : Live → Live
unmount l = record l {
  stopped = l.stopped ++ display_tracks l.display_stream;
  closed = connections l.go_live_peers ++ l.closed;
}
