-- ===== src/Calls/Signals.antt =====
-- useWebRTC.ts: offers, answers and candidates, and the end of connections.
use together.Base.{
  ℕ, String, Bool, false, not, ◌||◌, Option, none, some, List, [], ◌∷◌, ◌++◌, filter, if◌then◌else◌,
  truthy, includes, ◌==◌, get_or, any, eqb, Outcome, returned, thrown,
}
use together.Base.Dict.{Dict, get, put}
use together.Calls.{
  Call, Stream, RemoteStreams, SignalType, offer, answer, candidate, Sound, create_peer, close_peer,
  play_remote_stream, add_id, fail, stop_tracks,
}

abbrev pub signal : String → SignalType → String → Call → Call
signal to type payload c = record c {
  sent = c.sent ++ record { to_user_id = to; type = type; payload = payload; go_live = false } ∷ [];
}

pub data SignalingState : Type 0 where
  stable have_local_offer other_state : SignalingState

-- What `connectionState` becomes.
unfoldable pub on_connection_state_change : (failed_or_closed : Bool) → String → Call → Call
on_connection_state_change failed_or_closed peer_id c =
    if failed_or_closed then close_peer peer_id c else c

unfoldable pub on_ice_candidate : Option String → String → Call → Call
on_ice_candidate none peer_id c = c
on_ice_candidate (some payload) peer_id c = signal peer_id candidate payload c

-- `await pc.createOffer()` and `await pc.setLocalDescription(offer)`: the text of the offer, or an error.
module _ (meanwhile : Call → Call) (sdp : Outcome String) where
  abbrev pub send_offer : (message peer_id : String) → Call → Call
  send_offer message peer_id c = elim sdp [
    | returned text ↦ signal peer_id offer text (meanwhile c)
    | thrown err ↦ fail message (meanwhile c)
  ]

  abbrev pub renegotiate : SignalingState → String → Call → Call
  renegotiate stable peer_id c = send_offer "Failed to renegotiate voice connection" peer_id c
  renegotiate _ peer_id c = c

  unfoldable pub on_negotiation_needed : SignalingState → String → Call → Call
  on_negotiation_needed state peer_id c =
      if includes c.initial_negotiation_done peer_id then renegotiate state peer_id c else c

  -- The effect that sends offers, for one of the initial peers.
  unfoldable pub offer_to : (my_user_id peer_id : String) → Call → Call
  unfolding create_peer
  offer_to my_user_id peer_id c =
      if peer_id == my_user_id || includes c.offered_peers peer_id
      then c
      else send_offer "Failed to establish voice connection with a peer" peer_id
          (create_peer peer_id c.local_stream
            (record c { offered_peers = add_id peer_id c.offered_peers })).1

-- An incoming VOICE_SIGNAL. `stream_type` comes with it, and this handler does not read it.
pub record Incoming : Type 0 where
  pub from_user_id : Option String
  pub type : SignalType
  pub payload : String
  pub stream_type : Option String

-- How the browser takes it: `accepted` is the text of the answer for an offer, and any text otherwise.
module _ (meanwhile : Call → Call) (accepted : Outcome String) where
  abbrev pub answer_offer : String → Call → Call
  answer_offer from_id c = elim accepted [
    | thrown err ↦ fail "Failed to answer voice connection request" c
    | returned text ↦
        (let d = signal from_id answer text c in
          record d { initial_negotiation_done = add_id from_id d.initial_negotiation_done })
  ]

  unfoldable pub on_offer : String → Call → Call
  unfolding create_peer
  on_offer from_id c = answer_offer from_id (meanwhile (create_peer from_id c.local_stream c).1)

  abbrev pub finish_offer : String → Call → Call
  finish_offer from_id c = elim accepted [
    | thrown err ↦ fail "Failed to establish voice connection with a peer" c
    | returned _ ↦ record c { initial_negotiation_done = add_id from_id c.initial_negotiation_done }
  ]

  -- Only for a connection that waits for an answer.
  abbrev pub take_answer : SignalingState → String → Option ℕ → Call → Call
  take_answer have_local_offer from_id (some pc) c = finish_offer from_id (meanwhile c)
  take_answer _ from_id pc c = c

  unfoldable pub on_answer : SignalingState → String → Call → Call
  on_answer state from_id c = take_answer state from_id (get c.peers from_id) c

  -- A candidate is handed to the connection; its failure is only logged.
  abbrev pub take_candidate : Option ℕ → Call → Call
  take_candidate none c = c
  take_candidate (some pc) c = meanwhile c

  unfoldable pub on_candidate : String → Call → Call
  on_candidate from_id c = take_candidate (get c.peers from_id) c

  unfoldable pub by_type : SignalType → SignalingState → String → Call → Call
  unfolding on_offer on_answer on_candidate
  by_type offer state from_id c = on_offer from_id c
  by_type answer state from_id c = on_answer state from_id c
  by_type candidate state from_id c = on_candidate from_id c

  unfoldable pub on_voice_signal : (my_user_id : String) → SignalingState → Incoming → Call → Call
  unfolding by_type
  on_voice_signal my_user_id state msg c =
      let from_id = get_or msg.from_user_id "" in
      if not (truthy msg.from_user_id) || from_id == my_user_id
      then c
      else by_type msg.type state from_id c

-- `remoteStream` is the stream of the connection, with the audio tracks that have come so far.
unfoldable pub on_audio_track :
    (speaker_device_id : Option String) → Sound → (remote_stream : Stream) → String → Call → Call
on_audio_track speaker_device_id sound remote_stream peer_id c =
    play_remote_stream speaker_device_id sound peer_id remote_stream c

-- `username` is that of the participant, where there is one.
unfoldable pub on_video_track :
    (is_screen : Bool) → (username : Option String) → Stream → String → Call → Call
on_video_track is_screen username stream peer_id c =
    let empty : RemoteStreams = record {
      camera = none;
      screen = none;
      username = get_or username peer_id;
    } in
    let existing = get_or (get c.remote_video_streams peer_id) empty in
    record c {
      remote_video_streams = put c.remote_video_streams peer_id (
          if is_screen
          then record existing { screen = some stream }
          else record existing { camera = some stream });
    }

abbrev pub keys : Dict ℕ → List String
keys [] = []
keys ((k, _) ∷ d) = k ∷ keys d

unfoldable pub close_all : List String → Call → Call
unfolding close_peer
close_all [] c = c
close_all (k ∷ ks) c = close_all ks (close_peer k c)

-- The effect that closes the peers that have left.
unfoldable pub close_absent : (participants : List String) → Call → Call
unfolding close_all
close_absent participants c =
    close_all (filter (λ k. not (includes participants k)) (keys c.peers)) c

-- The clean-up when the component goes.
unfoldable pub unmount : Call → Call
unfolding close_all
unmount c =
    let c' = close_all (keys c.peers) c in
    let d = stop_tracks c'.local_screen_stream (stop_tracks c'.local_video_stream c') in
    record d {
      audio_elements = [];
      offered_peers = [];
      detectors = filter (λ e. not (any (λ k. eqb k.1 e) d.speaking_stop)) d.detectors;
      speaking_stop = [];
      has_audio_ctx = false;
      local_video_stream = none;
      local_screen_stream = none;
      remote_video_streams = [];
      initial_negotiation_done = [];
    }
