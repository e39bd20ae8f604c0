-- ===== src/GoLive/Mixed.antt =====
-- useGoLive.ts and useWebRTC.ts: what the two hooks make of the same signals, and of a second start.
use together.Base.{
  ℕ, ◌≡◌, refl, ap, ◌∙◌, String, true, false, Option, none, some, List, [], ◌∷◌, ◌++◌, ◌==◌,
  returned, thrown, Failure, is_some,
}
use together.Calls.Leaks.{new_peer-Leaves}
use together.Base.Dict.{get, get-put_self}
use together.Calls.{Call, Stream, SignalType, offer, track_ids, create_peer, existing_or_new}
use together.Calls.Signals
use together.Calls.Signals.{SignalingState, Incoming, answer_offer, on_offer, by_type}
use together.GoLive.{Live}
use together.GoLive.Broadcast.{on_capture, on_registered, stop_broadcast}

append-nil : (ns : List ℕ) → ns ++ [] ≡ ns
append-nil [] = refl
append-nil (n ∷ ns) = ap (n ∷◌) (append-nil ns)

-- A signal of a Go Live stream.
abbrev pub go_live_signal : String → SignalType → String → Incoming
go_live_signal from type payload = record {
  from_user_id = some from;
  type = type;
  payload = payload;
  stream_type = some "go_live";
}

held-existing_or_new :
    (k : String) (s : Option Stream) (c : Call) (found : Option ℕ)
    → get c.peers k ≡ found
    → is_some (get (existing_or_new k s c found).1.peers k) ≡ true
held-existing_or_new k s c (some pc) e = ap is_some e
held-existing_or_new k s c none e =
    ap (λ d. is_some (get d k)) (new_peer-Leaves k s c).0
    ∙ ap is_some (get-put_self c.peers k c.made)

held-create_peer :
    (k : String) (s : Option Stream) (c : Call) → is_some (get (create_peer k s c).1.peers k) ≡ true
unfolding create_peer
held-create_peer k s c = held-existing_or_new k s c (get c.peers k) refl

-- An accepted offer of a Go Live stream also opens a connection of the voice call with the broadcaster, which is answered
-- as one for the voice.
pub go_live_offer_opens_voice_peer :
    (my_user_id from sdp text : String) (state : SignalingState) (c : Call)
    → (from == "") ≡ false
    → (from == my_user_id) ≡ false
    → let d =
        Signals.on_voice_signal
          (λ x. x)
          (returned text)
          my_user_id
          state
          (go_live_signal from offer sdp)
          c in
      is_some (get d.peers from) ≡ true
unfolding Signals.on_voice_signal by_type on_offer
go_live_offer_opens_voice_peer my_user_id from sdp text state c named other =
    rw (named, other) (held-create_peer from c.local_stream c)

-- A second start that the server refuses, while a broadcast runs: the running capture is forgotten, and to stop the
-- broadcast afterwards stops none of its tracks.
second_start_keeps_capturing :
    (me : String) (ps : List String) (text : Option String) (first second : Stream) (err : Failure)
    (l : Live)
    → l.display_stream ≡ some first
    → let refused = on_registered me ps text second (thrown err) (on_capture (returned second) l) in
      (refused.display_stream ≡ none)
      × ((stop_broadcast refused).stopped ≡ l.stopped ++ track_ids second.tracks)
unfolding on_registered stop_broadcast
second_start_keeps_capturing me ps text first second err l running =
    (refl, append-nil (l.stopped ++ track_ids second.tracks))
