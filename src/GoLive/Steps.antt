-- ===== src/GoLive/Steps.antt =====
-- useGoLive.ts: what can happen to the hook, in any order.
use together.Base.{String, Bool, Option, List, Outcome}
use together.Calls.{Stream}
use together.Calls.Signals.{SignalingState, Incoming}
use together.IceCache.{IceServer}
use together.GoLive.{
  Live, GoLiveSession, GoLiveStopEvent, GoLiveQuality, QualityConstraints, on_ice_candidate,
  on_connection_state_change, offer_made, on_session, on_go_live_start, on_go_live_stop,
  on_ice_servers,
}
use together.GoLive.Broadcast.{
  answer_made, on_voice_signal, on_track, on_viewer_state_change, on_participants, capture,
  on_registered, stop_broadcast, disable,
}

-- What can happen to the hook, in any order; what a promise gives may come at any time.
module _ (my_user_id channel_id : String) where
  pub data Step : Live → Live → Type 0 where
    ice_servers :
        {l : Live} (cancelled : Bool) (reply : Outcome (List IceServer))
        → Step l (on_ice_servers cancelled reply l)
    session :
        {l : Live} (cancelled : Bool) (reply : Outcome GoLiveSession)
        → Step l (on_session cancelled reply l)
    goes_live : {l : Live} (event : GoLiveSession) → Step l (on_go_live_start channel_id event l)
    stops :
        {l : Live} (event : GoLiveStopEvent)
        → Step l (on_go_live_stop channel_id my_user_id event l)
    receives :
        {l : Live} (state : SignalingState) (msg : Incoming)
        → Step l (on_voice_signal my_user_id state msg l).0
    answers : {l : Live} (k : String) (sdp : Outcome String) → Step l (answer_made k sdp l)
    track : {l : Live} (remote_stream : Stream) → Step l (on_track remote_stream l)
    viewer_state :
        {l : Live} (failed_or_closed : Bool) → Step l (on_viewer_state_change failed_or_closed l)
    peer_state :
        {l : Live} (failed_or_closed : Bool) (k : String)
        → Step l (on_connection_state_change failed_or_closed k l)
    finds_candidate :
        {l : Live} (payload : Option String) (k : String) → Step l (on_ice_candidate payload k l)
    participants : {l : Live} (ids : List String) → Step l (on_participants my_user_id ids l)
    offers : {l : Live} (k : String) (sdp : Outcome String) → Step l (offer_made k sdp l)
    captures :
        {l : Live} (media : QualityConstraints → Outcome Stream) (quality : GoLiveQuality)
        → Step l (capture media quality l)
    registers :
        {l : Live} (ids : List String) (text : Option String) (s : Stream)
        (reply : Outcome GoLiveSession)
        → Step l (on_registered my_user_id ids text s reply l)
    broadcast_ends : {l : Live} → Step l (stop_broadcast l)
    leaves : {l : Live} → Step l (disable l)

  pub data Reach : Live → Live → Type 0 where
    here : {l : Live} → Reach l l
    then_step : {k l m : Live} → Reach k l → Step l m → Reach k m
