-- ===== src/GoLive.antt =====
-- clients/web/src/hooks/useGoLive.ts: the hook's state and refs, with the part of the browser that it drives. Each
-- function is what the hook does from one await to the next, and what a promise gives is its argument.
pub mod Broadcast
pub mod Accounts
pub mod Steps
pub mod Reachable
pub mod Viewers
pub mod Offers
pub mod Mixed
use together.Base.{
  ℕ, ◌+◌, ◌-◌, String, Bool, true, false, not, ◌&&◌, ◌||◌, Option, none, some, List, [], ◌∷◌, ◌++◌,
  if◌then◌else◌, is_some, is_id, get_or, truthy, includes, ◌==◌, Outcome, returned, thrown, Failure,
  api_request_error, other_error,
}
use together.Base.Dict.{Dict, get, put, remove}
use together.IceCache.{IceServer}
use together.Calls.{
  Stream, Signal, SignalType, offer, answer, candidate, track_ids, add_id, delete_id,
}
use together.Calls.Signals.{SignalingState, have_local_offer, Incoming}

pub data GoLiveQuality : Type 0 where
  low_480p medium_720p high_1080p : GoLiveQuality

pub record GoLiveSession : Type 0 where
  pub channel_id : String
  pub broadcaster_id : String
  pub quality : GoLiveQuality
  pub started_at : String

pub record GoLiveStopEvent : Type 0 where
  pub channel_id : String
  pub broadcaster_id : String

pub record QualityConstraints : Type 0 where
  pub width : ℕ
  pub height : ℕ
  pub frame_rate : ℕ

abbrev pub quality_map : GoLiveQuality → QualityConstraints
quality_map low_480p = record { width = 854; height = 480; frame_rate = 15 }
quality_map medium_720p = record { width = 1280; height = 720; frame_rate = 30 }
quality_map high_1080p = record { width = 1920; height = 1080; frame_rate = 30 }

pub record Live : Type 0 where
  pub active_session : Option GoLiveSession
  pub viewer_stream : Option Stream
  pub go_live_peers : Dict ℕ
  pub display_stream : Option Stream
  pub offered_go_live_peers : List String
  pub ice_servers : List IceServer
  -- the browser: how many connections were made, which of them answer an offer, which were closed, and the tracks
  -- that were stopped
  pub made : ℕ
  pub answering : List ℕ
  pub closed : List ℕ
  pub stopped : List ℕ
  -- what was sent, and the calls of onError
  pub sent : List Signal
  pub errors : List String

abbrev pub no_live : Live
no_live = record {
  active_session = none;
  viewer_stream = none;
  go_live_peers = [];
  display_stream = none;
  offered_go_live_peers = [];
  ice_servers = [];
  made = 0;
  answering = [];
  closed = [];
  stopped = [];
  sent = [];
  errors = [];
}

abbrev pub broadcaster_of : Option GoLiveSession → Option String
broadcaster_of none = none
broadcaster_of (some session) = some session.broadcaster_id

abbrev pub is_broadcasting : (my_user_id : String) → Live → Bool
is_broadcasting my_user_id l =
    is_id (broadcaster_of l.active_session) my_user_id && is_some l.display_stream

-- Math.max(0, participants.length - 1), where the subtraction on ℕ stops at 0 by itself.
abbrev pub viewer_count : (participants : ℕ) → Live → ℕ
viewer_count participants l = if is_some l.active_session then participants - 1 else 0

abbrev pub on_ice_servers : (cancelled : Bool) → Outcome (List IceServer) → Live → Live
on_ice_servers cancelled (thrown err) l = l
on_ice_servers cancelled (returned servers) l =
    if cancelled then l else record l { ice_servers = servers }

abbrev pub report : String → Live → Live
report message l = record l { errors = l.errors ++ message ∷ [] }

abbrev pub signal : String → SignalType → String → Live → Live
signal to type payload l = record l {
  sent = l.sent ++ record { to_user_id = to; type = type; payload = payload; go_live = true } ∷ [];
}

abbrev pub close_found : String → Option ℕ → Live → Live
close_found peer_id none l = l
close_found peer_id (some pc) l = record l {
  closed = pc ∷ l.closed;
  go_live_peers = remove l.go_live_peers peer_id;
}

unfoldable pub close_go_live_peer : String → Live → Live
close_go_live_peer peer_id l =
    let l' = close_found peer_id (get l.go_live_peers peer_id) l in
    record l' { offered_go_live_peers = delete_id peer_id l'.offered_go_live_peers }

-- The connection that is there stays; the tracks that a new one sends are those of the display stream.
abbrev pub existing_or_new : String → Option ℕ → Live → Live
existing_or_new peer_id (some pc) l = l
existing_or_new peer_id none l = record l {
  go_live_peers = put l.go_live_peers peer_id l.made;
  made = l.made + 1;
}

unfoldable pub create_go_live_peer : String → Live → Live
create_go_live_peer peer_id l = existing_or_new peer_id (get l.go_live_peers peer_id) l

unfoldable pub on_ice_candidate : Option String → String → Live → Live
on_ice_candidate none peer_id l = l
on_ice_candidate (some payload) peer_id l = signal peer_id candidate payload l

-- For a connection of the broadcaster.
unfoldable pub on_connection_state_change : (failed_or_closed : Bool) → String → Live → Live
unfolding close_go_live_peer
on_connection_state_change failed_or_closed peer_id l =
    if failed_or_closed then close_go_live_peer peer_id l else l

-- `sendGoLiveOffer` until it awaits the browser, and after that.
unfoldable pub send_go_live_offer : String → Live → Live
unfolding create_go_live_peer
send_go_live_offer peer_id l =
    if includes l.offered_go_live_peers peer_id
    then l
    else create_go_live_peer peer_id
        (record l { offered_go_live_peers = add_id peer_id l.offered_go_live_peers })

unfoldable pub offer_made : String → Outcome String → Live → Live
offer_made peer_id (returned sdp) l = signal peer_id offer sdp l
offer_made peer_id (thrown err) l = report "Failed to connect to a viewer" l

-- What comes of `api.getGoLive`; an error is taken for no session.
abbrev pub session_or_none : Outcome GoLiveSession → Option GoLiveSession
session_or_none (returned session) = some session
session_or_none (thrown err) = none

unfoldable pub on_session : (cancelled : Bool) → Outcome GoLiveSession → Live → Live
on_session cancelled reply l =
    if cancelled then l else record l { active_session = session_or_none reply }

-- GO_LIVE_START carries the fields of a session.
unfoldable pub on_go_live_start : (channel_id : String) → GoLiveSession → Live → Live
on_go_live_start channel_id event l =
    if event.channel_id == channel_id then record l { active_session = some event } else l

unfoldable pub on_go_live_stop : (channel_id my_user_id : String) → GoLiveStopEvent → Live → Live
on_go_live_stop channel_id my_user_id event l =
    if event.channel_id == channel_id
    then record l {
      active_session = none;
      viewer_stream = if not (event.broadcaster_id == my_user_id) then none else l.viewer_stream;
    }
    else l
