-- ===== src/Calls.antt =====
-- clients/web/src/hooks/useWebRTC.ts: the refs of the hook, with the part of the browser that it drives. A connection is
-- its number in the order of `new RTCPeerConnection`. What a promise of the browser gives is an argument, and `meanwhile`
-- is all that happens while it is awaited. Hints on the content of tracks are left out.
pub mod Media
pub mod Signals
pub mod Detector
pub mod Steps
pub mod Keeping
pub mod Leaks
pub mod Stability
pub mod Reachable
pub mod HotMic
use together.Base.{
  ℕ, ◌+◌, String, Bool, true, false, not, ◌&&◌, Option, none, some, List, [], ◌∷◌, ◌++◌, filter,
  eqb, ◌||◌, if◌then◌else◌, is_some, get_or, truthy, includes, ◌==◌, find, or_else,
}
use together.Base.Dict.{Dict, get, put, remove}
use together.IceCache.{IceServer}

pub data TrackKind : Type 0 where
  audio video : TrackKind

pub record Track : Type 0 where
  pub id : ℕ
  pub kind : TrackKind

pub record Stream : Type 0 where
  pub stream_id : ℕ
  pub tracks : List Track

abbrev pub is_audio : Track → Bool
is_audio t = elim t.kind [ audio ↦ true | video ↦ false ]

-- stream.getAudioTracks() and stream.getVideoTracks()
abbrev pub audio_tracks : Stream → List Track
audio_tracks s = filter is_audio s.tracks

abbrev pub video_tracks : Stream → List Track
video_tracks s = filter (λ t. not (is_audio t)) s.tracks

-- A sender of a connection.
pub record Sender : Type 0 where
  pub sender_id : ℕ
  pub connection : ℕ
  pub track : Track

pub record AudioElement : Type 0 where
  pub src_object : Option Stream
  pub muted : Bool
  pub sink_id : Option String

pub record RemoteStreams : Type 0 where
  pub camera : Option Stream
  pub screen : Option Stream
  pub username : String

pub data SignalType : Type 0 where
  offer answer candidate : SignalType

-- What goes out by `gateway.sendVoiceSignal`.
pub record Signal : Type 0 where
  pub to_user_id : String
  pub type : SignalType
  pub payload : String
  pub go_live : Bool

pub record Call : Type 0 where
  pub peers : Dict ℕ
  pub local_stream : Option Stream
  pub audio_elements : Dict AudioElement
  pub offered_peers : List String
  pub speaking_stop : Dict ℕ
  pub ice_servers : List IceServer
  pub has_audio_ctx : Bool
  pub local_video_stream : Option Stream
  pub local_screen_stream : Option Stream
  pub remote_video_streams : Dict RemoteStreams
  pub screen_senders : List (ℕ × ℕ)
  pub camera_senders : List (ℕ × ℕ)
  pub initial_negotiation_done : List String
  -- the browser: how many connections were made and which were closed, what they send, the tracks that were
  -- stopped and those that are disabled, and the detectors that run
  pub made : ℕ
  pub closed : List ℕ
  pub senders : List Sender
  pub next_sender : ℕ
  pub stopped : List ℕ
  pub disabled : List ℕ
  pub detectors : List ℕ
  pub next_detector : ℕ
  -- what was sent, and the calls of onSpeakingChange and onError
  pub sent : List Signal
  pub speaking : List (String × Bool)
  pub errors : List String

abbrev pub fresh : Call
fresh = record {
  peers = [];
  local_stream = none;
  audio_elements = [];
  offered_peers = [];
  speaking_stop = [];
  ice_servers = [];
  has_audio_ctx = false;
  local_video_stream = none;
  local_screen_stream = none;
  remote_video_streams = [];
  screen_senders = [];
  camera_senders = [];
  initial_negotiation_done = [];
  made = 0;
  closed = [];
  senders = [];
  next_sender = 0;
  stopped = [];
  disabled = [];
  detectors = [];
  next_detector = 0;
  sent = [];
  speaking = [];
  errors = [];
}

-- A Map or a Set: by the number of a connection, and of ids.
abbrev pub sender_of : ℕ → List (ℕ × ℕ) → Option ℕ
sender_of pc [] = none
sender_of pc ((p, s) ∷ m) = if eqb p pc then some s else sender_of pc m

abbrev pub without_connection : ℕ → List (ℕ × ℕ) → List (ℕ × ℕ)
without_connection pc = filter (λ e. not (eqb e.0 pc))

abbrev pub set_sender : ℕ → ℕ → List (ℕ × ℕ) → List (ℕ × ℕ)
set_sender pc s m = (pc, s) ∷ without_connection pc m

abbrev pub add_id : String → List String → List String
add_id k ks = if includes ks k then ks else ks ++ k ∷ []

abbrev pub delete_id : String → List String → List String
delete_id k = filter (λ j. not (j == k))

abbrev pub fail : String → Call → Call
fail message c = record c { errors = c.errors ++ message ∷ [] }

abbrev pub report_speaking : String → Bool → Call → Call
report_speaking user_id is_speaking c = record c {
  speaking = c.speaking ++ (user_id, is_speaking) ∷ [];
}

abbrev pub track_ids : List Track → List ℕ
track_ids [] = []
track_ids (t ∷ ts) = t.id ∷ track_ids ts

-- stream.getTracks().forEach((t) => t.stop())
abbrev pub stop_tracks : Option Stream → Call → Call
stop_tracks none c = c
stop_tracks (some s) c = record c { stopped = c.stopped ++ track_ids s.tracks }

abbrev pub stop_running : Option ℕ → List ℕ → List ℕ
stop_running none running = running
stop_running (some d) running = filter (λ e. not (eqb e d)) running

unfoldable pub stop_speaking_detector : String → Call → Call
stop_speaking_detector user_id c = record c {
  detectors = stop_running (get c.speaking_stop user_id) c.detectors;
  speaking_stop = remove c.speaking_stop user_id;
}

-- `stop` is what `startSpeakingDetector` gives back; where it fails inside it gives back a function that does nothing,
-- and no detector runs.
unfoldable pub start_detector : (user_id : String) (works : Bool) → Call → Call
start_detector user_id works c = record c {
  detectors = if works then c.next_detector ∷ c.detectors else c.detectors;
  speaking_stop = put c.speaking_stop user_id c.next_detector;
  next_detector = c.next_detector + 1;
}

abbrev pub close_connection : Option ℕ → Call → Call
close_connection none c = c
close_connection (some pc) c = record c {
  closed = pc ∷ c.closed;
  screen_senders = without_connection pc c.screen_senders;
  camera_senders = without_connection pc c.camera_senders;
}

-- What is forgotten of a peer, whose connection may be gone already.
abbrev pub forget_peer : String → Option ℕ → Call → Call
forget_peer peer_id pc c =
    let c' = close_connection pc (record c {
      peers = remove c.peers peer_id;
      audio_elements = remove c.audio_elements peer_id;
    }) in
    let c'' = report_speaking peer_id false (stop_speaking_detector peer_id c') in
    record c'' {
      remote_video_streams = remove c''.remote_video_streams peer_id;
      initial_negotiation_done = delete_id peer_id c''.initial_negotiation_done;
    }

unfoldable pub close_peer : String → Call → Call
unfolding stop_speaking_detector
close_peer peer_id c = forget_peer peer_id (get c.peers peer_id) c

-- How `audioCtxRef.current ??= new AudioContext()` and the detector come out.
pub record Sound : Type 0 where
  pub context_available : Bool
  pub detector_works : Bool

-- The detector of a stream, where there is an AudioContext or one can be made.
unfoldable pub detect_speaking : Sound → String → Call → Call
unfolding start_detector stop_speaking_detector
detect_speaking sound user_id c =
    let c' = stop_speaking_detector user_id c in
    if c'.has_audio_ctx || sound.context_available
    then start_detector user_id sound.detector_works (record c' { has_audio_ctx = true })
    else c'

-- An audio element is made with the chosen speaker as its sink, where there is one.
abbrev pub element_for : (speaker_device_id : Option String) → Option AudioElement → AudioElement
element_for speaker_device_id (some found) = found
element_for speaker_device_id none = record {
  src_object = none;
  muted = false;
  sink_id = if truthy speaker_device_id then speaker_device_id else none;
}

unfoldable pub play_remote_stream :
    (speaker_device_id : Option String) → Sound → String → Stream → Call → Call
unfolding detect_speaking
play_remote_stream speaker_device_id sound peer_id stream c =
    let element = element_for speaker_device_id (get c.audio_elements peer_id) in
    detect_speaking sound peer_id (record c {
      audio_elements = put c.audio_elements peer_id (record element { src_object = some stream });
    })

-- pc.addTrack(track, stream)
abbrev pub add_track : ℕ → Track → Call → Call
add_track pc t c = record c {
  senders = c.senders ++ record { sender_id = c.next_sender; connection = pc; track = t } ∷ [];
  next_sender = c.next_sender + 1;
}

abbrev pub add_tracks : ℕ → List Track → Call → Call
add_tracks pc [] c = c
add_tracks pc (t ∷ ts) c = add_tracks pc ts (add_track pc t c)

-- The first of the tracks is the camera's, and its sender is kept.
abbrev pub add_camera : ℕ → List Track → Call → Call
add_camera pc [] c = c
add_camera pc (t ∷ _) c =
    add_track pc t (record c { camera_senders = set_sender pc c.next_sender c.camera_senders })

abbrev pub add_screen : ℕ → List Track → Call → Call
add_screen pc [] c = c
add_screen pc (t ∷ _) c =
    add_track pc t (record c { screen_senders = set_sender pc c.next_sender c.screen_senders })

abbrev pub audio_of : Option Stream → List Track
audio_of none = []
audio_of (some s) = audio_tracks s

abbrev pub video_of : Option Stream → List Track
video_of none = []
video_of (some s) = video_tracks s

abbrev pub new_peer : String → Option Stream → Call → Call
new_peer peer_id local_stream c =
    let pc = c.made in
    let c' =
      add_tracks pc (audio_of local_stream)
        (record c { peers = put c.peers peer_id pc; made = pc + 1 }) in
    let c'' = add_camera pc (video_of c'.local_video_stream) c' in
    add_screen pc (video_of c''.local_screen_stream) c''

-- The connection that is there, or a new one with the tracks that are there to send.
abbrev pub existing_or_new : String → Option Stream → Call → Option ℕ → ℕ × Call
existing_or_new peer_id local_stream c (some pc) = (pc, c)
existing_or_new peer_id local_stream c none = (c.made, new_peer peer_id local_stream c)

unfoldable pub create_peer : String → Option Stream → Call → ℕ × Call
create_peer peer_id local_stream c = existing_or_new peer_id local_stream c (get c.peers peer_id)
