-- ===== src/Calls/Keeping.antt =====
-- useWebRTC.ts: what leaves the connections and the offers alone.
use together.Base.{
  ℕ, ◌≡◌, refl, ◌∙◌, String, Bool, true, false, Option, none, some, List, [], ◌∷◌, Outcome,
  returned, thrown, Reply, ok, failed, arith,
}
use together.Base.Dict.{Dict}
use together.IceCache.{IceServer}
use together.Calls.{
  Call, AudioElement, Sound, Stream, Track, stop_tracks, add_track, add_tracks, add_camera,
  add_screen, detect_speaking, start_detector, stop_speaking_detector, play_remote_stream,
  audio_tracks, video_tracks,
}
use together.Calls.Media.{
  on_ice_servers, on_microphone, release_microphone, on_camera, release_camera, on_other_camera,
  on_screen, release_screen, gate_microphone, report_ptt, deafen, set_speaker, on_all_peers,
  with_first_track, switch_audio, switch_camera, drop_camera, drop_screen, share_camera,
  share_screen, mic_enabled, reacquire, end_camera, end_screen, gate,
}
use together.Calls.Signals.{on_ice_candidate, on_audio_track, on_video_track}

abbrev pub Leaves : Call → Call → Type 0
Leaves c d =
    (d.peers ≡ c.peers)
    × (d.made ≡ c.made)
    × (d.closed ≡ c.closed)
    × (d.offered_peers ≡ c.offered_peers)

pub Leaves-after : (c d e : Call) → Leaves c d → Leaves d e → Leaves c e
Leaves-after c d e (p, m, k, o) (p', m', k', o') = (p' ∙ p, m' ∙ m, k' ∙ k, o' ∙ o)

pub add_tracks-Leaves : (pc : ℕ) (ts : List Track) (c : Call) → Leaves c (add_tracks pc ts c)
add_tracks-Leaves pc [] c = (refl, refl, refl, refl)
add_tracks-Leaves pc (t ∷ ts) c = add_tracks-Leaves pc ts (add_track pc t c)

pub add_camera-Leaves : (pc : ℕ) (ts : List Track) (c : Call) → Leaves c (add_camera pc ts c)
add_camera-Leaves pc [] c = (refl, refl, refl, refl)
add_camera-Leaves pc (t ∷ ts) c = (refl, refl, refl, refl)

pub add_screen-Leaves : (pc : ℕ) (ts : List Track) (c : Call) → Leaves c (add_screen pc ts c)
add_screen-Leaves pc [] c = (refl, refl, refl, refl)
add_screen-Leaves pc (t ∷ ts) c = (refl, refl, refl, refl)

pub stop_tracks-Leaves : (s : Option Stream) (c : Call) → Leaves c (stop_tracks s c)
stop_tracks-Leaves none c = (refl, refl, refl, refl)
stop_tracks-Leaves (some s) c = (refl, refl, refl, refl)

detect_speaking-Leaves :
    (sound : Sound) (k : String) (c : Call) → Leaves c (detect_speaking sound k c)
unfolding detect_speaking start_detector stop_speaking_detector
detect_speaking-Leaves sound k c = (ground arith, ground arith, ground arith, ground arith)

on_all_peers-Leaves :
    (f : ℕ → Call → Call)
    → ((pc : ℕ) (c : Call) → Leaves c (f pc c))
    → (ps : Dict ℕ) (c : Call) → Leaves c (on_all_peers f ps c)
on_all_peers-Leaves f h [] c = (refl, refl, refl, refl)
on_all_peers-Leaves f h ((_, pc) ∷ ps) c =
    Leaves-after c (f pc c) (on_all_peers f ps (f pc c)) (h pc c)
      (on_all_peers-Leaves f h ps (f pc c))

-- For the first track, on each connection.
first_on_all-Leaves :
    (f : Track → ℕ → Call → Call)
    → ((t : Track) (pc : ℕ) (c : Call) → Leaves c (f t pc c))
    → (ts : List Track) (c : Call)
    → Leaves c (with_first_track (λ t d. on_all_peers (f t) d.peers d) ts c)
first_on_all-Leaves f h [] c = (refl, refl, refl, refl)
first_on_all-Leaves f h (t ∷ ts) c = on_all_peers-Leaves (f t) (h t) c.peers c

switch_audio-Leaves :
    (replaces : ℕ → Bool) (t : Track) (pc : ℕ) (c : Call) → Leaves c (switch_audio replaces t pc c)
switch_audio-Leaves replaces t pc c = (ground arith, ground arith, ground arith, ground arith)

switch_camera-Leaves :
    (replaces : ℕ → Bool) (t : Track) (pc : ℕ) (c : Call) → Leaves c (switch_camera replaces t pc c)
switch_camera-Leaves replaces t pc c = (ground arith, ground arith, ground arith, ground arith)

drop_camera-Leaves : (pc : ℕ) (c : Call) → Leaves c (drop_camera pc c)
drop_camera-Leaves pc c = (ground arith, ground arith, ground arith, ground arith)

drop_screen-Leaves : (pc : ℕ) (c : Call) → Leaves c (drop_screen pc c)
drop_screen-Leaves pc c = (ground arith, ground arith, ground arith, ground arith)

pub on_ice_servers-Leaves :
    (cancelled : Bool) (reply : Reply (List IceServer)) (c : Call)
    → Leaves c (on_ice_servers cancelled reply c)
unfolding on_ice_servers
on_ice_servers-Leaves true (ok servers) c = (refl, refl, refl, refl)
on_ice_servers-Leaves false (ok servers) c = (refl, refl, refl, refl)
on_ice_servers-Leaves cancelled (failed err) c = (refl, refl, refl, refl)

reacquire-Leaves :
    (replaces : ℕ → Bool) (stream : Stream) (old : Option Stream) (c : Call)
    → Leaves c (reacquire replaces stream old c)
reacquire-Leaves replaces stream none c = (refl, refl, refl, refl)
reacquire-Leaves replaces stream (some old) c =
    first_on_all-Leaves (switch_audio replaces) (switch_audio-Leaves replaces) (audio_tracks stream)
      (stop_tracks (some old) c)

pub on_microphone-Leaves :
    (replaces : ℕ → Bool) (sound : Sound) (me : String) (cancelled : Bool) (stream : Outcome Stream)
    (c : Call)
    → Leaves c (on_microphone replaces sound me cancelled stream c)
unfolding on_microphone
on_microphone-Leaves replaces sound me true (returned stream) c = (refl, refl, refl, refl)
on_microphone-Leaves replaces sound me true (thrown err) c = (refl, refl, refl, refl)
on_microphone-Leaves replaces sound me false (thrown err) c = (refl, refl, refl, refl)
on_microphone-Leaves replaces sound me false (returned stream) c =
    let c' = reacquire replaces stream c.local_stream c in
    let d = record c' { local_stream = some stream } in
    Leaves-after c c' (detect_speaking sound me d)
      (reacquire-Leaves replaces stream c.local_stream c) (detect_speaking-Leaves sound me d)

pub release_microphone-Leaves : (me : String) (c : Call) → Leaves c (release_microphone me c)
unfolding release_microphone stop_speaking_detector
release_microphone-Leaves me c = stop_tracks-Leaves c.local_stream c

end_camera-Leaves : (s : Option Stream) (c : Call) → Leaves c (end_camera s c)
end_camera-Leaves none c = (refl, refl, refl, refl)
end_camera-Leaves (some s) c =
    on_all_peers-Leaves drop_camera drop_camera-Leaves c.peers
      (record (stop_tracks (some s) c) { local_video_stream = none })

end_screen-Leaves : (s : Option Stream) (c : Call) → Leaves c (end_screen s c)
end_screen-Leaves none c = (refl, refl, refl, refl)
end_screen-Leaves (some s) c =
    on_all_peers-Leaves drop_screen drop_screen-Leaves c.peers
      (record (stop_tracks (some s) c) { local_screen_stream = none })

pub release_camera-Leaves : (c : Call) → Leaves c (release_camera c)
unfolding release_camera
release_camera-Leaves c = end_camera-Leaves c.local_video_stream c

pub release_screen-Leaves : (c : Call) → Leaves c (release_screen c)
unfolding release_screen
release_screen-Leaves c = end_screen-Leaves c.local_screen_stream c

pub on_camera-Leaves :
    (cancelled on : Bool) (stream : Outcome Stream) (c : Call)
    → Leaves c (on_camera cancelled on stream c).0
unfolding on_camera
on_camera-Leaves true on (returned stream) c = (refl, refl, refl, refl)
on_camera-Leaves true on (thrown err) c = (refl, refl, refl, refl)
on_camera-Leaves false on (thrown err) c = (refl, refl, refl, refl)
on_camera-Leaves false on (returned stream) c =
    first_on_all-Leaves share_camera (λ t pc d. (refl, refl, refl, refl)) (video_tracks stream)
      (record c { local_video_stream = some stream })

pub on_screen-Leaves :
    (cancelled not_supported on : Bool) (stream : Outcome Stream) (c : Call)
    → Leaves c (on_screen cancelled not_supported on stream c).0
unfolding on_screen
on_screen-Leaves true not_supported on (returned stream) c = (refl, refl, refl, refl)
on_screen-Leaves false not_supported on (returned stream) c =
    first_on_all-Leaves share_screen (λ t pc d. (refl, refl, refl, refl)) (video_tracks stream)
      (record c { local_screen_stream = some stream })
on_screen-Leaves true true on (thrown err) c = (refl, refl, refl, refl)
on_screen-Leaves true false on (thrown err) c = (refl, refl, refl, refl)
on_screen-Leaves false true on (thrown err) c = (refl, refl, refl, refl)
on_screen-Leaves false false on (thrown err) c = (refl, refl, refl, refl)

pub on_other_camera-Leaves :
    (replaces : ℕ → Bool) (cancelled : Bool) (stream : Outcome Stream) (c : Call)
    → Leaves c (on_other_camera replaces cancelled stream c)
unfolding on_other_camera
on_other_camera-Leaves replaces true (returned stream) c = (refl, refl, refl, refl)
on_other_camera-Leaves replaces true (thrown err) c = (refl, refl, refl, refl)
on_other_camera-Leaves replaces false (thrown err) c = (refl, refl, refl, refl)
on_other_camera-Leaves replaces false (returned stream) c =
    let c' = stop_tracks c.local_video_stream c in
    let d = record c' { local_video_stream = some stream } in
    Leaves-after c c'
      (with_first_track (λ t e. on_all_peers (switch_camera replaces t) e.peers e)
        (video_tracks stream) d)
      (stop_tracks-Leaves c.local_video_stream c)
      (first_on_all-Leaves (switch_camera replaces) (switch_camera-Leaves replaces)
        (video_tracks stream) d)

gate-Leaves : (enabled : Bool) (s : Option Stream) (c : Call) → Leaves c (gate enabled s c)
gate-Leaves enabled none c = (refl, refl, refl, refl)
gate-Leaves true (some s) c = (refl, refl, refl, refl)
gate-Leaves false (some s) c = (refl, refl, refl, refl)

pub gate_microphone-Leaves :
    (ptt active muted : Bool) (c : Call) → Leaves c (gate_microphone ptt active muted c)
unfolding gate_microphone
gate_microphone-Leaves ptt active muted c =
    gate-Leaves (mic_enabled ptt active muted) c.local_stream c

pub report_ptt-Leaves :
    (me : String) (ptt active muted : Bool) (c : Call) → Leaves c (report_ptt me ptt active muted c)
unfolding report_ptt
report_ptt-Leaves me true active muted c = (refl, refl, refl, refl)
report_ptt-Leaves me false active muted c = (refl, refl, refl, refl)

pub on_ice_candidate-Leaves :
    (payload : Option String) (k : String) (c : Call) → Leaves c (on_ice_candidate payload k c)
unfolding on_ice_candidate
on_ice_candidate-Leaves none k c = (refl, refl, refl, refl)
on_ice_candidate-Leaves (some text) k c = (refl, refl, refl, refl)

pub on_audio_track-Leaves :
    (speaker : Option String) (sound : Sound) (stream : Stream) (k : String) (c : Call)
    → Leaves c (on_audio_track speaker sound stream k c)
unfolding on_audio_track play_remote_stream
on_audio_track-Leaves speaker sound stream k c = detect_speaking-Leaves sound k _

pub on_video_track-Leaves :
    (is_screen : Bool) (username : Option String) (stream : Stream) (k : String) (c : Call)
    → Leaves c (on_video_track is_screen username stream k c)
unfolding on_video_track
on_video_track-Leaves is_screen username stream k c = (refl, refl, refl, refl)

pub deafen-Leaves : (is_deafened : Bool) (c : Call) → Leaves c (deafen is_deafened c)
unfolding deafen
deafen-Leaves is_deafened c = (refl, refl, refl, refl)

pub set_speaker-Leaves :
    (accepts : AudioElement → Bool) (device : String) (c : Call)
    → Leaves c (set_speaker accepts device c)
unfolding set_speaker
set_speaker-Leaves accepts device c = (refl, refl, refl, refl)
