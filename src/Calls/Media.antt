-- ===== src/Calls/Media.antt =====
-- useWebRTC.ts: the effects that acquire and release the local microphone, camera and screen, and those of mute, push
-- to talk and deafen. `cancelled` says whether the effect has been cleaned up before the browser answered.
use together.Base.{
  ℕ, String, Bool, true, false, not, ◌&&◌, Option, none, some, List, [], ◌∷◌, ◌++◌, filter, eqb,
  if◌then◌else◌, any, Outcome, returned, thrown, Reply, ok, failed, map_where,
}
use together.Base.Dict.{Dict, map_values}
use together.IceCache.{IceServer}
use together.Calls.{
  Call, Track, Stream, Sender, AudioElement, Sound, is_audio, audio_tracks, video_tracks, sender_of,
  set_sender, without_connection, fail, report_speaking, stop_tracks, track_ids,
  stop_speaking_detector, detect_speaking, add_track,
}

unfoldable pub on_ice_servers : (cancelled : Bool) → Reply (List IceServer) → Call → Call
on_ice_servers cancelled (ok servers) c =
    if cancelled then c else record c { ice_servers = servers }
on_ice_servers cancelled (failed err) c = c

abbrev pub replace_track : ℕ → Track → List Sender → List Sender
replace_track sender_id t = map_where (λ x. eqb x.sender_id sender_id) (λ x. record x { track = t })

-- pc.getSenders().find((s) => s.track?.kind === "audio")
abbrev pub audio_sender : ℕ → List Sender → Option ℕ
audio_sender pc [] = none
audio_sender pc (x ∷ xs) =
    if eqb x.connection pc && is_audio x.track then some x.sender_id else audio_sender pc xs

-- A new microphone on the connections that are there. `replaces` says of which senders `replaceTrack` succeeds.
abbrev pub switch_audio : (replaces : ℕ → Bool) → Track → ℕ → Call → Call
switch_audio replaces t pc c = elim (audio_sender pc c.senders) [
  | none ↦ add_track pc t c
  | some sender ↦
      if replaces sender
      then record c { senders = replace_track sender t c.senders }
      else fail "Failed to switch microphone" c
]

abbrev pub on_all_peers : (ℕ → Call → Call) → Dict ℕ → Call → Call
on_all_peers f [] c = c
on_all_peers f ((_, pc) ∷ ps) c = on_all_peers f ps (f pc c)

abbrev pub with_first_track : (Track → Call → Call) → List Track → Call → Call
with_first_track f [] c = c
with_first_track f (t ∷ _) c = f t c

-- `const [track] = …`, for each connection
abbrev pub switch_all : (replaces : ℕ → Bool) → List Track → Call → Call
switch_all replaces ts c =
    with_first_track (λ t c'. on_all_peers (switch_audio replaces t) c'.peers c') ts c

-- If a microphone was there, it is stopped, and the connections get the new one.
abbrev pub reacquire : (replaces : ℕ → Bool) → Stream → Option Stream → Call → Call
reacquire replaces stream none c = c
reacquire replaces stream (some old) c =
    switch_all replaces (audio_tracks stream) (stop_tracks (some old) c)

unfoldable pub on_microphone :
    (replaces : ℕ → Bool)
    → Sound
    → (my_user_id : String) → (cancelled : Bool) → Outcome Stream
    → Call
    → Call
on_microphone replaces sound my_user_id true (returned stream) c = stop_tracks (some stream) c
on_microphone replaces sound my_user_id false (returned stream) c =
    let c' = reacquire replaces stream c.local_stream c in
    detect_speaking sound my_user_id (record c' { local_stream = some stream })
on_microphone replaces sound my_user_id cancelled (thrown err) c =
    fail "Microphone unavailable — joining in listen-only mode" c

-- The clean-up of that effect.
unfoldable pub release_microphone : String → Call → Call
unfolding stop_speaking_detector
release_microphone my_user_id c = report_speaking my_user_id false (
    stop_speaking_detector my_user_id
      (record (stop_tracks c.local_stream c) { local_stream = none }))

abbrev pub remove_sender : ℕ → Call → Call
remove_sender sender c = record c { senders = filter (λ x. not (eqb x.sender_id sender)) c.senders }

abbrev pub drop_camera : ℕ → Call → Call
drop_camera pc c = elim (sender_of pc c.camera_senders) [
  | none ↦ c
  | some sender ↦
      remove_sender sender (record c { camera_senders = without_connection pc c.camera_senders })
]

abbrev pub drop_screen : ℕ → Call → Call
drop_screen pc c = elim (sender_of pc c.screen_senders) [
  | none ↦ c
  | some sender ↦
      remove_sender sender (record c { screen_senders = without_connection pc c.screen_senders })
]

-- The effect with the camera off.
abbrev pub end_camera : Option Stream → Call → Call
end_camera none c = c
end_camera (some stream) c =
    let c' = record (stop_tracks (some stream) c) { local_video_stream = none } in
    on_all_peers drop_camera c'.peers c'

unfoldable pub release_camera : Call → Call
release_camera c = end_camera c.local_video_stream c

abbrev pub share_camera : Track → ℕ → Call → Call
share_camera t pc c =
    add_track pc t (record c { camera_senders = set_sender pc c.next_sender c.camera_senders })

abbrev pub share_screen : Track → ℕ → Call → Call
share_screen t pc c =
    add_track pc t (record c { screen_senders = set_sender pc c.next_sender c.screen_senders })

-- `toggles` says whether the store is asked to toggle the camera back, which it is where it counts it as on.
unfoldable pub on_camera : (cancelled is_camera_on : Bool) → Outcome Stream → Call → Call × Bool
on_camera true is_camera_on (returned stream) c = (stop_tracks (some stream) c, false)
on_camera false is_camera_on (returned stream) c =
    let c' = record c { local_video_stream = some stream } in
    (
      with_first_track (λ t d. on_all_peers (share_camera t) d.peers d) (video_tracks stream) c',
      false,
    )
on_camera cancelled is_camera_on (thrown err) c = (fail "Camera unavailable" c, is_camera_on)

-- Another camera, while one is on.
abbrev pub switch_camera : (replaces : ℕ → Bool) → Track → ℕ → Call → Call
switch_camera replaces t pc c = elim (sender_of pc c.camera_senders) [
  | none ↦ c
  | some sender ↦
      if replaces sender
      then record c { senders = replace_track sender t c.senders }
      else fail "Failed to switch camera device" c
]

unfoldable pub on_other_camera :
    (replaces : ℕ → Bool) → (cancelled : Bool) → Outcome Stream → Call → Call
on_other_camera replaces true (returned stream) c = stop_tracks (some stream) c
on_other_camera replaces false (returned stream) c =
    let c' = record (stop_tracks c.local_video_stream c) { local_video_stream = some stream } in
    with_first_track (λ t d. on_all_peers (switch_camera replaces t) d.peers d)
      (video_tracks stream) c'
on_other_camera replaces cancelled (thrown err) c = c

-- The effect with the screen off.
abbrev pub end_screen : Option Stream → Call → Call
end_screen none c = c
end_screen (some stream) c =
    let c' = record (stop_tracks (some stream) c) { local_screen_stream = none } in
    on_all_peers drop_screen c'.peers c'

unfoldable pub release_screen : Call → Call
release_screen c = end_screen c.local_screen_stream c

-- `not_supported` says whether the error's name is "NotSupportedError". The store is asked to toggle the screen
-- back where it counts it as on.
unfoldable pub on_screen :
    (cancelled not_supported is_screen_sharing : Bool) → Outcome Stream → Call → Call × Bool
on_screen true not_supported is_screen_sharing (returned stream) c =
    (stop_tracks (some stream) c, false)
on_screen false not_supported is_screen_sharing (returned stream) c =
    let c' = record c { local_screen_stream = some stream } in
    (
      with_first_track (λ t d. on_all_peers (share_screen t) d.peers d) (video_tracks stream) c',
      false,
    )
on_screen cancelled not_supported is_screen_sharing (thrown err) c = (
  if not_supported then fail "Screen sharing is not supported on this device" c else c,
  is_screen_sharing,
)

-- track.enabled = enabled
abbrev pub without_ids : List ℕ → List ℕ → List ℕ
without_ids ids = filter (λ d. not (any (eqb d) ids))

abbrev pub set_enabled : Bool → List Track → Call → Call
set_enabled true ts c = record c { disabled = without_ids (track_ids ts) c.disabled }
set_enabled false ts c = record c {
  disabled = track_ids ts ++ without_ids (track_ids ts) c.disabled;
}

abbrev pub mic_enabled : (ptt_mode is_ptt_active is_muted : Bool) → Bool
mic_enabled ptt_mode is_ptt_active is_muted =
    if ptt_mode then is_ptt_active && not is_muted else not is_muted

-- The effect of mute and push to talk.
abbrev pub gate : Bool → Option Stream → Call → Call
gate enabled none c = c
gate enabled (some stream) c = set_enabled enabled (audio_tracks stream) c

unfoldable pub gate_microphone : (ptt_mode is_ptt_active is_muted : Bool) → Call → Call
gate_microphone ptt_mode is_ptt_active is_muted c =
    gate (mic_enabled ptt_mode is_ptt_active is_muted) c.local_stream c

unfoldable pub report_ptt :
    (my_user_id : String) → (ptt_mode is_ptt_active is_muted : Bool) → Call → Call
report_ptt my_user_id ptt_mode is_ptt_active is_muted c =
    if ptt_mode then report_speaking my_user_id (is_ptt_active && not is_muted) c else c

-- The effect of deafen.
unfoldable pub deafen : Bool → Call → Call
deafen is_deafened c = record c {
  audio_elements =
      map_values (λ (a : AudioElement). record a { muted = is_deafened }) c.audio_elements;
}

-- The effect of another speaker, for elements that take a sink and accept this one.
unfoldable pub set_speaker : (accepts : AudioElement → Bool) → String → Call → Call
set_speaker accepts speaker_device_id c = record c {
  audio_elements =
      map_values
        (λ (a : AudioElement).
          if accepts a then record a { sink_id = some speaker_device_id } else a)
        c.audio_elements;
}
