-- ===== src/Calls/HotMic.antt =====
-- useWebRTC.ts: what the effects of mute, push to talk and deafen miss. They run when their settings change, and not when
-- a microphone or a peer comes.
use together.Base.{
  ℕ, ◌≡◌, refl, ap, ◌∙◌, String, Bool, true, false, not, Option, none, some, List, [], ◌∷◌, eqb,
  any, all, arith, returned,
}
use together.Base.Dict.{map_values, Dict, get, put, get-put_self, get-map_values}
use mathlib.Core.Option
use together.Calls.{
  element_for, Call, Stream, Track, Sound, AudioElement, audio_tracks, stop_tracks, detect_speaking,
  start_detector, stop_speaking_detector, play_remote_stream,
}
use together.Calls.Media.{
  on_microphone, reacquire, switch_all, switch_audio, on_all_peers, gate_microphone, mic_enabled,
  deafen,
}

-- No audio track of the stream is disabled.
abbrev pub is_open : Stream → Call → Bool
is_open stream c = all (λ t. not (any (eqb t.id) c.disabled)) (audio_tracks stream)

on_all_peers-disabled :
    (replaces : ℕ → Bool) (t : Track) (ps : Dict ℕ) (c : Call)
    → (on_all_peers (switch_audio replaces t) ps c).disabled ≡ c.disabled
on_all_peers-disabled replaces t [] c = refl
on_all_peers-disabled replaces t ((_, pc) ∷ ps) c =
    on_all_peers-disabled replaces t ps (switch_audio replaces t pc c) ∙ ground arith

switch_all-disabled :
    (replaces : ℕ → Bool) (ts : List Track) (c : Call)
    → (switch_all replaces ts c).disabled ≡ c.disabled
switch_all-disabled replaces [] c = refl
switch_all-disabled replaces (t ∷ ts) c = on_all_peers-disabled replaces t c.peers c

reacquire-disabled :
    (replaces : ℕ → Bool) (stream : Stream) (old : Option Stream) (c : Call)
    → (reacquire replaces stream old c).disabled ≡ c.disabled
reacquire-disabled replaces stream none c = refl
reacquire-disabled replaces stream (some old) c =
    switch_all-disabled replaces (audio_tracks stream) (stop_tracks (some old) c)

detect_speaking-keeps :
    (sound : Sound) (k : String) (c : Call)
    → ((detect_speaking sound k c).disabled ≡ c.disabled)
      × ((detect_speaking sound k c).local_stream ≡ c.local_stream)
      × ((detect_speaking sound k c).audio_elements ≡ c.audio_elements)
unfolding detect_speaking start_detector stop_speaking_detector
detect_speaking-keeps sound k c = (ground arith, ground arith, ground arith)

-- A microphone that comes while the user is muted, or does not hold the key of push to talk, is open: its tracks, which
-- no effect has disabled, become the local stream as they are.
pub new_microphone_is_open :
    (ptt_mode is_ptt_active is_muted : Bool) (replaces : ℕ → Bool) (sound : Sound) (me : String)
    (stream : Stream) (c : Call)
    → mic_enabled ptt_mode is_ptt_active is_muted ≡ false
    → is_open stream (gate_microphone ptt_mode is_ptt_active is_muted c) ≡ true
    → let gated = gate_microphone ptt_mode is_ptt_active is_muted c in
      let d = on_microphone replaces sound me false (returned stream) gated in
      (d.local_stream ≡ some stream) × (is_open stream d ≡ true)
unfolding on_microphone
new_microphone_is_open ptt_mode is_ptt_active is_muted replaces sound me stream c silent
      fresh_tracks =
    let gated = gate_microphone ptt_mode is_ptt_active is_muted c in
    let c' = record (reacquire replaces stream gated.local_stream gated) {
      local_stream = some stream;
    } in
    let kept = detect_speaking-keeps sound me c' in
    (
      kept.1,
      ap (λ ds. all (λ t. not (any (eqb t.id) ds)) (audio_tracks stream))
            (kept.0 ∙ reacquire-disabled replaces stream gated.local_stream gated)
          ∙ fresh_tracks,
    )

-- A peer that is first heard while the user is deafened is not muted.
pub deafened_hears_newcomer :
    (speaker_device_id : Option String) (sound : Sound) (peer_id : String) (stream : Stream)
    (c : Call)
    → get c.audio_elements peer_id ≡ none
    → (a : AudioElement) × (get
          (play_remote_stream speaker_device_id sound peer_id stream (deafen true c)).audio_elements
          peer_id
        ≡ some a)
      × (a.src_object ≡ some stream)
      × (a.muted ≡ false)
unfolding play_remote_stream deafen
deafened_hears_newcomer speaker_device_id sound peer_id stream c h =
    let mute = λ (a : AudioElement). record a { muted = true } in
    let elements = map_values mute c.audio_elements in
    let playing = λ (found : Option AudioElement). record (element_for speaker_device_id found) {
      src_object = some stream;
    } in
    let put_there = put elements peer_id (playing (get elements peer_id)) in
    let absent : get elements peer_id ≡ none =
      get-map_values mute c.audio_elements peer_id ∙ ap (Option.map mute) h in
    (
      playing none,
      ap (λ d. get d peer_id)
            (detect_speaking-keeps sound peer_id (record c { audio_elements = put_there })).2
          ∙ get-put_self elements peer_id (playing (get elements peer_id))
          ∙ ap (λ o. some (playing o)) absent,
      refl,
      refl,
    )
