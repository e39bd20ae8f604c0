-- ===== src/Calls/Steps.antt =====
-- useWebRTC.ts: what can happen to the hook, in any order. Where a handler awaits the browser, any steps may come before it
-- goes on.
use together.Base.{ℕ, String, Bool, Option, List, Outcome, Reply}
use together.IceCache.{IceServer}
use together.Calls.{Call, AudioElement, Sound, Stream}
use together.Calls.Media.{
  on_ice_servers, on_microphone, release_microphone, on_camera, release_camera, on_other_camera,
  on_screen, release_screen, gate_microphone, report_ptt, deafen, set_speaker,
}
use together.Calls.Signals.{
  SignalingState, Incoming, on_connection_state_change, on_ice_candidate, on_negotiation_needed,
  offer_to, on_voice_signal, on_audio_track, on_video_track, close_absent,
}

module _ (my_user_id : String) where
  mutual
    pub data Step : Call → Call → Type 0 where
      ice_servers :
          {c : Call} (cancelled : Bool) (reply : Reply (List IceServer))
          → Step c (on_ice_servers cancelled reply c)
      microphone :
          {c : Call} (replaces : ℕ → Bool) (sound : Sound) (cancelled : Bool)
          (stream : Outcome Stream)
          → Step c (on_microphone replaces sound my_user_id cancelled stream c)
      no_microphone : {c : Call} → Step c (release_microphone my_user_id c)
      camera :
          {c : Call} (cancelled is_camera_on : Bool) (stream : Outcome Stream)
          → Step c (on_camera cancelled is_camera_on stream c).0
      no_camera : {c : Call} → Step c (release_camera c)
      other_camera :
          {c : Call} (replaces : ℕ → Bool) (cancelled : Bool) (stream : Outcome Stream)
          → Step c (on_other_camera replaces cancelled stream c)
      screen :
          {c : Call} (cancelled not_supported is_screen_sharing : Bool) (stream : Outcome Stream)
          → Step c (on_screen cancelled not_supported is_screen_sharing stream c).0
      no_screen : {c : Call} → Step c (release_screen c)
      gates :
          {c : Call} (ptt_mode is_ptt_active is_muted : Bool)
          → Step c (gate_microphone ptt_mode is_ptt_active is_muted c)
      reports_ptt :
          {c : Call} (ptt_mode is_ptt_active is_muted : Bool)
          → Step c (report_ptt my_user_id ptt_mode is_ptt_active is_muted c)
      deafens : {c : Call} (is_deafened : Bool) → Step c (deafen is_deafened c)
      speaker :
          {c : Call} (accepts : AudioElement → Bool) (device : String)
          → Step c (set_speaker accepts device c)
      state_changes :
          {c : Call} (failed_or_closed : Bool) (peer_id : String)
          → Step c (on_connection_state_change failed_or_closed peer_id c)
      finds_candidate :
          {c : Call} (payload : Option String) (peer_id : String)
          → Step c (on_ice_candidate payload peer_id c)
      audio_track :
          {c : Call} (speaker_device_id : Option String) (sound : Sound) (stream : Stream)
          (peer_id : String)
          → Step c (on_audio_track speaker_device_id sound stream peer_id c)
      video_track :
          {c : Call} (is_screen : Bool) (username : Option String) (stream : Stream)
          (peer_id : String)
          → Step c (on_video_track is_screen username stream peer_id c)
      renegotiates :
          {c : Call} (meanwhile : Call → Call) (sdp : Outcome String) (state : SignalingState)
          (peer_id : String)
          → ((x : Call) → Reach x (meanwhile x))
          → Step c (on_negotiation_needed meanwhile sdp state peer_id c)
      offers :
          {c : Call} (meanwhile : Call → Call) (sdp : Outcome String) (peer_id : String)
          → ((x : Call) → Reach x (meanwhile x))
          → Step c (offer_to meanwhile sdp my_user_id peer_id c)
      receives :
          {c : Call} (meanwhile : Call → Call) (accepted : Outcome String) (state : SignalingState)
          (msg : Incoming)
          → ((x : Call) → Reach x (meanwhile x))
          → Step c (on_voice_signal meanwhile accepted my_user_id state msg c)
      participants_change :
          {c : Call} (participants : List String) → Step c (close_absent participants c)

    pub data Reach : Call → Call → Type 0 where
      here : {c : Call} → Reach c c
      then_step : {c d e : Call} → Reach c d → Step d e → Reach c e
