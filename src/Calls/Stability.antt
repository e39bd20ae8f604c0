-- ===== src/Calls/Stability.antt =====
-- useWebRTC.ts: what the steps keep.
use together.Base.{
  ℕ, refl, String, Bool, true, false, not, ◌||◌, Option, none, some, List, [], ◌∷◌, Outcome,
  returned, thrown, includes, ◌==◌, truthy, get_or, filter, if◌then◌else◌,
}
use together.Base.Dict.{get}
use together.Calls.{
  Call, create_peer, close_peer, Stream, fail, add_id, SignalType, offer, answer, candidate,
}
use together.Calls.Signals.{
  renegotiate, answer_offer, finish_offer, take_answer, take_candidate, by_type, SignalingState,
  stable, have_local_offer, other_state, Incoming, signal, on_connection_state_change,
  on_negotiation_needed, send_offer, offer_to, on_offer, on_answer, on_candidate, on_voice_signal,
  close_absent, close_all, keys,
}
use together.Calls.Steps.{
  Step, Reach, ice_servers, microphone, no_microphone, camera, no_camera, other_camera, screen,
  no_screen, gates, reports_ptt, deafens, speaker, state_changes, finds_candidate, audio_track,
  video_track, renegotiates, offers, receives, participants_change, here, then_step,
}
use together.Calls.Keeping.{
  on_video_track-Leaves, deafen-Leaves, set_speaker-Leaves, Leaves, on_ice_servers-Leaves,
  on_microphone-Leaves, release_microphone-Leaves, on_camera-Leaves, release_camera-Leaves,
  on_other_camera-Leaves, on_screen-Leaves, release_screen-Leaves, gate_microphone-Leaves,
  report_ptt-Leaves, on_ice_candidate-Leaves, on_audio_track-Leaves,
}

-- A property that only the making and closing of connections and the marks of offers could break, and they do not.
pub record Stable (P : Call → Type 0) : Type 0 where
  pub leaves : (c d : Call) → Leaves c d → P c → P d
  pub creates : (k : String) (s : Option Stream) (c : Call) → P c → P (create_peer k s c).1
  pub closes : (k : String) (c : Call) → P c → P (close_peer k c)
  pub marks :
      (k : String) (c : Call) → P c → P (record c { offered_peers = add_id k c.offered_peers })

module _ (P : Call → Type 0) (st : Stable P) where
  -- Nothing of what `Leaves` is about.
  same : (c d : Call) → Leaves c d → P c → P d
  same = st.leaves

  either : (b : Bool) (x y : Call) → P x → P y → P (if b then x else y)
  either true x y p q = p
  either false x y p q = q

  close_all-P : (ks : List String) (c : Call) → P c → P (close_all ks c)
  unfolding close_all
  close_all-P [] c p = p
  close_all-P (k ∷ ks) c p = close_all-P ks (close_peer k c) (st.closes k c p)

  close_absent-P : (ids : List String) (c : Call) → P c → P (close_absent ids c)
  unfolding close_absent
  close_absent-P ids c p = close_all-P (filter (λ k. not (includes ids k)) (keys c.peers)) c p

  module _ (meanwhile : Call → Call) (keeps : (c : Call) → P c → P (meanwhile c)) where
    pub send_offer-P :
        (sdp : Outcome String) (message k : String) (c : Call)
        → P c
        → P (send_offer meanwhile sdp message k c)
    send_offer-P (returned text) message k c p =
        same (meanwhile c) (signal k offer text (meanwhile c)) (refl, refl, refl, refl) (keeps c p)
    send_offer-P (thrown err) message k c p =
        same (meanwhile c) (fail message (meanwhile c)) (refl, refl, refl, refl) (keeps c p)

    renegotiate-P :
        (sdp : Outcome String) (state : SignalingState) (k : String) (c : Call)
        → P c
        → P (renegotiate meanwhile sdp state k c)
    renegotiate-P sdp stable k c p = send_offer-P sdp "Failed to renegotiate voice connection" k c p
    renegotiate-P sdp have_local_offer k c p = p
    renegotiate-P sdp other_state k c p = p

    on_negotiation_needed-P :
        (sdp : Outcome String) (state : SignalingState) (k : String) (c : Call)
        → P c
        → P (on_negotiation_needed meanwhile sdp state k c)
    unfolding on_negotiation_needed
    on_negotiation_needed-P sdp state k c p =
        either (includes c.initial_negotiation_done k) (renegotiate meanwhile sdp state k c) c
          (renegotiate-P sdp state k c p) p

    offer_to-P :
        (sdp : Outcome String) (me k : String) (c : Call) → P c → P (offer_to meanwhile sdp me k c)
    unfolding offer_to
    offer_to-P sdp me k c p =
        let marked = record c { offered_peers = add_id k c.offered_peers } in
        let ready = (create_peer k c.local_stream marked).1 in
        let message : String = "Failed to establish voice connection with a peer" in
        either (k == me || includes c.offered_peers k) c (send_offer meanwhile sdp message k ready)
          p (send_offer-P sdp message k ready (st.creates k c.local_stream marked (st.marks k c p)))

    answer_offer-P :
        (accepted : Outcome String) (k : String) (c : Call)
        → P c
        → P (answer_offer meanwhile accepted k c)
    answer_offer-P (returned text) k c p = same c _ (refl, refl, refl, refl) p
    answer_offer-P (thrown err) k c p = same c _ (refl, refl, refl, refl) p

    finish_offer-P :
        (accepted : Outcome String) (k : String) (c : Call)
        → P c
        → P (finish_offer meanwhile accepted k c)
    finish_offer-P (returned text) k c p = same c _ (refl, refl, refl, refl) p
    finish_offer-P (thrown err) k c p = same c _ (refl, refl, refl, refl) p

    take_answer-P :
        (accepted : Outcome String) (state : SignalingState) (k : String) (pc : Option ℕ) (c : Call)
        → P c
        → P (take_answer meanwhile accepted state k pc c)
    take_answer-P accepted have_local_offer k (some pc) c p =
        finish_offer-P accepted k (meanwhile c) (keeps c p)
    take_answer-P accepted have_local_offer k none c p = p
    take_answer-P accepted stable k pc c p = p
    take_answer-P accepted other_state k pc c p = p

    take_candidate-P :
        (accepted : Outcome String) (pc : Option ℕ) (c : Call)
        → P c
        → P (take_candidate meanwhile accepted pc c)
    take_candidate-P accepted none c p = p
    take_candidate-P accepted (some pc) c p = keeps c p

    by_type-P :
        (accepted : Outcome String) (type : SignalType) (state : SignalingState) (k : String)
        (c : Call)
        → P c
        → P (by_type meanwhile accepted type state k c)
    unfolding by_type on_offer on_answer on_candidate
    by_type-P accepted offer state k c p =
        let ready = (create_peer k c.local_stream c).1 in
        answer_offer-P accepted k (meanwhile ready) (keeps ready (st.creates k c.local_stream c p))
    by_type-P accepted answer state k c p = take_answer-P accepted state k (get c.peers k) c p
    by_type-P accepted candidate state k c p = take_candidate-P accepted (get c.peers k) c p

    on_voice_signal-P :
        (accepted : Outcome String) (me : String) (state : SignalingState) (msg : Incoming)
        (c : Call)
        → P c
        → P (on_voice_signal meanwhile accepted me state msg c)
    unfolding on_voice_signal
    on_voice_signal-P accepted me state msg c p =
        let k = get_or msg.from_user_id "" in
        either (not (truthy msg.from_user_id) || k == me) c
          (by_type meanwhile accepted msg.type state k c) p
          (by_type-P accepted msg.type state k c p)

  on_connection_state_change-P :
      (closes : Bool) (k : String) (c : Call) → P c → P (on_connection_state_change closes k c)
  unfolding on_connection_state_change
  on_connection_state_change-P closes k c p = either closes (close_peer k c) c (st.closes k c p) p

  module _ (me : String) where
    mutual
      Step-P : {c d : Call} → Step me c d → P c → P d
      Step-P {c} (ice_servers cancelled reply) p =
          same c _ (on_ice_servers-Leaves cancelled reply c) p
      Step-P {c} (microphone replaces sound cancelled stream) p =
          same c _ (on_microphone-Leaves replaces sound me cancelled stream c) p
      Step-P {c} no_microphone p = same c _ (release_microphone-Leaves me c) p
      Step-P {c} (camera cancelled on stream) p =
          same c _ (on_camera-Leaves cancelled on stream c) p
      Step-P {c} no_camera p = same c _ (release_camera-Leaves c) p
      Step-P {c} (other_camera replaces cancelled stream) p =
          same c _ (on_other_camera-Leaves replaces cancelled stream c) p
      Step-P {c} (screen cancelled not_supported on stream) p =
          same c _ (on_screen-Leaves cancelled not_supported on stream c) p
      Step-P {c} no_screen p = same c _ (release_screen-Leaves c) p
      Step-P {c} (gates ptt active muted) p = same c _ (gate_microphone-Leaves ptt active muted c) p
      Step-P {c} (reports_ptt ptt active muted) p =
          same c _ (report_ptt-Leaves me ptt active muted c) p
      Step-P {c} (deafens is_deafened) p = same c _ (deafen-Leaves is_deafened c) p
      Step-P {c} (speaker accepts device) p = same c _ (set_speaker-Leaves accepts device c) p
      Step-P {c} (state_changes closes k) p = on_connection_state_change-P closes k c p
      Step-P {c} (finds_candidate payload k) p = same c _ (on_ice_candidate-Leaves payload k c) p
      Step-P {c} (audio_track device sound stream k) p =
          same c _ (on_audio_track-Leaves device sound stream k c) p
      Step-P {c} (video_track is_screen username stream k) p =
          same c _ (on_video_track-Leaves is_screen username stream k c) p
      Step-P {c} (renegotiates meanwhile sdp state k later) p =
          on_negotiation_needed-P meanwhile (λ x q. Reach-P (later x) q) sdp state k c p
      Step-P {c} (offers meanwhile sdp k later) p =
          offer_to-P meanwhile (λ x q. Reach-P (later x) q) sdp me k c p
      Step-P {c} (receives meanwhile accepted state msg later) p =
          on_voice_signal-P meanwhile (λ x q. Reach-P (later x) q) accepted me state msg c p
      Step-P {c} (participants_change ids) p = close_absent-P ids c p

      pub Reach-P : {c d : Call} → Reach me c d → P c → P d
      Reach-P here p = p
      Reach-P (then_step r s) p = Step-P s (Reach-P r p)
