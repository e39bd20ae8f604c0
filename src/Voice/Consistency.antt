-- ===== src/Voice/Consistency.antt =====
-- voiceStore.ts: outside a channel nothing is muted, deafened or shared, unless a refusal comes late.
use together.Base.{
  String, ◌≡◌, true, false, not, none, some, truthy, Reply, ok, failed, Failure, returned, thrown,
  arith,
}
use together.Voice.{
  VoiceStore, VoiceParticipant, join, leave, toggle_mute, toggle_deafen, toggle_camera,
  toggle_screen,
}

-- Without a channel every flag is off.
pub record IsConsistent (s : VoiceStore) : Type 0 where
  pub muted : truthy s.connected_channel_id ≡ false → s.is_muted ≡ false
  pub deafened : truthy s.connected_channel_id ≡ false → s.is_deafened ≡ false
  pub camera : truthy s.connected_channel_id ≡ false → s.is_camera_on ≡ false
  pub screen : truthy s.connected_channel_id ≡ false → s.is_screen_sharing ≡ false

abbrev quiet : VoiceStore → VoiceStore
quiet s = s

-- Each operation that nothing else interrupts keeps every flag off outside a channel, whatever the server answers; a
-- join needs a channel id that is not empty.
pub operations-IsConsistent :
    (channel_id : String) (joined : Reply VoiceParticipant) (reply : Reply (Unit {0}))
    (s : VoiceStore)
    → truthy (some channel_id) ≡ true
    → IsConsistent s
    → IsConsistent (join channel_id quiet joined s).0
      × IsConsistent (leave s)
      × IsConsistent (toggle_mute quiet reply s).0
      × IsConsistent (toggle_deafen quiet reply s).0
      × IsConsistent (toggle_camera quiet reply s).0
      × IsConsistent (toggle_screen quiet reply s).0
unfolding join leave toggle_mute toggle_deafen toggle_camera toggle_screen
operations-IsConsistent channel_id joined reply s h v =
    (ground arith, ground arith, ground arith, ground arith, ground arith, ground arith)

-- In a channel, a toggle that the server accepts flips its flag and nothing else; one that it refuses
-- leaves the state as it was, and throws.
toggles_settle :
    (s : VoiceStore) (err : Failure)
    → truthy s.connected_channel_id ≡ true
    → (toggle_mute quiet (ok tt) s ≡ (record s { is_muted = not s.is_muted }, returned tt))
      × (toggle_mute quiet (failed err) s ≡ (s, thrown err))
      × (toggle_deafen quiet (ok tt) s
          ≡ (record s { is_deafened = not s.is_deafened }, returned tt))
      × (toggle_deafen quiet (failed err) s ≡ (s, thrown err))
      × (toggle_camera quiet (ok tt) s
          ≡ (record s { is_camera_on = not s.is_camera_on }, returned tt))
      × (toggle_camera quiet (failed err) s ≡ (s, thrown err))
      × (toggle_screen quiet (ok tt) s
          ≡ (record s { is_screen_sharing = not s.is_screen_sharing }, returned tt))
      × (toggle_screen quiet (failed err) s ≡ (s, thrown err))
unfolding toggle_mute toggle_deafen toggle_camera toggle_screen
toggles_settle s err h = ground arith

-- A user who is muted, unmutes, and leaves before the server refuses the change, is left outside any
-- channel and muted.
late_refusal_mutes :
    (s : VoiceStore) (err : Failure)
    → truthy s.connected_channel_id ≡ true
    → s.is_muted ≡ true
    → ((toggle_mute leave (failed err) s).0.connected_channel_id ≡ none)
      × ((toggle_mute leave (failed err) s).0.is_muted ≡ true)
      × ¬ IsConsistent (toggle_mute leave (failed err) s).0
unfolding toggle_mute leave
late_refusal_mutes s err h m = (ground arith, ground arith, λ v. ground (arith, v.muted))
