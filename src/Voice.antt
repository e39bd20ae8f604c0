-- ===== src/Voice.antt =====
-- clients/web/src/stores/voiceStore.ts: the user's own voice connection. A toggle is shown at once and taken back when the
-- server refuses it.
pub mod Consistency
use together.Base.{
  String, Bool, true, false, not, Option, none, some, if◌then◌else◌, truthy, Reply, ok, failed,
  describe, Outcome, returned, thrown,
}

pub record VoiceParticipant : Type 0 where
  pub user_id : String
  pub username : String
  pub channel_id : Option String
  pub self_mute : Bool
  pub self_deaf : Bool
  pub self_video : Bool
  pub self_screen : Bool
  pub server_mute : Bool
  pub server_deaf : Bool
  pub joined_at : Option String

pub record VoiceStore : Type 0 where
  pub connected_channel_id : Option String
  pub is_muted : Bool
  pub is_deafened : Bool
  pub is_camera_on : Bool
  pub is_screen_sharing : Bool
  pub is_connecting : Bool
  pub error : Option String

abbrev pub initial : VoiceStore
initial = record {
  connected_channel_id = none;
  is_muted = false;
  is_deafened = false;
  is_camera_on = false;
  is_screen_sharing = false;
  is_connecting = false;
  error = none;
}

unfoldable pub join :
    String
    → (meanwhile : VoiceStore → VoiceStore) → Reply VoiceParticipant
    → VoiceStore
    → VoiceStore × Outcome VoiceParticipant
join channel_id meanwhile (ok vs) s =
    let s' = meanwhile (record s { is_connecting = true; error = none }) in
    (
      record s' {
        connected_channel_id = some channel_id;
        is_muted = vs.self_mute;
        is_deafened = vs.self_deaf;
        is_camera_on = vs.self_video;
        is_screen_sharing = vs.self_screen;
        is_connecting = false;
      },
      returned vs,
    )
join channel_id meanwhile (failed err) s =
    let s' = meanwhile (record s { is_connecting = true; error = none }) in
    (
      record s' { error = some (describe err "Failed to join voice"); is_connecting = false },
      thrown err,
    )

-- What the server answers changes nothing: a failure is only logged.
unfoldable pub leave : VoiceStore → VoiceStore
leave s =
    if truthy s.connected_channel_id
    then record s {
      connected_channel_id = none;
      is_muted = false;
      is_deafened = false;
      is_camera_on = false;
      is_screen_sharing = false;
    }
    else s

-- The settled request of a toggle: a refusal puts the flag's old value back, by `undo`, and throws.
abbrev pub settle_toggle :
    Reply (Unit {0}) → (VoiceStore → VoiceStore) → VoiceStore → VoiceStore × Outcome (Unit {0})
settle_toggle (ok _) undo s = (s, returned tt)
settle_toggle (failed err) undo s = (undo s, thrown err)

module _ (meanwhile : VoiceStore → VoiceStore) (reply : Reply (Unit {0})) where
  unfoldable pub toggle_mute : VoiceStore → VoiceStore × Outcome (Unit {0})
  toggle_mute s =
      if truthy s.connected_channel_id
      then settle_toggle reply (λ t. record t { is_muted = s.is_muted })
          (meanwhile (record s { is_muted = not s.is_muted }))
      else (s, returned tt)

  unfoldable pub toggle_deafen : VoiceStore → VoiceStore × Outcome (Unit {0})
  toggle_deafen s =
      if truthy s.connected_channel_id
      then settle_toggle reply (λ t. record t { is_deafened = s.is_deafened })
          (meanwhile (record s { is_deafened = not s.is_deafened }))
      else (s, returned tt)

  unfoldable pub toggle_camera : VoiceStore → VoiceStore × Outcome (Unit {0})
  toggle_camera s =
      if truthy s.connected_channel_id
      then settle_toggle reply (λ t. record t { is_camera_on = s.is_camera_on })
          (meanwhile (record s { is_camera_on = not s.is_camera_on }))
      else (s, returned tt)

  unfoldable pub toggle_screen : VoiceStore → VoiceStore × Outcome (Unit {0})
  toggle_screen s =
      if truthy s.connected_channel_id
      then settle_toggle reply (λ t. record t { is_screen_sharing = s.is_screen_sharing })
          (meanwhile (record s { is_screen_sharing = not s.is_screen_sharing }))
      else (s, returned tt)

pub clear_error : VoiceStore → VoiceStore
clear_error s = record s { error = none }
