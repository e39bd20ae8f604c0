-- ===== src/VoiceSettings.antt =====
-- clients/web/src/stores/voiceSettingsStore.ts: the settings, which the browser persists, and the threshold that a
-- sensitivity stands for. A sensitivity is a whole number from 0 to 100, as the slider gives it.
pub mod Threshold
use together.Base.{ℕ, ◌+◌, ◌-◌, ◌*◌, ◌/◌, String}

pub data VoiceMode : Type 0 where
  vad ptt : VoiceMode

pub record VoiceSettings : Type 0 where
  pub mode : VoiceMode
  pub vad_sensitivity : ℕ
  pub ptt_key : String

abbrev pub initial : VoiceSettings
initial = record { mode = vad; vad_sensitivity = 75; ptt_key = "Space" }

pub set_mode : VoiceMode → VoiceSettings → VoiceSettings
set_mode mode s = record s { mode = mode }

pub set_vad_sensitivity : ℕ → VoiceSettings → VoiceSettings
set_vad_sensitivity value s = record s { vad_sensitivity = value }

pub set_ptt_key : String → VoiceSettings → VoiceSettings
set_ptt_key key s = record s { ptt_key = key }

-- Math.round(50 - (sensitivity / 100) * 47), in hundredths, where a half is rounded up.
unfoldable pub sensitivity_to_threshold : ℕ → ℕ
sensitivity_to_threshold sensitivity = (50 * 100 - sensitivity * 47 + 50) / 100
