-- ===== src/VoiceSettings/Threshold.antt =====
-- voiceSettingsStore.ts: the threshold falls as the sensitivity grows.
use together.Base.{ℕ, ◌≤◌, ◌≡◌, refl, arith}
use together.VoiceSettings.{sensitivity_to_threshold}

-- Every sensitivity of the slider stands for a threshold from 3 to 50, a higher one for no higher threshold; the ends and the
-- default are those that the comment of `sensitivityToThreshold` names.
sensitivity_to_threshold-bounds :
    (low high : ℕ)
    → low ≤ high
    → high ≤ 100
    → (sensitivity_to_threshold high ≤ sensitivity_to_threshold low)
      × (3 ≤ sensitivity_to_threshold high)
      × (sensitivity_to_threshold low ≤ 50)
      × (sensitivity_to_threshold 0 ≡ 50)
      × (sensitivity_to_threshold 75 ≡ 15)
      × (sensitivity_to_threshold 100 ≡ 3)
unfolding sensitivity_to_threshold
sensitivity_to_threshold-bounds low high h b =
    (omega arith, omega arith, omega arith, refl, refl, refl)
