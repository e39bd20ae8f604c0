-- ===== src/Calls/Detector.antt =====
-- useWebRTC.ts: startSpeakingDetector, and what the local detector reports. An average is whether it is above the
-- threshold at that time.
use together.Base.{
  ◌≡◌, refl, ap, ◌∙◌, Bool, true, false, not, ◌&&◌, List, [], ◌∷◌, all, if◌then◌else◌, arith,
}

-- `current`, and the calls of `onSpeakingChange` so far, the latest first.
pub record Detector : Type 0 where
  pub current : Bool
  pub reports : List Bool

abbrev pub same_bool : Bool → Bool → Bool
same_bool true b = b
same_bool false b = not b

-- One interval. `hears` says whether a change is passed on.
unfoldable pub tick : (speaking : Bool) → (hears : Bool → Bool) → Detector → Detector
tick speaking hears d = if same_bool speaking d.current then d else record {
  current = speaking;
  reports = if hears speaking then speaking ∷ d.reports else d.reports;
}

-- The callback for the local user.
abbrev pub local_hears : (ptt_mode is_muted : Bool) → Bool → Bool
local_hears ptt_mode is_muted speaking = not ptt_mode && not (is_muted && speaking)

-- An interval with the settings at that time.
pub record Interval : Type 0 where
  pub above : Bool
  pub ptt_mode : Bool
  pub is_muted : Bool

unfoldable pub run : List Interval → Detector → Detector
unfolding tick
run [] d = d
run (i ∷ is) d = run is (tick i.above (local_hears i.ptt_mode i.is_muted) d)

-- Whether the user is shown as speaking: by the latest report.
abbrev pub shown : Detector → Bool
shown d = elim d.reports [ [] ↦ false | b ∷ _ ↦ b ]

-- Loud all the time, with push to talk off.
abbrev pub all_loud : List Interval → Bool
all_loud = all (λ i. i.above && not i.ptt_mode)

loud_run :
    (is : List Interval) (d : Detector) → d.current ≡ true → all_loud is ≡ true → run is d ≡ d
unfolding run tick
loud_run [] d h a = refl
loud_run (i ∷ is) d h a = ground (arith, h, a, loud_run is d)

-- While the sound goes on the display does not follow the mute button: who is shown as speaking stays so when muted,
-- and who started to speak while muted is not shown after the mute is taken off.
pub display_ignores_mute :
    (first : Interval) (is : List Interval)
    → all_loud (first ∷ is) ≡ true
    → shown (run (first ∷ is) (record { current = false; reports = [] })) ≡ not first.is_muted
unfolding run tick
display_ignores_mute first is a =
    let started =
      tick first.above (local_hears first.ptt_mode first.is_muted)
        (record { current = false; reports = [] }) in
    let loud : (first.above ≡ true) × (first.ptt_mode ≡ false) × (all_loud is ≡ true) =
      ground (arith, a) in
    let current : started.current ≡ true = ground (arith, loud) in
    ap shown (loud_run is started current loud.2) ∙ ground (arith, loud)
