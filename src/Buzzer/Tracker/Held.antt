-- ===== src/Buzzer/Tracker/Held.antt =====
-- What the tracker lets through, and how long it holds a pitch.
use tcpremote_device_control.Base.{
  ℕ, zero, suc, ◌+◌, ◌-◌, ◌%◌, ◌^◌, ◌<◌, ◌≤◌, ◌≡◌, refl, ap, ◌∙◌, true, false, ◌&&◌, ltb, List, [],
  ◌∷◌, ℤ, pos, negsuc, ltb_ℤ, arith,
}
use tcpremote_device_control.Buzzer.Tracker.{
  PitchDetectionResult, PitchTracker, pitch_tracker_clear_pending, pitch_tracker_hold_or_silence,
  pitch_tracker_update,
}

-- The pitches output for the detections, and the tracker at the end.
abbrev pub track : PitchTracker → List PitchDetectionResult → List ℤ × PitchTracker
track tracker [] = ([], tracker)
track tracker (detection ∷ detections) =
    let (pitch_hz, next) = pitch_tracker_update tracker detection in
    let (pitches, end) = track next detections in (pitch_hz ∷ pitches, end)

-- Detections without a pitch.
abbrev pub AreUnvoiced : List PitchDetectionResult → Type 0
AreUnvoiced [] = Unit {0}
AreUnvoiced (d ∷ ds) = (d.voiced ≡ false) × AreUnvoiced ds

-- The pitch for the first `left` windows, then silence.
abbrev pub held_for : ℕ → ℤ → List PitchDetectionResult → List ℤ
held_for left pitch_hz [] = []
held_for zero pitch_hz (d ∷ ds) = pos 0 ∷ held_for zero pitch_hz ds
held_for (suc left) pitch_hz (d ∷ ds) = pitch_hz ∷ held_for left pitch_hz ds

update_unvoiced :
    (tracker : PitchTracker) (d : PitchDetectionResult)
    → d.voiced ≡ false
    → pitch_tracker_update tracker d ≡ pitch_tracker_hold_or_silence tracker
unfolding pitch_tracker_update
update_unvoiced tracker d e = simp e refl

hold_on :
    (tracker : PitchTracker)
    → ltb_ℤ (pos 0) tracker.stable_pitch_hz ≡ true
    → tracker.missing_hops < 4
    → pitch_tracker_hold_or_silence tracker ≡ (
      tracker.stable_pitch_hz,
      record (pitch_tracker_clear_pending tracker) { missing_hops = tracker.missing_hops + 1 },
    )
unfolding pitch_tracker_hold_or_silence
hold_on tracker e few =
    let below : ltb tracker.missing_hops 4 ≡ true = ground arith in
    let same : (tracker.missing_hops + 1) % 2 ^ 32 ≡ tracker.missing_hops + 1 = omega arith in
    simp (e, below, same) refl

silent_tracker : PitchTracker → PitchTracker
silent_tracker tracker = record (pitch_tracker_clear_pending tracker) {
  stable_pitch_hz = pos 0;
  stable_midi_note = negsuc 0;
  missing_hops = 0;
}

give_up :
    (tracker : PitchTracker)
    → (ltb_ℤ (pos 0) tracker.stable_pitch_hz && ltb tracker.missing_hops 4) ≡ false
    → pitch_tracker_hold_or_silence tracker ≡ (pos 0, silent_tracker tracker)
unfolding pitch_tracker_hold_or_silence silent_tracker
give_up tracker e = simp e refl

track_step :
    (tracker : PitchTracker) (d : PitchDetectionResult) (ds : List PitchDetectionResult)
    (pitch_hz : ℤ) (next : PitchTracker)
    → pitch_tracker_update tracker d ≡ (pitch_hz, next)
    → (track tracker (d ∷ ds)).0 ≡ pitch_hz ∷ (track next ds).0
track_step tracker d ds pitch_hz next e = rw e refl

track_silent :
    (tracker : PitchTracker) (pitch_hz : ℤ) (ds : List PitchDetectionResult)
    → tracker.stable_pitch_hz ≡ pos 0
    → AreUnvoiced ds
    → (track tracker ds).0 ≡ held_for zero pitch_hz ds
unfolding silent_tracker
track_silent tracker pitch_hz [] z h = refl
track_silent tracker pitch_hz (d ∷ ds) z h =
    track_step tracker d ds (pos 0) (silent_tracker tracker)
      (update_unvoiced tracker d h.0 ∙ give_up tracker (simp z refl))
    ∙ ap (λ l. pos 0 ∷ l) (track_silent (silent_tracker tracker) pitch_hz ds refl h.1)

track-held :
    (left : ℕ) (tracker : PitchTracker) (ds : List PitchDetectionResult)
    → ltb_ℤ (pos 0) tracker.stable_pitch_hz ≡ true
    → tracker.missing_hops + left ≡ 4
    → AreUnvoiced ds
    → (track tracker ds).0 ≡ held_for left tracker.stable_pitch_hz ds
unfolding silent_tracker
track-held left tracker [] e k h = refl
track-held zero tracker (d ∷ ds) e k h =
    let full : ltb tracker.missing_hops 4 ≡ false = ground arith in
    track_step tracker d ds (pos 0) (silent_tracker tracker)
      (update_unvoiced tracker d h.0 ∙ give_up tracker (simp (e, full) refl))
    ∙ ap (λ l. pos 0 ∷ l)
        (track_silent (silent_tracker tracker) tracker.stable_pitch_hz ds refl h.1)
track-held (suc left) tracker (d ∷ ds) e k h =
    let next = record (pitch_tracker_clear_pending tracker) {
      missing_hops = tracker.missing_hops + 1;
    } in
    track_step tracker d ds tracker.stable_pitch_hz next
      (update_unvoiced tracker d h.0 ∙ hold_on tracker e (omega arith))
    ∙ ap (λ l. tracker.stable_pitch_hz ∷ l) (track-held left next ds e (omega arith) h.1)

-- A pitch is held for the windows without one, four at most since the last window with one, and then
-- the output is silent.
pub track-held_for :
    (tracker : PitchTracker) (ds : List PitchDetectionResult)
    → ltb_ℤ (pos 0) tracker.stable_pitch_hz ≡ true
    → tracker.missing_hops ≤ 4
    → AreUnvoiced ds
    → (track tracker ds).0 ≡ held_for (4 - tracker.missing_hops) tracker.stable_pitch_hz ds
track-held_for tracker ds e few h =
    track-held (4 - tracker.missing_hops) tracker ds e (omega arith) h
