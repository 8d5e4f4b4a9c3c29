-- ===== src/Buzzer/Tracker.antt =====
-- server/device/buzzer/buzzer.c: the pitch tracker, and the result of pitch_detector.h that it reads.
pub mod Held
pub mod Heard
use tcpremote_device_control.Base.{
  ℕ, zero, suc, ◌+◌, ◌-◌, ◌*◌, ◌%◌, ◌^◌, Bool, true, false, not, ◌&&◌, ◌||◌, ltb, leb,
  if◌then◌else◌, List, [], ◌∷◌, ℤ, pos, negsuc, eqb_ℤ, ltb_ℤ,
}

-- The fields of a PitchDetectionResult that are not floats, and not only printed.
pub record PitchDetectionResult : Type 0 where
  pub frequency_hz : ℤ
  pub midi_note : ℤ
  pub voiced : Bool
  pub fallback : Bool

pub record PitchTracker : Type 0 where
  pub stable_pitch_hz : ℤ
  pub stable_midi_note : ℤ
  pub pending_pitch_hz : ℤ
  pub pending_midi_note : ℤ
  pub pending_hops : ℕ
  pub missing_hops : ℕ

abbrev pub pitch_hold_hops : ℕ
pitch_hold_hops = 4

abbrev pub pitch_confirm_hops : ℕ
pitch_confirm_hops = 1

abbrev pub pitch_jitter_percent : ℕ
pitch_jitter_percent = 8

-- `difference * 100 <= previous * 8U` compares unsigned numbers: the left side is converted.
unfoldable pub pitches_are_close : ℤ → ℤ → Bool
pitches_are_close (pos pitch_hz) (pos previous_pitch_hz) =
    let difference =
      if ltb previous_pitch_hz pitch_hz
      then pitch_hz - previous_pitch_hz
      else previous_pitch_hz - pitch_hz in
    if leb pitch_hz 0 || leb previous_pitch_hz 0
    then false
    else leb (difference * 100 % 2 ^ 32) (previous_pitch_hz * pitch_jitter_percent % 2 ^ 32)
pitches_are_close pitch_hz previous_pitch_hz = false

abbrev pub pitch_tracker_init : PitchTracker
pitch_tracker_init = record {
  stable_pitch_hz = pos 0;
  stable_midi_note = negsuc 0;
  pending_pitch_hz = pos 0;
  pending_midi_note = negsuc 0;
  pending_hops = 0;
  missing_hops = 0;
}

abbrev pub pitch_tracker_clear_pending : PitchTracker → PitchTracker
pitch_tracker_clear_pending tracker = record tracker {
  pending_pitch_hz = pos 0;
  pending_midi_note = negsuc 0;
  pending_hops = 0;
}

-- The pitch to output, and the tracker behind it.
unfoldable pub pitch_tracker_hold_or_silence : PitchTracker → ℤ × PitchTracker
pitch_tracker_hold_or_silence tracker =
    let cleared = pitch_tracker_clear_pending tracker in
    if ltb_ℤ (pos 0) tracker.stable_pitch_hz && ltb tracker.missing_hops pitch_hold_hops
    then (
      tracker.stable_pitch_hz,
      record cleared { missing_hops = (tracker.missing_hops + 1) % 2 ^ 32 },
    )
    else (
      pos 0,
      record cleared { stable_pitch_hz = pos 0; stable_midi_note = negsuc 0; missing_hops = 0 },
    )

abbrev pub pend : PitchDetectionResult → PitchTracker → PitchTracker
pend detection tracker =
    if eqb_ℤ detection.midi_note tracker.pending_midi_note
    then record tracker { pending_hops = (tracker.pending_hops + 1) % 2 ^ 32 }
    else record tracker {
      pending_pitch_hz = detection.frequency_hz;
      pending_midi_note = detection.midi_note;
      pending_hops = 1;
    }

abbrev pub confirm : PitchTracker → ℤ × PitchTracker
confirm tracker =
    if leb pitch_confirm_hops tracker.pending_hops
    then (
      tracker.pending_pitch_hz,
      pitch_tracker_clear_pending (record tracker {
        stable_pitch_hz = tracker.pending_pitch_hz;
        stable_midi_note = tracker.pending_midi_note;
        missing_hops = 0;
      }),
    )
    else (tracker.stable_pitch_hz, tracker)

abbrev pub is_stable : PitchDetectionResult → PitchTracker → Bool
is_stable detection tracker =
    ltb_ℤ (pos 0) tracker.stable_pitch_hz
    && (eqb_ℤ detection.midi_note tracker.stable_midi_note
        || pitches_are_close detection.frequency_hz tracker.stable_pitch_hz)

unfoldable pub pitch_tracker_update : PitchTracker → PitchDetectionResult → ℤ × PitchTracker
unfolding pitch_tracker_hold_or_silence pitches_are_close
pitch_tracker_update tracker detection =
    if not detection.voiced || not (ltb_ℤ (pos 0) detection.frequency_hz)
    then pitch_tracker_hold_or_silence tracker
    else if is_stable detection tracker
    then (
      tracker.stable_pitch_hz,
      pitch_tracker_clear_pending (record tracker { missing_hops = 0 }),
    )
    else if detection.fallback
    then pitch_tracker_hold_or_silence tracker
    else confirm (pend detection tracker)
