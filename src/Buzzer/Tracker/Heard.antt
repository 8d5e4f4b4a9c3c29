-- ===== src/Buzzer/Tracker/Heard.antt =====
-- Every pitch that the tracker outputs was detected.
use tcpremote_device_control.Base.{
  ◌≡◌, ◌⊎◌, refl, sym, subst, true≢false, inl, inr, Bool, true, false, not, ◌||◌, ◌&&◌, ltb, List,
  [], ◌∷◌, ℤ, pos, eqb_ℤ, ltb_ℤ, if-holds, Bool-cases,
}
use tcpremote_device_control.Buzzer.Tracker.{
  PitchDetectionResult, PitchTracker, pitch_tracker_init, pitch_tracker_clear_pending,
  pitch_tracker_hold_or_silence, pend, confirm, is_stable, pitch_tracker_update,
}
use tcpremote_device_control.Buzzer.Tracker.Held.{track}

-- A voiced window that found this pitch, and not by the fallback.
pub record Finds (d : PitchDetectionResult) (pitch_hz : ℤ) : Type 0 where
  pub voiced : d.voiced ≡ true
  pub certain : d.fallback ≡ false
  pub sounding : ltb_ℤ (pos 0) d.frequency_hz ≡ true
  pub found : d.frequency_hz ≡ pitch_hz

-- Silence, or the pitch that one of the windows found.
abbrev pub WasHeard : List PitchDetectionResult → ℤ → Type 0
WasHeard [] pitch_hz = pitch_hz ≡ pos 0
WasHeard (d ∷ ds) pitch_hz = Finds d pitch_hz ⊎ WasHeard ds pitch_hz

-- The output is the stable pitch, which was heard, and no note waits for its confirmation.
record IsTracking (heard : List PitchDetectionResult) (r : ℤ × PitchTracker) : Type 0 where
  output : r.0 ≡ r.1.stable_pitch_hz
  was_heard : WasHeard heard r.1.stable_pitch_hz
  no_pitch : r.1.pending_pitch_hz ≡ pos 0
  no_hops : r.1.pending_hops ≡ 0

silence-WasHeard : (heard : List PitchDetectionResult) → WasHeard heard (pos 0)
silence-WasHeard [] = refl
silence-WasHeard (d ∷ heard) = inr (silence-WasHeard heard)

hold-IsTracking :
    (heard : List PitchDetectionResult) (tracker : PitchTracker)
    → WasHeard heard tracker.stable_pitch_hz
    → IsTracking heard (pitch_tracker_hold_or_silence tracker)
unfolding pitch_tracker_hold_or_silence
hold-IsTracking heard tracker h =
    if-holds (IsTracking heard)
      (ltb_ℤ (pos 0) tracker.stable_pitch_hz && ltb tracker.missing_hops 4) _ _
      (λ e. record { output = refl; was_heard = h; no_pitch = refl; no_hops = refl })
      (λ e. record {
        output = refl;
        was_heard = silence-WasHeard heard;
        no_pitch = refl;
        no_hops = refl;
      })

-- The first window with a new note confirms it.
confirm_at_once :
    (tracker : PitchTracker)
    → tracker.pending_hops ≡ 1
    → confirm tracker ≡ (
      tracker.pending_pitch_hz,
      pitch_tracker_clear_pending (record tracker {
        stable_pitch_hz = tracker.pending_pitch_hz;
        stable_midi_note = tracker.pending_midi_note;
        missing_hops = 0;
      }),
    )
confirm_at_once tracker e = simp e refl

pend_hops :
    (d : PitchDetectionResult) (tracker : PitchTracker)
    → tracker.pending_hops ≡ 0
    → (pend d tracker).pending_hops ≡ 1
pend_hops d tracker e = elim (Bool-cases (eqb_ℤ d.midi_note tracker.pending_midi_note)) [
  | inl f ↦ simp (f, e) refl
  | inr f ↦ simp f refl
]

pend_pitch :
    (d : PitchDetectionResult) (tracker : PitchTracker)
    → tracker.pending_pitch_hz ≡ pos 0
    → ((pend d tracker).pending_pitch_hz ≡ pos 0)
      ⊎ (d.frequency_hz ≡ (pend d tracker).pending_pitch_hz)
pend_pitch d tracker e = elim (Bool-cases (eqb_ℤ d.midi_note tracker.pending_midi_note)) [
  | inl f ↦ simp f (inl e)
  | inr f ↦ simp f (inr refl)
]

confirm-IsTracking :
    (heard : List PitchDetectionResult) (d : PitchDetectionResult) (tracker : PitchTracker)
    → tracker.pending_pitch_hz ≡ pos 0
    → tracker.pending_hops ≡ 0
    → d.voiced ≡ true
    → d.fallback ≡ false
    → ltb_ℤ (pos 0) d.frequency_hz ≡ true
    → IsTracking (d ∷ heard) (confirm (pend d tracker))
confirm-IsTracking heard d tracker p n v f s =
    subst (IsTracking (d ∷ heard)) (sym (confirm_at_once (pend d tracker) (pend_hops d tracker n)))
      (record {
        output = refl;
        was_heard = elim (pend_pitch d tracker p) [
          | inl e ↦ inr (subst (WasHeard heard) (sym e) (silence-WasHeard heard))
          | inr e ↦ inl (record { voiced = v; certain = f; sounding = s; found = e })
        ];
        no_pitch = refl;
        no_hops = refl;
      })

update-IsTracking :
    (heard : List PitchDetectionResult) (d : PitchDetectionResult) (pitch_hz : ℤ)
    (tracker : PitchTracker)
    → IsTracking heard (pitch_hz, tracker)
    → IsTracking (d ∷ heard) (pitch_tracker_update tracker d)
unfolding pitch_tracker_update
update-IsTracking heard d pitch_hz tracker h =
    let held = hold-IsTracking (d ∷ heard) tracker (inr h.was_heard) in
    if-holds (IsTracking (d ∷ heard)) (not d.voiced || not (ltb_ℤ (pos 0) d.frequency_hz)) _ _
      (λ e. held)
      (λ e.
        if-holds (IsTracking (d ∷ heard)) (is_stable d tracker) _ _
          (λ f. record {
            output = refl;
            was_heard = inr h.was_heard;
            no_pitch = refl;
            no_hops = refl;
          })
          (λ f.
            if-holds (IsTracking (d ∷ heard)) d.fallback _ _ (λ g. held)
              (λ g.
                let k = both d.voiced (ltb_ℤ (pos 0) d.frequency_hz) e in
                confirm-IsTracking heard d tracker h.no_pitch h.no_hops k.0 g k.1)))
  where
    both : (a b : Bool) → (not a || not b) ≡ false → (a ≡ true) × (b ≡ true)
    both true true e = (refl, refl)
    both true false e = (refl, sym e)
    both false b e = (sym e, absurd (true≢false e))

-- Each output, with the windows up to it, the latest first.
abbrev pub AllHeard : List PitchDetectionResult → List PitchDetectionResult → List ℤ → Type 0
AllHeard heard [] [] = Unit {0}
AllHeard heard [] (pitch_hz ∷ pitches) = ⊥
AllHeard heard (d ∷ ds) [] = ⊥
AllHeard heard (d ∷ ds) (pitch_hz ∷ pitches) =
    WasHeard (d ∷ heard) pitch_hz × AllHeard (d ∷ heard) ds pitches

track_from :
    (heard ds : List PitchDetectionResult) (pitch_hz : ℤ) (tracker : PitchTracker)
    → IsTracking heard (pitch_hz, tracker)
    → AllHeard heard ds (track tracker ds).0
track_from heard [] pitch_hz tracker h = tt
track_from heard (d ∷ ds) pitch_hz tracker h =
    let r = pitch_tracker_update tracker d in
    let k = update-IsTracking heard d pitch_hz tracker h in
    (subst (WasHeard (d ∷ heard)) (sym k.output) k.was_heard, track_from (d ∷ heard) ds r.0 r.1 k)

-- From the start on, every pitch output is silence or the frequency of a window up to then that was
-- voiced, sounding and not found by the fallback.
pub track-AllHeard :
    (ds : List PitchDetectionResult) → AllHeard [] ds (track pitch_tracker_init ds).0
track-AllHeard ds =
    track_from [] ds (pos 0) pitch_tracker_init
      (record { output = refl; was_heard = refl; no_pitch = refl; no_hops = refl })
