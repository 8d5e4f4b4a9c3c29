-- ===== src/Pitch/Notes.antt =====
-- What pitch_detect_note finds in a window.
use tcpremote_device_control.Base.{
  ℕ, ◌+◌, ◌≤◌, ◌<◌, ◌≡◌, ◌⊎◌, inl, inr, refl, sym, ap, ◌∙◌, subst, Bool, true, false, ◌||◌, ◌==◌,
  List, [], ◌∷◌, Option, none, some, length, take, length-take, ℤ, pos, arith, true≢false, if-holds,
}
use tcpremote_device_control.Pitch.{
  PitchResult, reset_result, clamp_sample_count, preprocess_samples, process_from, above_nyquist,
  score_of, best_note, found, decide, detect_in, detector_min_score, detector_min_rms,
  pitch_detect_note,
}
use tcpremote_device_control.Pitch.Arithmetic.{Floats, IsOrdered}
use tcpremote_device_control.Pitch.Search.{IsTried, search_notes-Searched}

module _ {F D : Type 0} (fl : Floats F D) where
  process_from-length :
      (i count : ℕ) (mean square energy : D) (samples : List ℤ)
      → length (process_from fl i count mean square energy samples).processed ≡ length samples
  unfolding process_from
  process_from-length i count mean square energy [] = refl
  process_from-length i count mean square energy (s ∷ samples) =
      omega (arith, process_from-length (i + 1) count mean _ _ samples)

  preprocess_samples-length :
      (samples : List ℤ) (n : ℕ) → length samples ≤ n → length (preprocess_samples fl samples).0 ≤ n
  unfolding preprocess_samples
  preprocess_samples-length samples n h =
      omega (arith, process_from-length 0 (length samples) _ _ _ samples)

  abbrev pub scores : List F × D × F → ℕ → ℕ → F
  scores (processed, energy, rms) sample_rate = score_of fl processed sample_rate energy

  -- No note that the loop comes to has a higher score: those from 33 to 96, up to the first at half the
  -- sample rate or above.
  abbrev pub Unbeaten : ℕ → (ℕ → F) → F → Type 0
  Unbeaten sample_rate score s =
      (k : ℕ)
      → 33 ≤ k
      → k ≤ 96
      → ((j : ℕ) → 33 ≤ j → j ≤ k → above_nyquist fl sample_rate j ≡ false)
      → fl.lt s (score k) ≡ false

  -- A note that was found.
  pub record IsLoudest (sample_rate : ℕ) (score : ℕ → F) (b : ℕ) : Type 0 where
    pub lowest : 33 ≤ b
    pub highest : b ≤ 96
    pub audible : above_nyquist fl sample_rate b ≡ false
    pub loud : fl.lt (score b) (detector_min_score fl) ≡ false
    pub best : Unbeaten sample_rate score (score b)

  abbrev pub is_quiet : List F × D × F → Bool
  is_quiet (processed, energy, rms) =
      fl.lt rms (detector_min_rms fl) || fl.le_double energy (fl.double_of_int (pos 0))

  -- The number returned and the result, for what preprocess_samples gives: 0 for a quiet window; 0 with a
  -- confidence that is 0 or too small and that no note exceeds; or 1 and the loudest note.
  pub data IsDetection (sample_rate : ℕ) (p : List F × D × F) (r : ℕ × PitchResult F) : Type 0 where
    quiet :
        is_quiet p ≡ true
        → r ≡ (0, record (reset_result fl) { rms = p.2 })
        → IsDetection sample_rate p r
    faint :
        (c : F)
        → is_quiet p ≡ false
        → (c ≡ fl.literal 0 0) ⊎ (fl.lt c (detector_min_score fl) ≡ true)
        → Unbeaten sample_rate (scores p sample_rate) c
        → r ≡ (0, record (reset_result fl) { rms = p.2; confidence = c })
        → IsDetection sample_rate p r
    sounding :
        (b : ℕ)
        → is_quiet p ≡ false
        → IsLoudest sample_rate (scores p sample_rate) b
        → r ≡ (1, found fl b (scores p sample_rate b) (record (reset_result fl) { rms = p.2 }))
        → IsDetection sample_rate p r

  reached :
      (sample_rate end k : ℕ)
      → (end ≡ 97) ⊎ (above_nyquist fl sample_rate end ≡ true)
      → 33 ≤ end
      → k ≤ 96
      → ((j : ℕ) → 33 ≤ j → j ≤ k → above_nyquist fl sample_rate j ≡ false)
      → k < end
  reached sample_rate end k (inl e) from small below = omega arith
  reached sample_rate end k (inr e) from small below = elim (cases k end) [
    | inl l ↦ l
    | inr g ↦ absurd (true≢false (sym e ∙ below end from g))
  ]
    where
      cases : (k end : ℕ) → (k < end) ⊎ (end ≤ k)
      cases k end = ground arith

  decide-IsDetection :
      (ordered : IsOrdered fl) (sample_rate end : ℕ) (p : List F × D × F) (o : Option ℕ) (s : F)
      → is_quiet p ≡ false
      → ((k : ℕ) → 33 ≤ k → k < end → above_nyquist fl sample_rate k ≡ false)
      → end ≤ 97
      → Unbeaten sample_rate (scores p sample_rate) s
      → IsTried fl ordered (above_nyquist fl sample_rate) (scores p sample_rate) 33 end o s
      → IsDetection sample_rate p (decide fl o s (record (reset_result fl) { rms = p.2 }))
  unfolding decide
  decide-IsDetection ordered sample_rate end p none s q heard small unbeaten h =
      faint s q (inl h) unbeaten refl
  decide-IsDetection ordered sample_rate end p (some b) s q heard small unbeaten (l, u, same) =
      if-holds (IsDetection sample_rate p) (fl.lt s (detector_min_score fl)) _ _
        (λ f. faint s q (inr f) unbeaten refl)
        (λ f.
          sounding b q
            (record {
              lowest = l;
              highest = omega arith;
              audible = heard b l u;
              loud = subst (λ x. fl.lt x (detector_min_score fl) ≡ false) same f;
              best = subst (Unbeaten sample_rate (scores p sample_rate)) same unbeaten;
            })
            (ap (λ x. (1, found fl b x (record (reset_result fl) { rms = p.2 }))) same))

  detect_in-IsDetection :
      (ordered : IsOrdered fl) (sample_rate : ℕ) (p : List F × D × F)
      → IsDetection sample_rate p (detect_in fl sample_rate p)
  unfolding best_note
  detect_in-IsDetection ordered sample_rate (processed, energy, rms) =
      let score = score_of fl processed sample_rate energy in
      let h =
        search_notes-Searched fl ordered (above_nyquist fl sample_rate) score 33 64 33
          (record { midi_note = none; score = fl.literal 0 0 }) (omega arith)
          (λ k l u. absurd (omega arith))
          (record { tried = refl; unbeaten = λ k l u. absurd (omega arith) }) in
      if-holds (IsDetection sample_rate (processed, energy, rms))
        (is_quiet (processed, energy, rms)) _ _ (λ e. quiet e refl)
        (λ e.
          decide-IsDetection ordered sample_rate h.end (processed, energy, rms) _ _ e h.heard
            h.at_most
            (λ k n m below.
              h.is_best.unbeaten k n (reached sample_rate h.end k h.stopped h.at_least m below))
            h.is_best.tried)

  -- For floats whose < is transitive and irreflexive: a window with samples and a rate is analysed in at
  -- most 4096 of its samples. The answer is 0 for a window that is quiet; 0 if the score that no note
  -- beats is 0 or below the least score; or else 1, with its own frequency and its score cut at 1, for a
  -- note from 33 to 96 below half the rate that has the least score and is not beaten by any other.
  pub pitch_detect_note-IsDetection :
      (ordered : IsOrdered fl) (samples : List ℤ) (sample_rate : ℕ)
      → 0 < length samples
      → 0 < sample_rate
      → (let p = preprocess_samples fl (take (clamp_sample_count (length samples)) samples) in
          (length p.0 ≤ 4096)
          × IsDetection sample_rate p (pitch_detect_note fl (some samples) sample_rate))
  unfolding pitch_detect_note
  pitch_detect_note-IsDetection ordered samples sample_rate h k =
      let used = take (clamp_sample_count (length samples)) samples in
      let filled : (length samples == 0 || sample_rate == 0) ≡ false = ground arith in
      (
        preprocess_samples-length used 4096 (
            omega (
              arith,
              length-take (clamp_sample_count (length samples)) samples,
              clamped (length samples),
            )),
        simp filled (detect_in-IsDetection ordered sample_rate (preprocess_samples fl used)),
      )
    where
      clamped : (n : ℕ) → clamp_sample_count n ≤ 4096
      clamped n = ground arith
