-- ===== src/Buzzer/Melody/Notes.antt =====
-- What the appended notes add up to.
use tcpremote_device_control.Base.{
  ℕ, ◌+◌, ◌*◌, ◌%◌, ◌^◌, ◌<◌, ◌≤◌, ◌≡◌, ◌≢◌, refl, subst, Bool, true, false, not, ◌==◌, ltb, List,
  [], ◌∷◌, length, ℤ, pos, negsuc, eqb_ℤ_iff, arith, true≢false, sym, ◌∙◌, if-holds,
}
use tcpremote_device_control.DeviceResult.{DeviceResult, ok, device_failed}
use tcpremote_device_control.Buzzer.Melody.{
  BuzzerNote, MelodyBuffer, melody_buffer_reserve_next, melody_buffer_append, append_frequency,
  at_least_0, joins, lengthen, next_capacity, if_ok, push_note,
}

abbrev pub playing_time : List BuzzerNote → ℕ
playing_time [] = 0
playing_time (note ∷ notes) = note.duration_ms + playing_time notes

abbrev pub IsNewTo : ℤ → List BuzzerNote → Type 0
IsNewTo frequency_hz [] = Unit {0}
IsNewTo frequency_hz (note ∷ notes) = note.frequency_hz ≢ frequency_hz

-- No two neighbours have the same frequency, no frequency is negative, and no note is empty.
abbrev pub AreNotes : List BuzzerNote → Type 0
AreNotes [] = Unit {0}
AreNotes (note ∷ notes) =
    (0 < note.duration_ms)
    × (note.duration_ms < 2 ^ 32)
    × (at_least_0 note.frequency_hz ≡ note.frequency_hz)
    × IsNewTo note.frequency_hz notes
    × AreNotes notes

pub record IsMelody (melody : MelodyBuffer) : Type 0 where
  pub are_notes : AreNotes melody.notes
  pub fits : length melody.notes ≤ melody.capacity
  pub allocated : melody.capacity * 8 < 2 ^ 63

-- What an append does to a melody: it lasts longer by the duration, or it is as it was.
pub record IsAppended (duration_ms : ℕ) (melody : MelodyBuffer) (r : DeviceResult × MelodyBuffer)
    : Type 0 where
  pub is_melody : IsMelody r.1
  pub longer : r.0 ≡ ok → playing_time r.1.notes ≡ playing_time melody.notes + duration_ms
  pub unchanged : r.0 ≢ ok → (r.0 ≡ device_failed) × (r.1 ≡ melody)

-- What melody_buffer_reserve_next answers.
data Reserves (melody : MelodyBuffer) (r : DeviceResult × MelodyBuffer) : Type 0 where
  room :
      (capacity : ℕ)
      → r ≡ (ok, record melody { capacity = capacity })
      → length melody.notes < capacity
      → capacity * 8 < 2 ^ 63
      → Reserves melody r
  no_room : r ≡ (device_failed, melody) → Reserves melody r

next_capacity_more : (n c : ℕ) → n ≤ c → c * 8 < 2 ^ 63 → (ltb n c ≡ false) → n < next_capacity c
next_capacity_more n c h small e = ground arith

next_capacity_bytes : (c : ℕ) → c * 8 < 2 ^ 63 → next_capacity c * 8 % 2 ^ 64 ≡ next_capacity c * 8
next_capacity_bytes c small = ground arith

not-true : (b : Bool) → not b ≡ false → b ≡ true
not-true true e = refl
not-true false e = sym e

module _ (realloc : ℕ → Bool) (sized : (n : ℕ) → realloc n ≡ true → n < 2 ^ 63) where
  reserve-Reserves :
      (melody : MelodyBuffer)
      → IsMelody melody
      → Reserves melody (melody_buffer_reserve_next realloc melody)
  unfolding melody_buffer_reserve_next
  reserve-Reserves melody h =
      let c = next_capacity melody.capacity in
      if-holds (Reserves melody) (ltb (length melody.notes) melody.capacity) _ _
        (λ e. room melody.capacity refl (ground arith) h.allocated)
        (λ e.
          if-holds (Reserves melody) (not (realloc (c * 8 % 2 ^ 64))) _ _ (λ f. no_room refl)
            (λ f.
              room c refl
                (next_capacity_more (length melody.notes) melody.capacity h.fits h.allocated e)
                (subst (λ n. n < 2 ^ 63) (next_capacity_bytes melody.capacity h.allocated)
                  (sized (c * 8 % 2 ^ 64) (not-true _ f)))))

  ok≢device_failed : (ok ≡ device_failed) → ⊥
  ok≢device_failed e = cc

  push-IsAppended :
      (note : BuzzerNote) (melody : MelodyBuffer) (r : DeviceResult × MelodyBuffer)
      → IsMelody melody
      → AreNotes (note ∷ melody.notes)
      → Reserves melody r
      → IsAppended note.duration_ms melody (if_ok r (push_note note))
  push-IsAppended note melody r h k (room c e more small) =
      subst (λ r'. IsAppended note.duration_ms melody (if_ok r' (push_note note))) (sym e)
        (record {
          is_melody = record { are_notes = k; fits = omega arith; allocated = small };
          longer = λ f. omega arith;
          unchanged = λ f. absurd (f refl);
        })
  push-IsAppended note melody r h k (no_room e) =
      subst (λ r'. IsAppended note.duration_ms melody (if_ok r' (push_note note))) (sym e)
        (record {
          is_melody = h;
          longer = λ f. absurd (ok≢device_failed (sym f));
          unchanged = λ f. (refl, refl);
        })

  at_least_0_twice : (f : ℤ) → at_least_0 (at_least_0 f) ≡ at_least_0 f
  at_least_0_twice (pos n) = refl
  at_least_0_twice (negsuc n) = refl

  joins-IsNewTo : (f : ℤ) (notes : List BuzzerNote) → joins f notes ≡ false → IsNewTo f notes
  joins-IsNewTo f [] e = tt
  joins-IsNewTo f (note ∷ notes) e = λ same. true≢false (sym ((eqb_ℤ_iff _ _).1 same) ∙ e)

  lengthen-AreNotes :
      (f : ℤ) (d : ℕ) (notes : List BuzzerNote)
      → joins f notes ≡ true
      → AreNotes notes
      → playing_time notes + d < 2 ^ 32
      → AreNotes (lengthen d notes)
        × (playing_time (lengthen d notes) ≡ playing_time notes + d)
        × (length (lengthen d notes) ≡ length notes)
  lengthen-AreNotes f d [] e h small = absurd (true≢false (sym e))
  lengthen-AreNotes f d (note ∷ notes) e (positive, bounded, frequency, new, others) small =
      ((omega arith, omega arith, frequency, new, others), omega arith, refl)

  append_frequency-IsAppended :
      (f : ℤ) (d : ℕ) (melody : MelodyBuffer)
      → IsMelody melody
      → at_least_0 f ≡ f
      → 0 < d
      → playing_time melody.notes + d < 2 ^ 32
      → IsAppended d melody (append_frequency realloc f d melody)
  append_frequency-IsAppended f d melody h frequency positive small =
      if-holds (IsAppended d melody) (joins f melody.notes) _ _
        (λ e.
          let k = lengthen-AreNotes f d melody.notes e h.are_notes small in
          record {
            is_melody = record {
              are_notes = k.0;
              fits = omega (arith, k.2, h.fits);
              allocated = h.allocated;
            };
            longer = λ g. k.1;
            unchanged = λ g. absurd (g refl);
          })
        (λ e.
          push-IsAppended (record { frequency_hz = f; duration_ms = d }) melody _ h
            (positive, omega arith, frequency, joins-IsNewTo f melody.notes e, h.are_notes)
            (reserve-Reserves melody h))

  -- An append with room for the time in 32 bits, and a realloc that gives no 2 ^ 63 bytes, keeps the
  -- melody: its cells in use fit what is allocated, neighbours differ, no note is empty and no frequency
  -- negative. On OK it lasts longer by the duration; else it fails and is as it was.
  pub melody_buffer_append-IsAppended :
      (frequency_hz : ℤ) (duration_ms : ℕ) (melody : MelodyBuffer)
      → IsMelody melody
      → playing_time melody.notes + duration_ms < 2 ^ 32
      → IsAppended duration_ms melody (melody_buffer_append realloc frequency_hz duration_ms melody)
  unfolding melody_buffer_append
  melody_buffer_append-IsAppended frequency_hz duration_ms melody h small =
      if-holds (IsAppended duration_ms melody) (duration_ms == 0) _ _
        (λ e. record {
          is_melody = h;
          longer = λ g. ground arith;
          unchanged = λ g. absurd (g refl);
        })
        (λ e.
          append_frequency-IsAppended (at_least_0 frequency_hz) duration_ms melody h
            (at_least_0_twice frequency_hz) (ground arith) small)
