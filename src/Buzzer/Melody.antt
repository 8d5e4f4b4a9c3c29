-- ===== src/Buzzer/Melody.antt =====
-- server/device/buzzer/buzzer.c: the array of notes. The cells in use are a list with the latest first,
-- so `count` is its length.
pub mod Notes
use tcpremote_device_control.Base.{
  ℕ, zero, suc, ◌+◌, ◌*◌, ◌%◌, ◌^◌, Bool, true, false, not, ◌==◌, ltb, if◌then◌else◌, List, [], ◌∷◌,
  length, ℤ, pos, negsuc, eqb_ℤ,
}
use tcpremote_device_control.DeviceResult.{DeviceResult, ok, device_failed}

abbrev pub melody_initial_capacity : ℕ
melody_initial_capacity = 64

pub record BuzzerNote : Type 0 where
  pub frequency_hz : ℤ
  pub duration_ms : ℕ

pub record MelodyBuffer : Type 0 where
  pub notes : List BuzzerNote
  pub capacity : ℕ

-- MelodyBuffer melody = { 0 }
abbrev pub no_melody : MelodyBuffer
no_melody = record { notes = []; capacity = 0 }

unfoldable pub melody_buffer_cleanup : MelodyBuffer → MelodyBuffer
melody_buffer_cleanup melody = no_melody

abbrev pub next_capacity : ℕ → ℕ
next_capacity capacity = if capacity == 0 then melody_initial_capacity else capacity * 2 % 2 ^ 64

-- The two outcomes of a function that fails without a change to the buffer.
abbrev pub if_ok :
    DeviceResult × MelodyBuffer
    → (MelodyBuffer → DeviceResult × MelodyBuffer)
    → DeviceResult × MelodyBuffer
if_ok (ok, melody) next = next melody
if_ok (result, melody) next = (result, melody)

abbrev pub push_note : BuzzerNote → MelodyBuffer → DeviceResult × MelodyBuffer
push_note note melody = (ok, record melody { notes = note ∷ melody.notes })

abbrev pub at_least_0 : ℤ → ℤ
at_least_0 (pos n) = pos n
at_least_0 (negsuc n) = pos 0

-- Whether the note with this frequency joins the latest one.
abbrev pub joins : ℤ → List BuzzerNote → Bool
joins frequency_hz [] = false
joins frequency_hz (note ∷ notes) = eqb_ℤ note.frequency_hz frequency_hz

abbrev pub lengthen : ℕ → List BuzzerNote → List BuzzerNote
lengthen duration_ms [] = []
lengthen duration_ms (note ∷ notes) =
    record note { duration_ms = (note.duration_ms + duration_ms) % 2 ^ 32 } ∷ notes

-- `realloc` tells whether so many bytes can be had. A note has 8 bytes.
module _ (realloc : ℕ → Bool) where
  unfoldable pub melody_buffer_reserve_next : MelodyBuffer → DeviceResult × MelodyBuffer
  melody_buffer_reserve_next melody =
      let new_capacity = next_capacity melody.capacity in
      if ltb (length melody.notes) melody.capacity
      then (ok, melody)
      else if not (realloc (new_capacity * 8 % 2 ^ 64))
      then (device_failed, melody)
      else (ok, record melody { capacity = new_capacity })

  abbrev pub append_frequency : ℤ → ℕ → MelodyBuffer → DeviceResult × MelodyBuffer
  append_frequency frequency_hz duration_ms melody =
      if joins frequency_hz melody.notes
      then (ok, record melody { notes = lengthen duration_ms melody.notes })
      else if_ok (melody_buffer_reserve_next melody)
          (push_note (record { frequency_hz = frequency_hz; duration_ms = duration_ms }))

  unfoldable pub melody_buffer_append : ℤ → ℕ → MelodyBuffer → DeviceResult × MelodyBuffer
  unfolding melody_buffer_reserve_next
  melody_buffer_append frequency_hz duration_ms melody =
      if duration_ms == 0
      then (ok, melody)
      else append_frequency (at_least_0 frequency_hz) duration_ms melody
