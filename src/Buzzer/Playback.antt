-- ===== src/Buzzer/Playback.antt =====
-- server/device/buzzer/buzzer.c: playing a melody.
pub mod Silence
use tcpremote_device_control.Base.{
  ℕ, Bool, true, false, if◌then◌else◌, List, [], ◌∷◌, Option, none, some,
}
use tcpremote_device_control.DeviceResult.{DeviceResult, ok}
use tcpremote_device_control.Buzzer.{
  Buzzer, stop_output, write_output_if_running, delay_until_done_or_stopped,
}
use tcpremote_device_control.Buzzer.Melody.{BuzzerNote, MelodyBuffer}

-- The breaks of the loop. `none` is no fuel left in a delay.
abbrev pub if_playing : Bool × Buzzer → (Buzzer → Option Buzzer) → Option Buzzer
if_playing (playing, b) next = if playing then next b else some b

abbrev pub if_delayed : Option (Bool × Buzzer) → (Buzzer → Option Buzzer) → Option Buzzer
if_delayed none next = none
if_delayed (some (done, b)) next = if done then next b else some b

-- The loop over the notes from the first on.
unfoldable pub play_notes : List BuzzerNote → Buzzer → Option Buzzer
unfolding write_output_if_running delay_until_done_or_stopped
play_notes [] b = some b
play_notes (note ∷ notes) b = if_playing (write_output_if_running note.frequency_hz b) (λ b'.
    if_delayed (delay_until_done_or_stopped note.duration_ms b') (λ b''. play_notes notes b''))

-- The notes of a buffer in the order of the array.
abbrev pub in_order : List BuzzerNote → List BuzzerNote → List BuzzerNote
in_order [] later = later
in_order (note ∷ notes) later = in_order notes (note ∷ later)

abbrev pub end_playing : Option Buzzer → Option (DeviceResult × Buzzer)
end_playing none = none
end_playing (some b) = some (ok, stop_output false b)

unfoldable pub play_melody : MelodyBuffer → Buzzer → Option (DeviceResult × Buzzer)
unfolding play_notes stop_output
play_melody melody b = end_playing (play_notes (in_order melody.notes []) b)
