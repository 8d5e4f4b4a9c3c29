-- ===== src/Wav/Samples.antt =====
-- server/device/buzzer/wav_reader.c: reading samples, mixed down to one channel of 16 bits.
pub mod Frames
use tcpremote_device_control.Base.{
  ℕ, zero, suc, ◌+◌, ◌-◌, ◌*◌, ◌/◌, ◌%◌, ◌^◌, Bool, true, false, not, ◌||◌, ◌==◌, ltb, leb,
  if◌then◌else◌, List, [], ◌∷◌, Option, none, some, length, Bytes, ℤ, pos, negsuc, sub_ℕ, negate,
  ◌+ℤ◌,
}
use tcpremote_device_control.Wav.{WavInfo, wav_frame_size, byte_at, read_le_u16}
use tcpremote_device_control.Wav.Reading.{Stream, fread}

-- (int16_t)(((int)byte - 128) << 8)
abbrev pub sample_of_byte : ℕ → ℤ
sample_of_byte byte = sub_ℕ (byte * 256) 32768

-- (int16_t) of a 16-bit pattern
abbrev pub sample_of_u16 : ℕ → ℤ
sample_of_u16 u = if ltb u 32768 then pos u else negsuc (65535 - u)

-- `none` is a read or format failure.
unfoldable pub read_sample_as_i16 : WavInfo → Stream → Option ℤ × Stream
unfolding fread
read_sample_as_i16 info f =
    if info.bits_per_sample == 8
    then (let (bytes, f') = fread 1 f in
        (if length bytes == 1 then some (sample_of_byte (byte_at bytes 0)) else none, f'))
    else if info.bits_per_sample == 16
    then (let (bytes, f') = fread 2 f in
        (if length bytes == 2 then some (sample_of_u16 (read_le_u16 bytes 0)) else none, f'))
    else (none, f)

-- Division of an int by a positive number, towards 0.
abbrev pub div_int : ℤ → ℕ → ℤ
div_int (pos n) d = pos (n / d)
div_int (negsuc n) d = negate (suc n / d)

-- What the loop over the channels leaves: the sum, unless it broke off, and *remaining_data_size.
pub record Mixed : Type 0 where
  pub sum : Option ℤ
  pub remaining : ℕ
  pub stream : Stream

-- *remaining_data_size is an unsigned number of 32 bits.
abbrev pub less : ℕ → ℕ → ℕ
less remaining n = (remaining + 2 ^ 32 - n) % 2 ^ 32

-- The break of the loop, or its next round.
abbrev pub or_break : ℕ → (ℤ → Stream → Mixed) → Option ℤ × Stream → Mixed
or_break remaining next (none, f) = record { sum = none; remaining = remaining; stream = f }
or_break remaining next (some sample, f) = next sample f

unfoldable pub mix_channels : ℕ → WavInfo → ℤ → ℕ → Stream → Mixed
unfolding read_sample_as_i16
mix_channels zero info mixed remaining f = record {
  sum = some mixed;
  remaining = remaining;
  stream = f;
}
mix_channels (suc channels) info mixed remaining f =
    or_break remaining
      (λ sample f'.
        mix_channels channels info (mixed +ℤ sample) (less remaining (info.bits_per_sample / 8)) f')
      (read_sample_as_i16 info f)

-- The samples read, *remaining_data_size, and the stream.
pub record Samples : Type 0 where
  pub samples : List ℤ
  pub remaining : ℕ
  pub stream : Stream

abbrev pub put_sample : ℤ → Samples → Samples
put_sample sample r = record r { samples = sample ∷ r.samples }

abbrev pub no_samples : ℕ → Stream → Samples
no_samples remaining f = record { samples = []; remaining = remaining; stream = f }

abbrev pub end_frame : Option ℤ → ℕ → Mixed → (ℕ → Stream → Samples) → Samples
end_frame none channels m next = no_samples m.remaining m.stream
end_frame (some mixed) channels m next =
    put_sample (div_int mixed channels) (next m.remaining m.stream)

-- `max_samples - samples_read` rounds at most.
unfoldable pub read_frames : ℕ → WavInfo → ℕ → Stream → Samples
unfolding mix_channels
read_frames zero info remaining f = no_samples remaining f
read_frames (suc max_samples) info remaining f =
    let m = mix_channels info.channels info (pos 0) remaining f in
    let frame = end_frame m.sum info.channels m (λ rest f'. read_frames max_samples info rest f') in
    if leb (wav_frame_size info) remaining then frame else no_samples remaining f

unfoldable pub wav_read_samples : ℕ → WavInfo → ℕ → Stream → Samples
unfolding read_frames
wav_read_samples max_samples info remaining f =
    if wav_frame_size info == 0
    then no_samples remaining f
    else read_frames max_samples info remaining f
