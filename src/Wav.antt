-- ===== src/Wav.antt =====
-- server/device/buzzer/wav_reader.h and wav_reader.c: the header of a WAV file. A file is what its
-- stream has still to give, with the position that ftell tells.
pub mod Reading
pub mod Samples
pub mod Encode
pub mod Header
pub mod Total
use tcpremote_device_control.Base.{
  ℕ, zero, suc, ◌+◌, ◌-◌, ◌*◌, ◌/◌, ◌%◌, ◌^◌, Bool, true, false, not, ◌&&◌, ◌||◌, ◌==◌, ltb, leb,
  if◌then◌else◌, List, [], ◌∷◌, Option, none, some, length, get_elem?, Bytes, codes, equal_bytes,
}
use tcpremote_device_control.DeviceResult.{DeviceResult, ok, invalid_value}
use Reading.{Stream, fread, seek}

-- A byte of a buffer that was read whole.
abbrev pub byte_at : Bytes → ℕ → ℕ
byte_at [] i = 0
byte_at (b ∷ bs) zero = b
byte_at (b ∷ bs) (suc i) = byte_at bs i

-- Shifts by 8, 16 and 24 of bytes that do not overlap.
abbrev pub read_le_u16 : Bytes → ℕ → ℕ
read_le_u16 bytes i = byte_at bytes i + byte_at bytes (i + 1) * 256

abbrev pub read_le_u32 : Bytes → ℕ → ℕ
read_le_u32 bytes i =
    byte_at bytes i
    + byte_at bytes (i + 1) * 256
    + byte_at bytes (i + 2) * 65536
    + byte_at bytes (i + 3) * 16777216

pub record WavInfo : Type 0 where
  pub audio_format : ℕ
  pub channels : ℕ
  pub sample_rate : ℕ
  pub block_align : ℕ
  pub bits_per_sample : ℕ
  pub data_offset : ℕ
  pub data_size : ℕ

-- memset (info, 0, sizeof (*info))
abbrev pub no_info : WavInfo
no_info = record {
  audio_format = 0;
  channels = 0;
  sample_rate = 0;
  block_align = 0;
  bits_per_sample = 0;
  data_offset = 0;
  data_size = 0;
}

unfoldable pub wav_frame_size : WavInfo → ℕ
wav_frame_size info =
    if info.channels == 0 || not (info.bits_per_sample % 8 == 0)
    then 0
    else info.channels * (info.bits_per_sample / 8)

-- The identifier and the size, if both can be read.
unfoldable pub read_chunk_header : Stream → Option (Bytes × ℕ) × Stream
unfolding fread
read_chunk_header f =
    let (id, f₁) = fread 4 f in
    let (size, f₂) = fread 4 f₁ in
    if not (length id == 4)
    then (none, f₁)
    else if not (length size == 4)
    then (none, f₂)
    else (some (id, read_le_u32 size 0), f₂)

-- `none` is a seek that fails.
abbrev pub pad : ℕ → Stream → Option Stream
pad size f = if size % 2 == 1 then seek 1 f else some f

abbrev pub pad_after : ℕ → Option Stream → Option Stream
pad_after size none = none
pad_after size (some f) = pad size f

unfoldable pub skip_bytes : Stream → ℕ → Option Stream
skip_bytes f size = pad_after size (seek size f)

-- What a round of the loop does: return an error, break, go on, or go on with `found_data` set.
pub data Round : Type 0 where
  rejects : Round
  leaves : Round
  goes_on : Bool → WavInfo → Stream → Round
  finds : WavInfo → Stream → Round

abbrev pub on_seek : Option Stream → (Stream → Round) → Round
on_seek none next = rejects
on_seek (some f) next = next f

abbrev pub format_of : Bytes → WavInfo → WavInfo
format_of fmt_header info = record info {
  audio_format = read_le_u16 fmt_header 0;
  channels = read_le_u16 fmt_header 2;
  sample_rate = read_le_u32 fmt_header 4;
  block_align = read_le_u16 fmt_header 12;
  bits_per_sample = read_le_u16 fmt_header 14;
}

-- The two seeks behind the 16 bytes: the second condition is read unless the first one fails.
abbrev pub skip_format_rest : ℕ → Stream → Option Stream
skip_format_rest size f =
    if ltb 16 size then pad_after size (skip_bytes f (size - 16)) else pad size f

unfoldable pub read_format : ℕ → WavInfo → Stream → Round
unfolding fread skip_bytes
read_format size info f =
    let (fmt_header, f') = fread 16 f in
    if ltb size 16
    then rejects
    else if not (length fmt_header == 16)
    then rejects
    else on_seek (skip_format_rest size f') (goes_on true (format_of fmt_header info))

unfoldable pub read_chunk : Bytes → ℕ → Bool → WavInfo → Stream → Round
unfolding read_format skip_bytes equal_bytes
read_chunk id size found_fmt info f =
    if equal_bytes id (codes "fmt ")
    then read_format size info f
    else if equal_bytes id (codes "data")
    then (if not found_fmt
        then rejects
        else finds (record info { data_offset = f.position % 2 ^ 32; data_size = size }) f)
    else on_seek (skip_bytes f size) (goes_on found_fmt info)

abbrev pub round_of : Option (Bytes × ℕ) × Stream → Bool → WavInfo → Round
round_of (none, f) found_fmt info = leaves
round_of (some (id, size), f) found_fmt info = read_chunk id size found_fmt info f

unfoldable pub next_chunk : Bool → WavInfo → Stream → Round
unfolding read_chunk_header read_chunk
next_chunk found_fmt info f = round_of (read_chunk_header f) found_fmt info

abbrev pub has_format : WavInfo → Bool
has_format info = not (
    not (info.audio_format == 1)
    || info.channels == 0
    || ltb 2 info.channels
    || info.sample_rate == 0
    || (not (info.bits_per_sample == 8) && not (info.bits_per_sample == 16))
    || wav_frame_size info == 0
    || not (info.block_align == wav_frame_size info))

-- Behind the loop. The stream stands behind the header of the data chunk.
abbrev pub accept_info : WavInfo → Stream → DeviceResult × WavInfo × Stream
accept_info info f = (if has_format info then ok else invalid_value, info, f)

-- `while (!found_data)` on fuel; `none` is no fuel left.
unfoldable pub read_chunks : ℕ → Bool → WavInfo → Stream → Option (DeviceResult × WavInfo × Stream)
unfolding next_chunk
read_chunks zero found_fmt info f = none
read_chunks (suc fuel) found_fmt info f = elim (next_chunk found_fmt info f) [
  | rejects ↦ some (invalid_value, info, f)
  | leaves ↦ some (invalid_value, info, f)
  | goes_on found info' f' ↦ read_chunks fuel found info' f'
  | finds info' f' ↦ some (accept_info info' f')
]

unfoldable pub wav_read_header : ℕ → Stream → Option (DeviceResult × WavInfo × Stream)
unfolding fread read_chunks equal_bytes
wav_read_header fuel f =
    let (chunk_id, f₁) = fread 4 f in
    let (riff_size, f₂) = fread 4 f₁ in
    let (wave_id, f₃) = fread 4 f₂ in
    if not (length chunk_id == 4) || not (length riff_size == 4) || not (length wave_id == 4)
    then some (invalid_value, no_info, f₃)
    else if not (equal_bytes chunk_id (codes "RIFF")) || not (equal_bytes wave_id (codes "WAVE"))
    then some (invalid_value, no_info, f₃)
    else read_chunks fuel false no_info f₃
