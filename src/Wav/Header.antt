-- ===== src/Wav/Header.antt =====
-- wav_read_header on files that a writer laid out, and its end on any file.
use tcpremote_device_control.Base.{
  ℕ, suc, ◌+◌, ◌*◌, ◌/◌, ◌%◌, ◌^◌, ◌<◌, ◌≡◌, refl, ap, ◌∙◌, Bool, true, false, not, ◌&&◌, ◌||◌,
  ◌==◌, ltb, if◌then◌else◌, List, [], ◌∷◌, ◌++◌, some, All, length, drop, Bytes, codes, equal_bytes,
  arith, Bool-cases, inl, inr, ◌⊎◌,
}
use tcpremote_device_control.DeviceResult.{ok, invalid_value}
use tcpremote_device_control.Wav.{
  WavInfo, no_info, wav_frame_size, read_chunk_header, skip_bytes, goes_on, finds, on_seek,
  read_format, read_chunk, next_chunk, has_format, accept_info, read_chunks, wav_read_header,
}
use tcpremote_device_control.Wav.Reading.{Stream, fread}
use tcpremote_device_control.Wav.Encode.{
  Chunk, id_of, padding, put_chunk, put_chunks, IsForeign, chunk_size, chunks_size, put_format,
  put_data, encode,
}

abbrev at : ℕ → Bytes → Stream
at position rest = record { rest = rest; position = position; seekable = true }

-- Four bytes stand for the number that they were made from.
u32_value :
    (n : ℕ)
    → n < 2 ^ 32
    → n % 256 + n / 256 % 256 * 256 + n / 65536 % 256 * 65536 + n / 16777216 % 256 * 16777216 ≡ n
u32_value n h = omega arith

u16_value : (n : ℕ) → n < 65536 → n % 256 + n / 256 % 256 * 256 ≡ n
u16_value n h = omega arith

data-found :
    (info : WavInfo) (size p : ℕ) (samples : Bytes)
    → size < 2 ^ 32
    → p + 8 < 2 ^ 32
    → next_chunk true info (at p (put_data size samples))
      ≡ finds (record info { data_offset = p + 8; data_size = size }) (at (p + 8) samples)
unfolding next_chunk read_chunk_header fread read_chunk equal_bytes
data-found info size p samples h k =
    let four : p + 4 + 4 ≡ p + 8 = omega arith in
    let fits : (p + 8) % 4294967296 ≡ p + 8 = omega arith in rw (four, fits, u32_value size h)

-- The fields that the format chunk holds, each in its width.
record IsStorable (info : WavInfo) : Type 0 where
  format_fits : info.audio_format < 65536
  channels_fits : info.channels < 65536
  rate_fits : info.sample_rate < 2 ^ 32
  align_fits : info.block_align < 65536
  bits_fits : info.bits_per_sample < 65536

abbrev with_format : WavInfo → WavInfo → WavInfo
with_format info old = record info { data_offset = old.data_offset; data_size = old.data_size }

format-read :
    (info old : WavInfo) (found : Bool) (byte_rate p : ℕ) (rest : Bytes)
    → IsStorable info
    → next_chunk found old (at p (put_format info byte_rate rest))
      ≡ goes_on true (with_format info old) (at (p + 24) rest)
unfolding next_chunk read_chunk_header fread read_chunk equal_bytes read_format skip_bytes
format-read info old found byte_rate p rest v =
    let behind : p + 4 + 4 + 16 ≡ p + 24 = omega arith in
    rw (
      behind,
      u16_value info.audio_format v.format_fits,
      u16_value info.channels v.channels_fits,
      u32_value info.sample_rate v.rate_fits,
      u16_value info.block_align v.align_fits,
      u16_value info.bits_per_sample v.bits_fits,
    )

drop-append : (xs ys : Bytes) → drop (length xs) (xs ++ ys) ≡ ys
drop-append [] ys = refl
drop-append (x ∷ xs) ys = drop-append xs ys

-- The payload and its padding are skipped.
skip_payload :
    (payload rest : Bytes) (p : ℕ)
    → skip_bytes (at p (payload ++ (padding (length payload) ++ rest))) (length payload)
      ≡ some (at (p + (length payload + length (padding (length payload)))) rest)
unfolding skip_bytes
skip_payload payload rest p = elim (Bool-cases (length payload % 2 == 1)) [
  | inl odd ↦
      let behind : p + length payload + 1 ≡ p + (length payload + 1) = omega arith in
      simp (odd, drop-append) (rw behind refl)
  | inr even ↦
      let behind : p + length payload ≡ p + (length payload + 0) = omega arith in
      simp (even, drop-append) (rw behind refl)
]

read_chunk-foreign :
    (id : Bytes) (size : ℕ) (found : Bool) (info : WavInfo) (f : Stream)
    → equal_bytes id (codes "fmt ") ≡ false
    → equal_bytes id (codes "data") ≡ false
    → read_chunk id size found info f ≡ on_seek (skip_bytes f size) (goes_on found info)
unfolding read_chunk
read_chunk-foreign id size found info f not_fmt not_data = simp (not_fmt, not_data)

chunk-skipped :
    (c : Chunk) (info : WavInfo) (found : Bool) (p : ℕ) (rest : Bytes)
    → IsForeign c
    → next_chunk found info (at p (put_chunk c rest))
      ≡ goes_on found info (at (p + chunk_size c) rest)
unfolding next_chunk read_chunk_header fread
chunk-skipped c info found p rest (not_fmt, not_data, small) =
    let size = length c.payload in
    let body = c.payload ++ (padding size ++ rest) in
    let start : p + 4 + 4 ≡ p + 8 = omega arith in
    let stop : p + 8 + (size + length (padding size)) ≡ p + chunk_size c = omega arith in
    rw (u32_value size small, start)
      (read_chunk-foreign (id_of c) size found info (at (p + 8) body) not_fmt not_data
        ∙ ap (λ o. on_seek o (goes_on found info)) (skip_payload c.payload rest (p + 8))
        ∙ ap (λ n. goes_on found info (at n rest)) stop)

read_chunks-on :
    (fuel : ℕ) (found found' : Bool) (info info' : WavInfo) (f f' : Stream)
    → next_chunk found info f ≡ goes_on found' info' f'
    → read_chunks (suc fuel) found info f ≡ read_chunks fuel found' info' f'
unfolding read_chunks
read_chunks-on fuel found found' info info' f f' e = rw (e, read_chunks) refl

read_chunks-found :
    (fuel : ℕ) (found : Bool) (info info' : WavInfo) (f f' : Stream)
    → next_chunk found info f ≡ finds info' f'
    → read_chunks (suc fuel) found info f ≡ some (accept_info info' f')
unfolding read_chunks
read_chunks-found fuel found info info' f f' e = rw (e, read_chunks) refl

-- The other chunks in front of the format.
chunks-skipped :
    (chunks : List Chunk) (fuel : ℕ) (p : ℕ) (rest : Bytes)
    → All IsForeign chunks
    → read_chunks (length chunks + fuel) false no_info (at p (put_chunks chunks rest))
      ≡ read_chunks fuel false no_info (at (p + chunks_size chunks) rest)
chunks-skipped [] fuel p rest foreign =
    let none_more : p + 0 ≡ p = omega arith in
    let no_rounds : 0 + fuel ≡ fuel = omega arith in rw (none_more, no_rounds) refl
chunks-skipped (c ∷ cs) fuel p rest foreign =
    let one_more : suc (length cs) + fuel ≡ suc (length cs + fuel) = omega arith in
    let stop : p + chunk_size c + chunks_size cs ≡ p + (chunk_size c + chunks_size cs) =
      omega arith in
    ap (λ n. read_chunks n false no_info (at p (put_chunks (c ∷ cs) rest))) one_more
    ∙ read_chunks-on (length cs + fuel) false false no_info no_info _ _
        (chunk-skipped c no_info false p (put_chunks cs rest) foreign.0)
    ∙ chunks-skipped cs fuel (p + chunk_size c) rest foreign.1
    ∙ ap (λ n. read_chunks fuel false no_info (at n rest)) stop

-- What the reader supports: uncompressed samples of 8 or 16 bits in one or two channels, whose frames
-- have the size given.
pub record IsSupported (info : WavInfo) : Type 0 where
  pub uncompressed : info.audio_format ≡ 1
  pub one_or_two : (info.channels ≡ 1) ⊎ (info.channels ≡ 2)
  pub bits : (info.bits_per_sample ≡ 8) ⊎ (info.bits_per_sample ≡ 16)
  pub rate_pos : 0 < info.sample_rate
  pub aligned : info.block_align ≡ info.channels * (info.bits_per_sample / 8)

channels_of : (n : ℕ) → (n == 0) ≡ false → ltb 2 n ≡ false → (n ≡ 1) ⊎ (n ≡ 2)
channels_of n a b = elim (Bool-cases (n == 1)) [
  | inl e ↦ inl (ground arith)
  | inr e ↦ inr (ground arith)
]

bits_of : (n : ℕ) → (not (n == 8) && not (n == 16)) ≡ false → (n ≡ 8) ⊎ (n ≡ 16)
bits_of n a = elim (Bool-cases (n == 8)) [ inl e ↦ inl (ground arith) | inr e ↦ inr (ground arith) ]

impossible : (true ≡ false) → ⊥
impossible e = cc

frame_size_lem :
    (info : WavInfo)
    → (wav_frame_size info == 0) ≡ false
    → wav_frame_size info ≡ info.channels * (info.bits_per_sample / 8)
unfolding wav_frame_size
frame_size_lem info h =
    elim (Bool-cases (info.channels == 0 || not (info.bits_per_sample % 8 == 0))) [
      | inl e ↦ absurd (impossible (simp e at h))
      | inr e ↦ simp e
    ]

pub has_format-IsSupported : (info : WavInfo) → has_format info ≡ true → IsSupported info
has_format-IsSupported info h = record {
  uncompressed = ground arith;
  one_or_two = channels_of info.channels (ground arith) (ground arith);
  bits = bits_of info.bits_per_sample (ground arith);
  rate_pos = ground arith;
  aligned = (ground arith) ∙ frame_size_lem info (ground arith);
}

frame_small : (c b : ℕ) → (c ≡ 1) ⊎ (c ≡ 2) → (b ≡ 8) ⊎ (b ≡ 16) → c * (b / 8) < 9
frame_small c b (inl p) (inl q) = rw (p, q) (omega arith)
frame_small c b (inl p) (inr q) = rw (p, q) (omega arith)
frame_small c b (inr p) (inl q) = rw (p, q) (omega arith)
frame_small c b (inr p) (inr q) = rw (p, q) (omega arith)

has_format-IsStorable :
    (info : WavInfo) → has_format info ≡ true → info.sample_rate < 2 ^ 32 → IsStorable info
has_format-IsStorable info h r =
    let s = has_format-IsSupported info h in
    let small : info.channels < 3 = ground arith in
    let narrow : info.bits_per_sample < 17 = ground arith in
    let frame : info.channels * (info.bits_per_sample / 8) < 9 =
      frame_small info.channels info.bits_per_sample s.one_or_two s.bits in
    record {
      format_fits = omega (arith, s.uncompressed);
      channels_fits = omega arith;
      rate_fits = r;
      align_fits = omega (arith, s.aligned);
      bits_fits = omega arith;
    }

accept_placed :
    (info : WavInfo) (n : ℕ) (f : Stream)
    → has_format info ≡ true
    → accept_info (record info { data_offset = n }) f ≡ (ok, record info { data_offset = n }, f)
unfolding wav_frame_size
accept_placed info n f h =
    ap (λ b. (if b then ok else invalid_value, record info { data_offset = n }, f)) h

-- Where the samples begin in a file with these chunks.
abbrev data_start : List Chunk → ℕ
data_start chunks = 12 + chunks_size chunks + 24 + 8

abbrev placed : WavInfo → List Chunk → WavInfo
placed info chunks = record info { data_offset = data_start chunks }

-- A file with other chunks in front, a format that the reader supports, and samples is read as it was
-- written: the result is OK, the fields are those written, the offset is where the samples begin, and
-- the stream stands there. Sizes and offsets lie below 2 ^ 32; a round for each chunk is enough fuel.
pub wav_read_header-encode :
    (info : WavInfo) (riff_size byte_rate : ℕ) (chunks : List Chunk) (samples : Bytes) (fuel : ℕ)
    → has_format info ≡ true
    → info.sample_rate < 2 ^ 32
    → info.data_size < 2 ^ 32
    → data_start chunks < 2 ^ 32
    → All IsForeign chunks
    → wav_read_header
        (length chunks + suc (suc fuel))
        (at 0 (encode info riff_size byte_rate chunks samples))
      ≡ some (ok, placed info chunks, at (data_start chunks) samples)
unfolding wav_read_header fread equal_bytes
wav_read_header-encode info riff_size byte_rate chunks samples fuel valid rate size start foreign =
    let end = put_format info byte_rate (put_data info.data_size samples) in
    let p = 12 + chunks_size chunks in
    let v = has_format-IsStorable info valid rate in
    chunks-skipped chunks (suc (suc fuel)) 12 end foreign
    ∙ read_chunks-on (suc fuel) false true no_info _ (at p end) _
        (format-read info no_info false byte_rate p (put_data info.data_size samples) v)
    ∙ read_chunks-found fuel true (with_format info no_info) _
        (at (p + 24) (put_data info.data_size samples)) _
        (data-found (with_format info no_info) info.data_size (p + 24) samples size start)
    ∙ ap some (accept_placed info (data_start chunks) (at (data_start chunks) samples) valid)
