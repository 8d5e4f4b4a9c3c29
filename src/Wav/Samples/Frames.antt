-- ===== src/Wav/Samples/Frames.antt =====
-- wav_read_samples: how much it reads, and what the samples are.
use tcpremote_device_control.Base.{
  ℕ, zero, suc, ◌+◌, ◌-◌, ◌*◌, ◌/◌, ◌%◌, ◌^◌, ◌<◌, ◌≤◌, ◌≡◌, refl, inl, inr, ◌⊎◌, Bool, true, false,
  not, ◌||◌, ◌==◌, leb, leb→le, if◌then◌else◌, Bool-cases, [], ◌∷◌, Option, none, some, length,
  take, drop, All, Bytes, ℤ, pos, negsuc, pos_part, neg_part, ◌+ℤ◌, +ℤ_parts, arith,
}
use tcpremote_device_control.Wav.{WavInfo, wav_frame_size, byte_at, read_le_u16}
use tcpremote_device_control.Wav.Reading.{Stream, fread}
use tcpremote_device_control.Wav.Header.{IsSupported}
use tcpremote_device_control.Wav.Samples.{
  sample_of_byte, sample_of_u16, read_sample_as_i16, div_int, Mixed, less, mix_channels, Samples,
  or_break, no_samples, end_frame, read_frames, wav_read_samples,
}

abbrev pub AreBytes : Bytes → Type 0
AreBytes = All (λ c. c < 256)

pub AreBytes-drop : (n : ℕ) (s : Bytes) → AreBytes s → AreBytes (drop n s)
AreBytes-drop zero s h = h
AreBytes-drop (suc n) [] h = tt
AreBytes-drop (suc n) (c ∷ s) h = AreBytes-drop n s h.1

-- A value of int16_t.
abbrev pub IsI16 : ℤ → Type 0
IsI16 v = (neg_part v ≤ 32768) × (pos_part v ≤ 32767)

abbrev OnSome : (ℤ → Type 0) → Option ℤ → Type 0
OnSome P none = Unit {0}
OnSome P (some v) = P v

byte_at-lt : (s : Bytes) (i : ℕ) → AreBytes s → byte_at s i < 256
byte_at-lt [] i h = omega arith
byte_at-lt (c ∷ s) zero h = h.0
byte_at-lt (c ∷ s) (suc i) h = byte_at-lt s i h.1

AreBytes-take : (n : ℕ) (s : Bytes) → AreBytes s → AreBytes (take n s)
AreBytes-take zero s h = tt
AreBytes-take (suc n) [] h = tt
AreBytes-take (suc n) (c ∷ s) h = (h.0, AreBytes-take n s h.1)

sample_of_byte-IsI16 : (b : ℕ) → b < 256 → IsI16 (sample_of_byte b)
sample_of_byte-IsI16 b h = ground arith

sample_of_u16-IsI16 : (u : ℕ) → u < 65536 → IsI16 (sample_of_u16 u)
sample_of_u16-IsI16 u h = ground arith

if-OnSome : (P : ℤ → Type 0) (b : Bool) (v : ℤ) → P v → OnSome P (if b then some v else none)
if-OnSome P true v h = h
if-OnSome P false v h = tt

-- One sample is a value of int16_t, and the stream stays one of bytes.
read_sample-IsI16 :
    (info : WavInfo) (f : Stream)
    → AreBytes f.rest
    → OnSome IsI16 (read_sample_as_i16 info f).0 × AreBytes (read_sample_as_i16 info f).1.rest
unfolding read_sample_as_i16 fread
read_sample-IsI16 info f h = elim (Bool-cases (info.bits_per_sample == 8)) [
  | inl e ↦
      let small = byte_at-lt (take 1 f.rest) 0 (AreBytes-take 1 f.rest h) in
      simp e (
        if-OnSome IsI16 _ (sample_of_byte (byte_at (take 1 f.rest) 0))
            (sample_of_byte-IsI16 _ small),
        AreBytes-drop 1 f.rest h,
      )
  | inr e ↦ elim (Bool-cases (info.bits_per_sample == 16)) [
    | inl g ↦
        let two = take 2 f.rest in
        let low = byte_at-lt two 0 (AreBytes-take 2 f.rest h) in
        let high = byte_at-lt two 1 (AreBytes-take 2 f.rest h) in
        simp (e, g)
          (
            if-OnSome IsI16 _ (sample_of_u16 (read_le_u16 two 0))
                (sample_of_u16-IsI16 _ (omega arith)),
            AreBytes-drop 2 f.rest h,
          )
    | inr g ↦ simp (e, g) (tt, h)
  ]
]

-- What `c` channels of `b` bytes add to a sum and take from what remains.
record AddsUp (c b : ℕ) (mixed : ℤ) (remaining : ℕ) (m : Mixed) : Type 0 where
  bytes : AreBytes m.stream.rest
  taken : m.remaining ≤ remaining
  whole :
      OnSome
        (λ v.
          (m.remaining + c * b ≡ remaining)
          × (pos_part mixed + neg_part v ≤ pos_part v + neg_part mixed + c * 32768)
          × (pos_part v + neg_part mixed ≤ pos_part mixed + neg_part v + c * 32767))
        m.sum

add_whole :
    (c b : ℕ) (mixed s : ℤ) (remaining left : ℕ)
    → IsI16 s
    → left ≡ remaining - b
    → b ≤ remaining
    → (o : Option ℤ) (after : ℕ)
    → OnSome
        (λ v.
          (after + c * b ≡ left)
          × (pos_part (mixed +ℤ s) + neg_part v ≤ pos_part v + neg_part (mixed +ℤ s) + c * 32768)
          × (pos_part v + neg_part (mixed +ℤ s) ≤ pos_part (mixed +ℤ s) + neg_part v + c * 32767))
        o
    → OnSome
        (λ v.
          (after + suc c * b ≡ remaining)
          × (pos_part mixed + neg_part v ≤ pos_part v + neg_part mixed + suc c * 32768)
          × (pos_part v + neg_part mixed ≤ pos_part mixed + neg_part v + suc c * 32767))
        o
add_whole c b mixed s remaining left i e fits none after h = tt
add_whole c b mixed s remaining left i e fits (some v) after h =
    let split : suc c * b ≡ b + c * b = grind arith in
    (omega arith, omega (arith, +ℤ_parts mixed s, i.0), omega (arith, +ℤ_parts mixed s, i.1))

or_break-AddsUp :
    (c b : ℕ) (mixed : ℤ) (remaining : ℕ) (next : ℤ → Stream → Mixed) (o : Option ℤ × Stream)
    → OnSome IsI16 o.0 × AreBytes o.1.rest
    → b ≤ remaining
    → remaining < 2 ^ 32
    → ((s : ℤ) (f : Stream)
        → IsI16 s
        → AreBytes f.rest
        → AddsUp c b (mixed +ℤ s) (less remaining b) (next s f))
    → AddsUp (suc c) b mixed remaining (or_break remaining next o)
or_break-AddsUp c b mixed remaining next (none, f) h fits small ih = record {
  bytes = h.1;
  taken = omega arith;
  whole = tt;
}
or_break-AddsUp c b mixed remaining next (some s, f) h fits small ih =
    let a = ih s f h.0 h.1 in
    let left : less remaining b ≡ remaining - b = omega arith in
    record {
      bytes = a.bytes;
      taken = omega (arith, a.taken);
      whole =
          add_whole c b mixed s remaining (less remaining b) h.0 left fits (next s f).sum
            (next s f).remaining a.whole;
    }

mix_channels-AddsUp :
    (c : ℕ) (info : WavInfo) (mixed : ℤ) (remaining : ℕ) (f : Stream)
    → AreBytes f.rest
    → c * (info.bits_per_sample / 8) ≤ remaining
    → remaining < 2 ^ 32
    → AddsUp c (info.bits_per_sample / 8) mixed remaining (mix_channels c info mixed remaining f)
unfolding mix_channels
mix_channels-AddsUp zero info mixed remaining f h enough small = record {
  bytes = h;
  taken = omega arith;
  whole = (omega arith, omega arith, omega arith);
}
mix_channels-AddsUp (suc c) info mixed remaining f h enough small =
    let b = info.bits_per_sample / 8 in
    let split : suc c * b ≡ b + c * b = grind arith in
    or_break-AddsUp c b mixed remaining _ (read_sample_as_i16 info f) (read_sample-IsI16 info f h)
      (omega arith) small
      (λ s f' i bs.
        mix_channels-AddsUp c info (mixed +ℤ s) (less remaining b) f' bs (omega arith)
          (omega arith))

div_int-IsI16 :
    (c : ℕ) (v : ℤ)
    → (c ≡ 1) ⊎ (c ≡ 2)
    → 0 + neg_part v ≤ pos_part v + 0 + c * 32768
    → pos_part v + 0 ≤ 0 + neg_part v + c * 32767
    → IsI16 (div_int v c)
div_int-IsI16 c (pos n) (inl e) low high = rw e (omega arith, omega (arith, e))
div_int-IsI16 c (pos n) (inr e) low high = rw e (omega arith, omega (arith, e))
div_int-IsI16 c (negsuc n) (inl e) low high =
    let below : suc n ≤ 32768 = omega (arith, e) in rw e (ground arith, ground arith)
div_int-IsI16 c (negsuc n) (inr e) low high =
    let below : suc n ≤ 65536 = omega (arith, e) in rw e (ground arith, ground arith)

-- What reading leaves: samples of 16 bits, no more than asked for, and a count of the bytes that are
-- left that lost at least a frame for each of them.
pub record IsRead (max_samples frame remaining : ℕ) (r : Samples) : Type 0 where
  pub few : length r.samples ≤ max_samples
  pub counted : length r.samples * frame + r.remaining ≤ remaining
  pub in_range : All IsI16 r.samples
  pub bytes : AreBytes r.stream.rest

IsRead-none :
    (max_samples frame remaining left : ℕ) (f : Stream)
    → AreBytes f.rest
    → left ≤ remaining
    → IsRead max_samples frame remaining (no_samples left f)
IsRead-none max_samples frame remaining left f h k = record {
  few = omega arith;
  counted = omega arith;
  in_range = tt;
  bytes = h;
}

end_frame-IsRead :
    (n c b remaining : ℕ) (m : Mixed) (next : ℕ → Stream → Samples) (o : Option ℤ)
    → (c ≡ 1) ⊎ (c ≡ 2)
    → AreBytes m.stream.rest
    → m.remaining ≤ remaining
    → OnSome
        (λ v.
          (m.remaining + c * b ≡ remaining)
          × (0 + neg_part v ≤ pos_part v + 0 + c * 32768)
          × (pos_part v + 0 ≤ 0 + neg_part v + c * 32767))
        o
    → IsRead n (c * b) m.remaining (next m.remaining m.stream)
    → IsRead (suc n) (c * b) remaining (end_frame o c m next)
end_frame-IsRead n c b remaining m next none one bytes taken whole ih =
    IsRead-none (suc n) (c * b) remaining m.remaining m.stream bytes taken
end_frame-IsRead n c b remaining m next (some v) one bytes taken whole ih =
    let r = next m.remaining m.stream in
    let more : suc (length r.samples) * (c * b) ≡ c * b + length r.samples * (c * b) =
      grind arith in
    record {
      few = omega (arith, ih.few);
      counted = omega (arith, ih.counted);
      in_range = (div_int-IsI16 c v one whole.1 whole.2, ih.in_range);
      bytes = ih.bytes;
    }

read_frames-IsRead :
    (max_samples : ℕ) (info : WavInfo) (remaining : ℕ) (f : Stream)
    → IsSupported info
    → AreBytes f.rest
    → remaining < 2 ^ 32
    → wav_frame_size info ≡ info.channels * (info.bits_per_sample / 8)
    → IsRead max_samples
        (info.channels * (info.bits_per_sample / 8))
        remaining
        (read_frames max_samples info remaining f)
unfolding read_frames
read_frames-IsRead zero info remaining f s h small size =
    IsRead-none 0 _ remaining remaining f h (omega arith)
read_frames-IsRead (suc n) info remaining f s h small size =
    let c = info.channels in
    let b = info.bits_per_sample / 8 in
    let m = mix_channels c info (pos 0) remaining f in
    elim (Bool-cases (leb (wav_frame_size info) remaining)) [
      | inr e ↦ simp e (IsRead-none (suc n) (c * b) remaining remaining f h (omega arith))
      | inl e ↦
          let enough : c * b ≤ remaining = omega (arith, leb→le (wav_frame_size info) remaining) in
          let a = mix_channels-AddsUp c info (pos 0) remaining f h enough small in
          simp e (
            end_frame-IsRead n c b remaining m (λ rest f'. read_frames n info rest f') m.sum
              s.one_or_two a.bytes a.taken a.whole
              (read_frames-IsRead n info m.remaining m.stream s a.bytes (omega (arith, a.taken))
                size))
    ]

frame_test :
    (c b : ℕ) → (c ≡ 1) ⊎ (c ≡ 2) → (b ≡ 8) ⊎ (b ≡ 16) → (c == 0 || not (b % 8 == 0)) ≡ false
frame_test c b (inl p) (inl q) = rw (p, q) refl
frame_test c b (inl p) (inr q) = rw (p, q) refl
frame_test c b (inr p) (inl q) = rw (p, q) refl
frame_test c b (inr p) (inr q) = rw (p, q) refl

frame_size_supported :
    (info : WavInfo)
    → IsSupported info
    → wav_frame_size info ≡ info.channels * (info.bits_per_sample / 8)
unfolding wav_frame_size
frame_size_supported info s =
    simp (frame_test info.channels info.bits_per_sample s.one_or_two s.bits)

-- For a format that the reader supports, in a file of bytes, and at most 2 ^ 32 - 1 bytes to read:
-- reading returns at most as many samples as asked for, each a value of int16_t, and the count of
-- bytes that remain falls by at least a frame for each, without a wrap-around.
pub wav_read_samples-IsRead :
    (max_samples : ℕ) (info : WavInfo) (remaining : ℕ) (f : Stream)
    → IsSupported info
    → AreBytes f.rest
    → remaining < 2 ^ 32
    → IsRead max_samples
        (info.channels * (info.bits_per_sample / 8))
        remaining
        (wav_read_samples max_samples info remaining f)
unfolding wav_read_samples
wav_read_samples-IsRead max_samples info remaining f s h small =
    elim (Bool-cases (wav_frame_size info == 0)) [
      | inl e ↦ simp e (IsRead-none max_samples _ remaining remaining f h (omega arith))
      | inr e ↦
          simp e (
            read_frames-IsRead max_samples info remaining f s h small (frame_size_supported info s))
    ]
