-- ===== src/Wav/Total.antt =====
-- wav_read_header ends on every file, and what its success says.
use tcpremote_device_control.Base.{
  ℕ, zero, suc, ◌+◌, ◌-◌, ◌%◌, ◌<◌, ◌≤◌, ◌≡◌, refl, subst, Bool, true, false, not, ◌==◌, ltb,
  if◌then◌else◌, Option, none, some, length, take, drop, length-take, length-drop, Bytes, codes,
  equal_bytes, arith, Bool-cases, inl, inr, ==_iff,
}
use tcpremote_device_control.DeviceResult.{DeviceResult, ok, invalid_value}
use tcpremote_device_control.Wav.{
  WavInfo, no_info, read_le_u32, read_chunk_header, skip_bytes, pad, pad_after, Round, rejects,
  leaves, goes_on, finds, on_seek, skip_format_rest, read_format, read_chunk, next_chunk,
  has_format, accept_info, read_chunks, wav_read_header,
}
use tcpremote_device_control.Wav.Reading.{Stream, fread, seek}
use tcpremote_device_control.Wav.Header.{IsSupported, has_format-IsSupported}

-- Whatever a round does, the stream that it goes on with has at most `n` bytes left.
abbrev LeavesAtMost : ℕ → Round → Type 0
LeavesAtMost n rejects = Unit {0}
LeavesAtMost n leaves = Unit {0}
LeavesAtMost n (goes_on found info f) = length f.rest ≤ n
LeavesAtMost n (finds info f) = Unit {0}

abbrev SeeksAtMost : ℕ → Option Stream → Type 0
SeeksAtMost n none = Unit {0}
SeeksAtMost n (some f) = length f.rest ≤ n

seek-SeeksAtMost : (k n : ℕ) (f : Stream) → length f.rest ≤ n → SeeksAtMost n (seek k f)
seek-SeeksAtMost k n f h = elim (Bool-cases f.seekable) [
  | inl e ↦ simp e (omega (arith, length-drop k f.rest))
  | inr e ↦ simp e tt
]

pad-SeeksAtMost : (size n : ℕ) (f : Stream) → length f.rest ≤ n → SeeksAtMost n (pad size f)
pad-SeeksAtMost size n f h = elim (Bool-cases (size % 2 == 1)) [
  | inl e ↦ simp e (seek-SeeksAtMost 1 n f h)
  | inr e ↦ simp e h
]

pad_after-SeeksAtMost :
    (size n : ℕ) (o : Option Stream) → SeeksAtMost n o → SeeksAtMost n (pad_after size o)
pad_after-SeeksAtMost size n none h = tt
pad_after-SeeksAtMost size n (some f) h = pad-SeeksAtMost size n f h

skip_bytes-SeeksAtMost :
    (f : Stream) (size n : ℕ) → length f.rest ≤ n → SeeksAtMost n (skip_bytes f size)
unfolding skip_bytes
skip_bytes-SeeksAtMost f size n h =
    pad_after-SeeksAtMost size n (seek size f) (seek-SeeksAtMost size n f h)

on_seek-LeavesAtMost :
    (n : ℕ) (o : Option Stream) (found : Bool) (info : WavInfo)
    → SeeksAtMost n o
    → LeavesAtMost n (on_seek o (goes_on found info))
on_seek-LeavesAtMost n none found info h = tt
on_seek-LeavesAtMost n (some f) found info h = h

if-LeavesAtMost :
    (n : ℕ) (b : Bool) (r s : Round)
    → LeavesAtMost n r
    → LeavesAtMost n s
    → LeavesAtMost n (if b then r else s)
if-LeavesAtMost n true r s h k = h
if-LeavesAtMost n false r s h k = k

fread-shorter : (k n : ℕ) (f : Stream) → length f.rest ≤ n → length (fread k f).1.rest ≤ n
unfolding fread
fread-shorter k n f h = omega (arith, length-drop k f.rest)

skip_format_rest-SeeksAtMost :
    (size n : ℕ) (f : Stream) → length f.rest ≤ n → SeeksAtMost n (skip_format_rest size f)
skip_format_rest-SeeksAtMost size n f h = elim (Bool-cases (ltb 16 size)) [
  | inl e ↦ simp e (pad_after-SeeksAtMost size n _ (skip_bytes-SeeksAtMost f (size - 16) n h))
  | inr e ↦ simp e (pad-SeeksAtMost size n f h)
]

read_chunk-LeavesAtMost :
    (id : Bytes) (size : ℕ) (found : Bool) (info : WavInfo) (f : Stream) (n : ℕ)
    → length f.rest ≤ n
    → LeavesAtMost n (read_chunk id size found info f)
unfolding read_chunk read_format
read_chunk-LeavesAtMost id size found info f n h =
    if-LeavesAtMost n (equal_bytes id (codes "fmt ")) _ _
      (if-LeavesAtMost n (ltb size 16) rejects _ tt (
        if-LeavesAtMost n (not (length (fread 16 f).0 == 16)) rejects _ tt (
          on_seek-LeavesAtMost n (skip_format_rest size (fread 16 f).1) true _
            (skip_format_rest-SeeksAtMost size n (fread 16 f).1 (fread-shorter 16 n f h)))))
      (if-LeavesAtMost n (equal_bytes id (codes "data")) _ _
        (if-LeavesAtMost n (not found) rejects _ tt tt)
        (on_seek-LeavesAtMost n (skip_bytes f size) found info (skip_bytes-SeeksAtMost f size n h)))

-- A round that goes on has read the eight bytes of a header.
abbrev Advances : ℕ → Round → Type 0
Advances n rejects = Unit {0}
Advances n leaves = Unit {0}
Advances n (goes_on found info f) = length f.rest + 8 ≤ n
Advances n (finds info f) = Unit {0}

LeavesAtMost-Advances : (n : ℕ) (r : Round) → 8 ≤ n → LeavesAtMost (n - 8) r → Advances n r
LeavesAtMost-Advances n rejects big h = tt
LeavesAtMost-Advances n leaves big h = tt
LeavesAtMost-Advances n (goes_on found info f) big h = omega arith
LeavesAtMost-Advances n (finds info f) big h = tt

next_chunk-Advances :
    (found : Bool) (info : WavInfo) (f : Stream)
    → Advances (length f.rest) (next_chunk found info f)
unfolding next_chunk read_chunk_header fread
next_chunk-Advances found info f = elim (Bool-cases (length (take 4 f.rest) == 4)) [
  | inr a ↦ simp a tt
  | inl a ↦ elim (Bool-cases (length (take 4 (drop 4 f.rest)) == 4)) [
    | inr b ↦ simp (a, b) tt
    | inl b ↦
        let big : 8 ≤ length f.rest = omega (
          arith,
          (==_iff _ _).0 a,
          (==_iff _ _).0 b,
          length-take 4 f.rest,
          length-take 4 (drop 4 f.rest),
          length-drop 4 f.rest,
        ) in
        let shorter : length (drop 4 (drop 4 f.rest)) ≤ length f.rest - 8 =
          omega (arith, length-drop 4 (drop 4 f.rest), length-drop 4 f.rest) in
        simp (a, b)
          (LeavesAtMost-Advances (length f.rest) _ big (
            read_chunk-LeavesAtMost (fread 4 f).0 (read_le_u32 (fread 4 (fread 4 f).1).0 0) found
              info (fread 4 (fread 4 f).1).1 (length f.rest - 8) shorter))
  ]
]

-- What a run of the loop ends with: an error, or fields that the reader supports.
pub data Ends (f : Option (DeviceResult × WavInfo × Stream)) : Type 0 where
  fails : (info : WavInfo) (rest : Stream) → f ≡ some (invalid_value, info, rest) → Ends f
  succeeds :
      (info : WavInfo) (rest : Stream) → f ≡ some (ok, info, rest) → IsSupported info → Ends f

accept_info-Ends : (info : WavInfo) (f : Stream) → Ends (some (accept_info info f))
accept_info-Ends info f = elim (Bool-cases (has_format info)) [
  | inl e ↦ succeeds info f (simp e) (has_format-IsSupported info e)
  | inr e ↦ fails info f (simp e)
]

-- The rest of a run behind one round.
round-Ends :
    (fuel : ℕ) (r : Round) (info : WavInfo) (f : Stream)
    → ((found : Bool) (info' : WavInfo) (f' : Stream)
        → r ≡ goes_on found info' f'
        → Ends (read_chunks fuel found info' f'))
    → Ends (elim r [
      | rejects ↦ some (invalid_value, info, f)
      | leaves ↦ some (invalid_value, info, f)
      | goes_on found info' f' ↦ read_chunks fuel found info' f'
      | finds info' f' ↦ some (accept_info info' f')
    ])
round-Ends fuel rejects info f next = fails info f refl
round-Ends fuel leaves info f next = fails info f refl
round-Ends fuel (goes_on found info' f') info f next = next found info' f' refl
round-Ends fuel (finds info' f') info f next = accept_info-Ends info' f'

read_chunks-Ends :
    (fuel : ℕ) (found : Bool) (info : WavInfo) (f : Stream)
    → length f.rest < fuel
    → Ends (read_chunks fuel found info f)
unfolding read_chunks
read_chunks-Ends zero found info f h = absurd (omega arith)
read_chunks-Ends (suc fuel) found info f h =
    round-Ends fuel (next_chunk found info f) info f (λ found' info' f' e.
      let shorter = subst (Advances (length f.rest)) e (next_chunk-Advances found info f) in
      read_chunks-Ends fuel found' info' f' (omega arith))

if-Ends :
    (b : Bool) (o p : Option (DeviceResult × WavInfo × Stream))
    → Ends o
    → Ends p
    → Ends (if b then o else p)
if-Ends true o p h k = h
if-Ends false o p h k = k

-- On every file the reader ends, with an error, or with OK and a format that it supports: one or two
-- channels of 8 or 16 bits, uncompressed, whose frames have the size that the header gives. One round
-- more than there are bytes is enough fuel.
pub wav_read_header-Ends : (f : Stream) → Ends (wav_read_header (length f.rest + 1) f)
unfolding wav_read_header fread
wav_read_header-Ends f =
    let f₃ = (fread 4 (fread 4 (fread 4 f).1).1).1 in
    let shorter : length f₃.rest < length f.rest + 1 = omega (
      arith,
      length-drop 4 (drop 4 (drop 4 f.rest)),
      length-drop 4 (drop 4 f.rest),
      length-drop 4 f.rest,
    ) in
    if-Ends _ _ _ (fails no_info f₃ refl) (
      if-Ends _ _ _ (fails no_info f₃ refl)
        (read_chunks-Ends (length f.rest + 1) false no_info f₃ shorter))
