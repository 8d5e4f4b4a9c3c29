-- ===== src/Tests/Pitches.antt =====
-- A window, with whole numbers for floats.
use tcpremote_device_control.Base.{
  ℕ, ◌≤◌, ◌+◌, ◌*◌, List, [], ◌∷◌, some, length, take, ℤ, pos, negsuc, arith, ltb, leb,
  if◌then◌else◌, ◌-◌, ◌/◌,
}
use tcpremote_device_control.Pitch.{clamp_sample_count, preprocess_samples, pitch_detect_note}
use tcpremote_device_control.Pitch.Arithmetic.{Floats, IsOrdered}
use tcpremote_device_control.Pitch.Notes.{IsDetection, pitch_detect_note-IsDetection}

abbrev size_of : ℤ → ℕ
size_of (pos n) = n
size_of (negsuc n) = n + 1

-- Crude arithmetic, which rounds to whole numbers and has no negative ones.
abbrev whole : Floats ℕ ℕ
whole = record {
  literal = λ m k. if ltb 0 k then 0 else m;
  of_int = size_of;
  add = λ a b. a + b;
  sub = λ a b. a - b;
  mul = λ a b. a * b;
  div = λ a b. a / b;
  lt = ltb;
  le = leb;
  powf = λ a b. a;
  cosf = λ a. 0;
  lroundf = pos;
  double_of_int = size_of;
  add_double = λ a b. a + b;
  sub_double = λ a b. a - b;
  mul_double = λ a b. a * b;
  div_double = λ a b. a / b;
  le_double = leb;
  sqrt = λ a. a;
  m_pi = 3;
  widen = λ a. a;
  narrow = λ a. a;
}

whole-IsOrdered : IsOrdered whole
whole-IsOrdered = record { trans = λ a b c l m. ground arith; irrefl = λ a. ground arith }

abbrev window : List ℤ
window = pos 900 ∷ negsuc 899 ∷ pos 900 ∷ negsuc 899 ∷ []

pitch_detect_note-IsDetection_example :
    (length (preprocess_samples whole (take (clamp_sample_count 4) window)).0 ≤ 4096)
    × IsDetection whole 8000
        (preprocess_samples whole (take (clamp_sample_count 4) window))
        (pitch_detect_note whole (some window) 8000)
pitch_detect_note-IsDetection_example =
    pitch_detect_note-IsDetection whole whole-IsOrdered window 8000 (omega arith) (omega arith)
