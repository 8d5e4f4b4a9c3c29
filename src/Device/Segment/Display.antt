-- ===== src/Device/Segment/Display.antt =====
-- The levels on the eight pins after a digit is shown, and after the display is cleared.
use tcpremote_device_control.Base.{
  ℕ, zero, suc, ◌≤◌, ◌≡◌, refl, sym, ◌∙◌, ltb_ℤ, Bool, true, false, ◌||◌, ◌==◌, if◌then◌else◌, List,
  Option, some, pos, arith,
}
use tcpremote_device_control.Device.Gpio.{GpioCall, low, high, last_level}
use tcpremote_device_control.Device.Segment.{
  Segment, segment_display, segment_clear, segment_cleanup, segment_write_pattern, segment_all_off,
  pattern_of,
}
use tcpremote_device_control.DeviceResult.{ok}

pub data Part : Type 0 where
  a b c d e f g dp : Part

-- The pins of segment.h.
abbrev pub pin_of : Part → ℕ
pin_of a = 5
pin_of b = 6
pin_of c = 13
pin_of d = 19
pin_of e = 26
pin_of f = 20
pin_of g = 21
pin_of dp = 16

-- The digits for which a part of the display stays dark; the point always does.
abbrev dark : Part → ℕ → Bool
dark a n = n == 1 || n == 4
dark b n = n == 5 || n == 6
dark c n = n == 2
dark d n = n == 1 || n == 4 || n == 7
dark e n = n == 1 || n == 3 || n == 4 || n == 5 || n == 7 || n == 9
dark f n = n == 1 || n == 2 || n == 3 || n == 7
dark g n = n == 0 || n == 1 || n == 7
dark dp n = true

-- A lit part is driven low: the display has a common anode.
abbrev pub shown : ℕ → Part → Option ℕ
shown n p = some (if dark p n then high else low)

pattern_levels :
    (n : ℕ) (p : Part) (calls : List GpioCall)
    → n ≤ 9
    → last_level (pin_of p) (segment_write_pattern (pattern_of (pos n)) calls) ≡ shown n p
unfolding segment_write_pattern last_level
pattern_levels zero a calls h = refl
pattern_levels zero _ calls h = refl
pattern_levels (suc zero) a calls h = refl
pattern_levels (suc zero) _ calls h = refl
pattern_levels (suc (suc zero)) a calls h = refl
pattern_levels (suc (suc zero)) _ calls h = refl
pattern_levels (suc (suc (suc zero))) a calls h = refl
pattern_levels (suc (suc (suc zero))) _ calls h = refl
pattern_levels (suc (suc (suc (suc zero)))) a calls h = refl
pattern_levels (suc (suc (suc (suc zero)))) _ calls h = refl
pattern_levels (suc (suc (suc (suc (suc zero))))) a calls h = refl
pattern_levels (suc (suc (suc (suc (suc zero))))) _ calls h = refl
pattern_levels (suc (suc (suc (suc (suc (suc zero)))))) a calls h = refl
pattern_levels (suc (suc (suc (suc (suc (suc zero)))))) _ calls h = refl
pattern_levels (suc (suc (suc (suc (suc (suc (suc zero))))))) a calls h = refl
pattern_levels (suc (suc (suc (suc (suc (suc (suc zero))))))) _ calls h = refl
pattern_levels (suc (suc (suc (suc (suc (suc (suc (suc zero)))))))) a calls h = refl
pattern_levels (suc (suc (suc (suc (suc (suc (suc (suc zero)))))))) _ calls h = refl
pattern_levels (suc (suc (suc (suc (suc (suc (suc (suc (suc zero))))))))) a calls h = refl
pattern_levels (suc (suc (suc (suc (suc (suc (suc (suc (suc zero))))))))) _ calls h = refl
pattern_levels (suc (suc (suc (suc (suc (suc (suc (suc (suc (suc n)))))))))) p calls h =
    absurd (omega arith)

display_digit :
    (n : ℕ) (s : Segment)
    → n ≤ 9
    → segment_display (pos n) s ≡ (
      record {
        segment_enabled = true;
        segment_value = pos n;
        calls = segment_write_pattern (pattern_of (pos n)) s.calls;
      },
      ok,
    )
unfolding segment_display
display_digit n s h =
    let fits : (ltb_ℤ (pos n) (pos 0) || ltb_ℤ (pos 9) (pos n)) ≡ false = ground arith in rw fits

-- Showing a digit writes every pin: low for the parts of the digit, high for the others. The digit
-- is cached as shown.
pub segment_display-shown :
    (n : ℕ) (p : Part) (s : Segment)
    → n ≤ 9
    → let (t, result) = segment_display (pos n) s in
      (last_level (pin_of p) t.calls ≡ shown n p)
      × (result ≡ ok)
      × (t.segment_enabled ≡ true)
      × (t.segment_value ≡ pos n)
segment_display-shown n p s h =
    rw (display_digit n s h) (pattern_levels n p s.calls h, refl, refl, refl)

all_off_low :
    (p : Part) (calls : List GpioCall) → last_level (pin_of p) (segment_all_off calls) ≡ some low
unfolding segment_all_off last_level
all_off_low a calls = refl
all_off_low _ calls = refl

-- Clearing the display and cleaning up leave every pin at the level that segment_display gives to
-- the lit parts of a digit, the point included.
pub segment_clear_lit :
    (n : ℕ) (p q : Part) (s : Segment)
    → n ≤ 9
    → shown n q ≡ some low
    → (last_level (pin_of p) (segment_clear s).0.calls
        ≡ last_level (pin_of q) (segment_display (pos n) s).0.calls)
      × (last_level (pin_of p) (segment_cleanup s).calls
          ≡ last_level (pin_of q) (segment_display (pos n) s).0.calls)
unfolding segment_clear segment_cleanup
segment_clear_lit n p q s h lit =
    let same = all_off_low p s.calls ∙ sym lit ∙ sym (segment_display-shown n q s h).0 in
    (same, same)
