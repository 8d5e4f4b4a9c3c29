-- ===== src/Command/Number.antt =====
-- common/command.c: strtol in base 10 with a 64-bit long, and parse_int_arg.
pub mod Spec
pub mod Laws
pub mod Range
pub mod Printed
use tcpremote_device_control.Base.{
  ℕ, ◌+◌, ◌-◌, ◌*◌, ◌^◌, Bool, true, false, not, ◌||◌, ◌==◌, ltb, if◌then◌else◌, List, [], ◌∷◌,
  Option, none, some, Bytes, is_space, is_digit, ℤ, pos, negsuc, negate, ltb_ℤ,
}

abbrev pub long_max : ℕ
long_max = 2 ^ 63 - 1

-- What strtol leaves behind: its result, the text at `endptr`, and whether it set errno.
pub record Strtol : Type 0 where
  pub number : ℤ
  pub rest : Bytes
  pub range_error : Bool

unfoldable pub skip_spaces : Bytes → Bytes
skip_spaces [] = []
skip_spaces (c ∷ cs) = if is_space c then skip_spaces cs else c ∷ cs

unfoldable pub scan_digits : ℕ → Bytes → ℕ × Bytes
scan_digits acc [] = (acc, [])
scan_digits acc (c ∷ cs) = elim (is_digit c) [
  | true ↦ scan_digits (acc * 10 + (c - 48)) cs
  | false ↦ (acc, c ∷ cs)
]

abbrev pub no_conversion : Bytes → Strtol
no_conversion token = record { number = pos 0; rest = token; range_error = false }

abbrev pub to_long : Bool → ℕ × Bytes → Strtol
to_long true (n, rest) =
    if ltb (long_max + 1) n
    then record { number = negsuc long_max; rest = rest; range_error = true }
    else record { number = negate n; rest = rest; range_error = false }
to_long false (n, rest) =
    if ltb long_max n
    then record { number = pos long_max; rest = rest; range_error = true }
    else record { number = pos n; rest = rest; range_error = false }

unfoldable pub convert : Bool → Bytes → Bytes → Strtol
convert negative [] token = no_conversion token
convert negative (c ∷ cs) token =
    if is_digit c then to_long negative (scan_digits 0 (c ∷ cs)) else no_conversion token

unfoldable pub convert_signed : Bytes → Bytes → Strtol
unfolding convert
convert_signed [] token = no_conversion token
convert_signed (c ∷ cs) token =
    if c == b'-'
    then convert true cs token
    else if c == b'+'
    then convert false cs token
    else convert false (c ∷ cs) token

unfoldable pub strtol : Bytes → Strtol
unfolding skip_spaces scan_digits convert_signed
strtol token = convert_signed (skip_spaces token) token

abbrev pub is_end : Bytes → Bool
is_end [] = true
is_end (_ ∷ _) = false

abbrev in_range : Strtol → ℤ → ℤ → Option ℤ
in_range r min_value max_value =
    if r.range_error || not (is_end r.rest) || ltb_ℤ r.number min_value || ltb_ℤ max_value r.number
    then none
    else some r.number

-- `none` is the result false; every range of the table lies within `int`, so the cast is exact.
unfoldable pub parse_int_arg : Option Bytes → ℤ → ℤ → Option ℤ
parse_int_arg none min_value max_value = none
parse_int_arg (some []) min_value max_value = none
parse_int_arg (some (c ∷ cs)) min_value max_value = in_range (strtol (c ∷ cs)) min_value max_value
