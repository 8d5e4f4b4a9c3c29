-- ===== src/Execute/Ranges.antt =====
-- The numbers that a parsed command carries lie within the range of its form.
use tcpremote_device_control.Base.{
  ℕ, ◌-◌, ◌≡◌, not, ◌||◌, leb, Bool-cases, Option-cases, inl, inr, List, [], ◌∷◌, Option, none,
  some, length, take, Bytes, All, ◌&◌, ℤ, pos, ◌≤ℤ◌, arith,
}
use tcpremote_device_control.Command.{
  Command, help, status, plugin_list, quit, led_on, led_on_bright, led_off, buzzer_on, buzzer_off,
  buzzer_beep, light_read, seg_display, seg_clear, ParsedCommand, CommandSpec, command_specs,
  command_parse, parse_copy, match_specs, apply_arg, token_equals, plain, ranged, music_spec,
  int_argument, command_line_max, is_null,
}
use tcpremote_device_control.Command.Tokens.{strtok_r}
use tcpremote_device_control.Command.Number.{parse_int_arg, long_max}
use tcpremote_device_control.Command.Number.Range.{parse_int_arg_iff}

abbrev pub Between : ℕ → ℕ → ℤ → Type 0
Between lo hi v = (pos lo ≤ℤ v) × (v ≤ℤ pos hi)

-- What a command may carry.
abbrev pub InRange : Command → ℤ → Type 0
InRange led_on_bright v = Between 0 255 v
InRange buzzer_beep v = Between 1 10000 v
InRange seg_display v = Between 0 9 v
InRange _ v = Unit {0}

abbrev InRangeParsed : ParsedCommand → Type 0
InRangeParsed p = InRange p.type p.value

-- A row of the table, whatever words follow the two that fit.
abbrev RowInRange : CommandSpec → Type 0
RowInRange spec =
    (value extra : Option Bytes) → InRangeParsed (apply_arg spec.arg_type spec value extra)

parse_int_arg-Between :
    (value : Option Bytes) (lo hi : ℕ) (v : ℤ)
    → pos hi ≤ℤ pos long_max
    → parse_int_arg value (pos lo) (pos hi) ≡ some v
    → Between lo hi v
unfolding parse_int_arg
parse_int_arg-Between none lo hi v fits e = absurd cc
parse_int_arg-Between (some token) lo hi v fits e =
    let r = (parse_int_arg_iff token (pos lo) (pos hi) v (omega arith) fits).0 e in (r.1, r.2)

int_argument-InRange :
    (cmd : Command) (lo hi : ℕ) (value : Option Bytes)
    → ((v : ℤ) → Between lo hi v → InRange cmd v)
    → pos hi ≤ℤ pos long_max
    → InRangeParsed (int_argument cmd (parse_int_arg value (pos lo) (pos hi)))
int_argument-InRange cmd lo hi value from fits =
    elim (Option-cases (parse_int_arg value (pos lo) (pos hi))) [
      | inl e ↦ rw e tt
      | inr (v, e) ↦ rw e (from v (parse_int_arg-Between value lo hi v fits e))
    ]

plain-InRange :
    (name : Bytes) (action : Option Bytes) (cmd : Command)
    → InRange cmd (pos 0)
    → RowInRange (plain name action cmd)
unfolding apply_arg
plain-InRange name action cmd h none extra = h
plain-InRange name action cmd h (some value) extra = tt

ranged-InRange :
    (name action : Bytes) (cmd : Command) (lo hi : ℕ)
    → ((v : ℤ) → Between lo hi v → InRange cmd v)
    → pos hi ≤ℤ pos long_max
    → RowInRange (ranged name action cmd lo hi)
unfolding apply_arg
ranged-InRange name action cmd lo hi from fits value none =
    int_argument-InRange cmd lo hi value from fits
ranged-InRange name action cmd lo hi from fits value (some extra) = tt

music-InRange : RowInRange music_spec
unfolding apply_arg
music-InRange none extra = tt
music-InRange (some value) extra = tt

table_rows : All RowInRange command_specs
unfolding command_specs
table_rows =
    plain-InRange _ _ help tt
    & plain-InRange _ _ status tt
    & plain-InRange _ _ plugin_list tt
    & plain-InRange _ _ plugin_list tt
    & plain-InRange _ _ quit tt
    & plain-InRange _ _ led_on tt
    & ranged-InRange _ _ led_on_bright 0 255 (λ v h. h) (omega arith)
    & plain-InRange _ _ led_off tt
    & music-InRange
    & plain-InRange _ _ buzzer_on tt
    & plain-InRange _ _ buzzer_off tt
    & ranged-InRange _ _ buzzer_beep 1 10000 (λ v h. h) (omega arith)
    & plain-InRange _ _ light_read tt
    & ranged-InRange _ _ seg_display 0 9 (λ v h. h) (omega arith)
    & plain-InRange _ _ seg_clear tt
    & tt

match_specs-InRange :
    (specs : List CommandSpec) (device action value extra : Option Bytes)
    → All RowInRange specs
    → InRangeParsed (match_specs specs device action value extra)
unfolding match_specs
match_specs-InRange [] device action none extra rows = tt
match_specs-InRange [] device action (some value) extra rows = tt
match_specs-InRange (spec ∷ specs) device action value extra rows =
    elim (Bool-cases
      (not (token_equals device spec.device) || not (token_equals action spec.action))) [
        | inl e ↦ simp e (match_specs-InRange specs device action value extra rows.1)
        | inr e ↦ simp e (rows.0 value extra)
      ]

parse_copy-InRange : (copy : Bytes) → InRangeParsed (parse_copy copy)
unfolding parse_copy
parse_copy-InRange copy = elim (Bool-cases (is_null (strtok_r copy).0)) [
  | inl e ↦ simp e tt
  | inr e ↦ simp e (match_specs-InRange command_specs _ _ _ _ table_rows)
]

pub command_parse-InRange :
    (line : Option Bytes) → InRange (command_parse line).type (command_parse line).value
unfolding command_parse
command_parse-InRange none = tt
command_parse-InRange (some line) = elim (Bool-cases (leb command_line_max (length line))) [
  | inl e ↦ simp e tt
  | inr e ↦ simp e (parse_copy-InRange (take (command_line_max - 1) line))
]
