-- ===== src/Tests/Commands.antt =====
-- common/command.c on request lines.
use tcpremote_device_control.Base.{
  ◌≡◌, ◌↔◌, refl, List, [], ◌∷◌, none, some, Bytes, codes, equal_nocase, to_lower, pos, arith, ◌≤ℤ◌,
}
use tcpremote_device_control.Command.{
  invalid, invalid_value, empty, led_on_bright, command_parse, parse_copy, match_specs,
  command_specs, of_type,
}
use tcpremote_device_control.Command.Accepts.{command_parse_iff}
use tcpremote_device_control.Command.Grammar.{IsRequest}
use tcpremote_device_control.Command.Number.{parse_int_arg, strtol}
use tcpremote_device_control.Command.Number.Range.{parse_int_arg_iff}
use tcpremote_device_control.Command.Number.Spec.{IsNumeral}
use tcpremote_device_control.Command.Tokens.Splits.{Splits, blank, word}

abbrev bright_line : Bytes
bright_line = codes " led  BRIGHT\t+0200\r\n"

parses_bright :
    command_parse (some bright_line) ≡ record { type = led_on_bright; value = pos 200; str = [] }
unfolding command_parse parse_copy match_specs command_specs equal_nocase to_lower parse_int_arg
    strtol
parses_bright = refl

rejects :
    (command_parse (some (codes "LED ON 5")) ≡ of_type invalid)
    × (command_parse (some (codes "SEG DISPLAY 10")) ≡ of_type invalid_value)
    × (command_parse (some (codes "SEG DISPLAY 1 2")) ≡ of_type invalid_value)
    × (command_parse (some (codes "LED ON\nLED OFF\n")) ≡ of_type invalid)
    × (command_parse (some (codes " \r\n")) ≡ of_type empty)
unfolding command_parse parse_copy match_specs command_specs equal_nocase to_lower parse_int_arg
    strtol
rejects = (refl, refl, refl, refl, refl)

abbrev bright_words : List Bytes
bright_words = codes "led" ∷ codes "BRIGHT" ∷ codes "+0200" ∷ []

bright_line-Splits : Splits bright_line bright_words
bright_line-Splits =
    word (codes " ") (codes "  BRIGHT\t+0200\r\n") (refl, tt) (refl, (refl, (refl, tt))) (λ e. cc)
      refl
      (word (codes "  ") (codes "\t+0200\r\n") (refl, (refl, tt))
        (refl, (refl, (refl, (refl, (refl, (refl, tt)))))) (λ e. cc) refl
        (word (codes "\t") (codes "\r\n") (refl, tt) (refl, (refl, (refl, (refl, (refl, tt)))))
          (λ e. cc) refl (blank (refl, (refl, tt))) refl)
        refl)
      refl

command_parse_iff_example :
    (command_parse (some bright_line) ≡ record { type = led_on_bright; value = pos 200; str = [] })
    ↔ IsRequest
        (pos 200)
        []
        (some (codes "led"))
        (some (codes "BRIGHT"))
        (some (codes "+0200"))
        none
        led_on_bright
command_parse_iff_example =
    command_parse_iff bright_words led_on_bright (pos 200) [] bright_line-Splits (omega arith) tt

parse_int_arg_iff_example :
    (parse_int_arg (some (codes "-0")) (pos 0) (pos 255) ≡ some (pos 0))
    ↔ (IsNumeral (codes "-0") (pos 0) × (pos 0 ≤ℤ pos 0) × (pos 0 ≤ℤ pos 255))
parse_int_arg_iff_example =
    parse_int_arg_iff (codes "-0") (pos 0) (pos 255) (pos 0) (omega arith) (omega arith)
