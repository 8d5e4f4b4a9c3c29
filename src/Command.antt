-- ===== src/Command.antt =====
-- common/command.h and common/command.c: commands, the table of their forms, and the parser.
pub mod Tokens
pub mod Number
pub mod Words
pub mod Grammar
pub mod Accepts
use tcpremote_device_control.Base.{
  ℕ, ◌-◌, ◌≡◌, refl, Bool, true, false, not, ◌||◌, leb, if◌then◌else◌, List, [], ◌∷◌, Option, none,
  some, length, take, Bytes, codes, equal_nocase, ℤ, pos,
}
use Tokens.{strtok_r}
use Number.{parse_int_arg}

pub data Command : Type 0 where
  empty invalid invalid_value : Command
  help status plugin_list quit : Command
  led_on led_on_bright led_off : Command
  buzzer_music buzzer_on buzzer_off buzzer_beep : Command
  light_read : Command
  seg_display seg_clear : Command

pub record ParsedCommand : Type 0 where
  pub type : Command
  pub value : ℤ
  pub str : Bytes

abbrev pub command_line_max : ℕ
command_line_max = 256

abbrev pub str_size : ℕ
str_size = 128

pub data CommandArgType : Type 0 where
  arg_none arg_int arg_string : CommandArgType

-- `none` is NULL.
pub record CommandSpec : Type 0 where
  pub device : Option Bytes
  pub action : Option Bytes
  pub command : Command
  pub arg_type : CommandArgType
  pub min_value : ℤ
  pub max_value : ℤ

abbrev pub plain : Bytes → Option Bytes → Command → CommandSpec
plain device action command = record {
  device = some device;
  action = action;
  command = command;
  arg_type = arg_none;
  min_value = pos 0;
  max_value = pos 0;
}

abbrev pub ranged : Bytes → Bytes → Command → ℕ → ℕ → CommandSpec
ranged device action command lo hi = record {
  device = some device;
  action = some action;
  command = command;
  arg_type = arg_int;
  min_value = pos lo;
  max_value = pos hi;
}

abbrev pub music_spec : CommandSpec
music_spec = record {
  device = some (codes "BUZZER");
  action = some (codes "MUSIC");
  command = buzzer_music;
  arg_type = arg_string;
  min_value = pos 0;
  max_value = pos 0;
}

unfoldable pub command_specs : List CommandSpec
command_specs =
    plain (codes "HELP") none help
    ∷ plain (codes "STATUS") none status
    ∷ plain (codes "PLUGIN") (some (codes "LIST")) plugin_list
    ∷ plain (codes "DEVICE") (some (codes "LIST")) plugin_list
    ∷ plain (codes "QUIT") none quit
    ∷ plain (codes "LED") (some (codes "ON")) led_on
    ∷ ranged (codes "LED") (codes "BRIGHT") led_on_bright 0 255
    ∷ plain (codes "LED") (some (codes "OFF")) led_off
    ∷ music_spec
    ∷ plain (codes "BUZZER") (some (codes "ON")) buzzer_on
    ∷ plain (codes "BUZZER") (some (codes "OFF")) buzzer_off
    ∷ ranged (codes "BUZZER") (codes "BEEP") buzzer_beep 1 10000
    ∷ plain (codes "LIGHT") (some (codes "READ")) light_read
    ∷ ranged (codes "SEG") (codes "DISPLAY") seg_display 0 9
    ∷ plain (codes "SEG") (some (codes "CLEAR")) seg_clear
    ∷ []

unfoldable pub token_equals : Option Bytes → Option Bytes → Bool
token_equals none none = true
token_equals none (some _) = false
token_equals (some _) none = false
token_equals (some left) (some right) = equal_nocase left right

abbrev pub of_type : Command → ParsedCommand
of_type c = record { type = c; value = pos 0; str = [] }

abbrev pub is_null : Option Bytes → Bool
is_null none = true
is_null (some _) = false

abbrev pub int_argument : Command → Option ℤ → ParsedCommand
int_argument command none = of_type invalid_value
int_argument command (some v) = record { type = command; value = v; str = [] }

abbrev pub string_argument : Command → Option Bytes → ParsedCommand
string_argument command none = of_type invalid_value
string_argument command (some v) = record {
  type = command;
  value = pos 0;
  str = take (str_size - 1) v;
}

-- The switch on `spec->arg_type`, for the first form whose two words fit.
unfoldable pub apply_arg :
    CommandArgType → CommandSpec → Option Bytes → Option Bytes → ParsedCommand
apply_arg arg_none spec value extra =
    if not (is_null value) then of_type invalid else of_type spec.command
apply_arg arg_int spec value extra =
    if not (is_null extra)
    then of_type invalid_value
    else int_argument spec.command (parse_int_arg value spec.min_value spec.max_value)
apply_arg arg_string spec value extra = string_argument spec.command value

-- The loop over the table, and the line behind it.
unfoldable pub match_specs :
    List CommandSpec → Option Bytes → Option Bytes → Option Bytes → Option Bytes → ParsedCommand
unfolding apply_arg token_equals
match_specs [] device action value extra =
    of_type (if is_null value then invalid else invalid_value)
match_specs (spec ∷ specs) device action value extra =
    if not (token_equals device spec.device) || not (token_equals action spec.action)
    then match_specs specs device action value extra
    else apply_arg spec.arg_type spec value extra

-- From the first call of strtok_r on.
unfoldable pub parse_copy : Bytes → ParsedCommand
unfolding strtok_r
parse_copy copy =
    let (device, s₁) = strtok_r copy in
    let (action, s₂) = strtok_r s₁ in
    let (value, s₃) = strtok_r s₂ in
    let (extra, s₄) = strtok_r s₃ in
    if is_null device then of_type empty else match_specs command_specs device action value extra

-- `none` is a NULL line; a line is its bytes before the NUL.
unfoldable pub command_parse : Option Bytes → ParsedCommand
command_parse none = of_type empty
command_parse (some line) =
    if leb command_line_max (length line)
    then of_type invalid
    else parse_copy (take (command_line_max - 1) line)

unfoldable pub command_name : Command → Bytes
command_name empty = codes "EMPTY"
command_name invalid = codes "INVALID"
command_name invalid_value = codes "INVALID_VALUE"
command_name help = codes "HELP"
command_name status = codes "STATUS"
command_name plugin_list = codes "PLUGIN_LIST"
command_name quit = codes "QUIT"
command_name led_on = codes "LED_ON"
command_name led_on_bright = codes "LED_ON_BRIGHT"
command_name led_off = codes "LED_OFF"
command_name buzzer_music = codes "BUZZER_MUSIC"
command_name buzzer_on = codes "BUZZER_ON"
command_name buzzer_off = codes "BUZZER_OFF"
command_name buzzer_beep = codes "BUZZER_BEEP"
command_name light_read = codes "LIGHT_READ"
command_name seg_display = codes "SEG_DISPLAY"
command_name seg_clear = codes "SEG_CLEAR"
