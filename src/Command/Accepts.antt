-- ===== src/Command/Accepts.antt =====
-- The parser against the grammar.
mod Complete
mod Sound
use tcpremote_device_control.Base.{
  ◌<◌, ◌≡◌, ◌↔◌, sym, ◌∙◌, List, Option, none, some, length, get_elem?, Bytes, ℤ,
}
use tcpremote_device_control.Command.{Command, command_parse, command_line_max}
use tcpremote_device_control.Command.Grammar.{IsRequest, IsCommand}
use tcpremote_device_control.Command.Tokens.Splits.{Splits}
use tcpremote_device_control.Command.Words.{parse_words, command_parse-parse_words}
use Complete.{parse_words_complete}
use Sound.{parse_words_sound}

-- For a line shorter than 256 bytes with the words ws, and a command c that reports no error:
-- the parser returns c with value v and text str exactly when the first four words spell it.
pub command_parse_iff :
    {line : Bytes} (ws : List Bytes) (c : Command) (v : ℤ) (str : Bytes)
    → Splits line ws
    → length line < command_line_max
    → IsCommand c
    → (command_parse (some line) ≡ record { type = c; value = v; str = str })
      ↔ IsRequest v str (get_elem? ws 0) (get_elem? ws 1) (get_elem? ws 2) (get_elem? ws 3) c
command_parse_iff ws c v str sp short k =
    let same = command_parse-parse_words ws sp short in
    (
      λ e. parse_words_sound ws c v str k (sym same ∙ e),
      λ r. same ∙ parse_words_complete ws c v str r,
    )
