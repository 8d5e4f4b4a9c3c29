-- ===== src/Command/Words.antt =====
-- command_parse seen through the words of its line.
use tcpremote_device_control.Base.{
  ◌<◌, ◌≡◌, refl, false, List, [], ◌∷◌, Option, some, length, drop, take_all, get_elem?, Bytes, leb,
  if◌then◌else◌, arith,
}
use tcpremote_device_control.Command.{
  ParsedCommand, empty, of_type, is_null, match_specs, command_specs, parse_copy, command_parse,
  command_line_max,
}
use tcpremote_device_control.Command.Tokens.{strtok_r}
use tcpremote_device_control.Command.Tokens.Splits.{Splits, blank, strtok_r-Splits, strtok_r_blank}

-- The command that a list of words stands for: at most four of them are looked at.
unfoldable pub parse_words : List Bytes → ParsedCommand
parse_words ws =
    if is_null (get_elem? ws 0)
    then of_type empty
    else match_specs command_specs (get_elem? ws 0) (get_elem? ws 1) (get_elem? ws 2)
        (get_elem? ws 3)

next_token :
    {s : Bytes} (ws : List Bytes)
    → Splits s ws
    → (rest : Bytes) × (strtok_r s ≡ (get_elem? ws 0, rest)) × Splits rest (drop 1 ws)
next_token [] sp = ([], strtok_r_blank sp, blank tt)
next_token (w ∷ ws) sp = strtok_r-Splits sp

parse_copy_four :
    (copy : Bytes) {d a v e : Option Bytes} {s₁ s₂ s₃ s₄ : Bytes}
    → strtok_r copy ≡ (d, s₁)
    → strtok_r s₁ ≡ (a, s₂)
    → strtok_r s₂ ≡ (v, s₃)
    → strtok_r s₃ ≡ (e, s₄)
    → parse_copy copy ≡ (if is_null d then of_type empty else match_specs command_specs d a v e)
unfolding parse_copy
parse_copy_four copy p q r t = rw (p, q, r, t)

second : (ws : List Bytes) → get_elem? (drop 1 ws) 0 ≡ get_elem? ws 1
second [] = refl
second (w ∷ ws) = refl

third : (ws : List Bytes) → get_elem? (drop 1 (drop 1 ws)) 0 ≡ get_elem? ws 2
third [] = refl
third (w ∷ ws) = second ws

fourth : (ws : List Bytes) → get_elem? (drop 1 (drop 1 (drop 1 ws))) 0 ≡ get_elem? ws 3
fourth [] = refl
fourth (w ∷ ws) = third ws

pub parse_copy-parse_words :
    {s : Bytes} (ws : List Bytes) → Splits s ws → parse_copy s ≡ parse_words ws
unfolding parse_words
parse_copy-parse_words {s} ws sp =
    let (s₁, p, sp₁) = next_token ws sp in
    let (s₂, q, sp₂) = next_token (drop 1 ws) sp₁ in
    let (s₃, r, sp₃) = next_token (drop 1 (drop 1 ws)) sp₂ in
    let (s₄, t, sp₄) = next_token (drop 1 (drop 1 (drop 1 ws))) sp₃ in
    rw (← second ws, ← third ws, ← fourth ws) (parse_copy_four s p q r t)

-- A line below the limit is parsed by its words alone, however they are separated.
pub command_parse-parse_words :
    {line : Bytes} (ws : List Bytes)
    → Splits line ws
    → length line < command_line_max
    → command_parse (some line) ≡ parse_words ws
unfolding command_parse
command_parse-parse_words {line} ws sp h =
    let short : leb command_line_max (length line) ≡ false = ground arith in
    rw (short, take_all 255 line (omega arith)) (parse_copy-parse_words ws sp)
