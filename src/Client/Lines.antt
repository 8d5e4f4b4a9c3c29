-- ===== src/Client/Lines.antt =====
-- A typed line on its way to the server's parser, and an answer on its way to the terminal.
use tcpremote_device_control.Base.{
  ℕ, ◌+◌, ◌-◌, ◌<◌, ◌≡◌, refl, sym, ap, ◌∙◌, subst, inl, inr, true, false, Bool-cases, List, [],
  ◌∷◌, ◌++◌, append_assoc, length, length-append, take, take_all, some, Bytes, c_string, arith,
  if◌then◌else◌,
}
use tcpremote_device_control.Command.{command_parse}
use tcpremote_device_control.Command.Tokens.{is_delim}
use tcpremote_device_control.Command.Tokens.Splits.{
  AllDelims, Ends, Splits, blank, word, Splits-total,
}
use tcpremote_device_control.Command.Words.{command_parse-parse_words}
use tcpremote_device_control.Execute.{buffer_size}
use tcpremote_device_control.Client.{
  prompt, echo, sends, is_newline, put_before, trim_newline, is_blank, not_local,
  handle_local_command, command_of, typed, goes_on, console_round, after_local, handle_line,
}

AllDelims-append : (s t : Bytes) → AllDelims s → AllDelims t → AllDelims (s ++ t)
AllDelims-append [] t h k = k
AllDelims-append (c ∷ s) t h k = (h.0, AllDelims-append s t h.1 k)

Ends-append : (s t : Bytes) → Ends s → AllDelims t → Ends (s ++ t)
Ends-append [] [] h k = tt
Ends-append [] (c ∷ t) h k = k.0
Ends-append (d ∷ s) t h k = h

-- Separators at the end are no word.
Splits-append : (s t : Bytes) (ws : List Bytes) → Splits s ws → AllDelims t → Splits (s ++ t) ws
Splits-append s t [] (blank h) k = blank (AllDelims-append s t h k)
Splits-append s t (w ∷ ws) (word gap rest g n ne e sp same) k =
    word gap (rest ++ t) g n ne (Ends-append rest t e k) (Splits-append rest t ws sp k) (
      ap (λ u. u ++ t) same
      ∙ append_assoc gap (w ++ rest) t
      ∙ ap (λ u. gap ++ u) (append_assoc w rest t))

-- What trim_newline cuts from the end are newlines.
record IsTrimmed (s kept : Bytes) : Type 0 where
  tail : Bytes
  same : s ≡ kept ++ tail
  newlines : AllDelims tail

is_newline-is_delim : (c : ℕ) → is_newline c ≡ true → is_delim c ≡ true
is_newline-is_delim c e = ground arith

put_before-IsTrimmed :
    (c : ℕ) (s kept : Bytes) → IsTrimmed s kept → IsTrimmed (c ∷ s) (put_before c kept)
put_before-IsTrimmed c s (d ∷ t) h = record {
  tail = h.tail;
  same = ap (λ u. c ∷ u) h.same;
  newlines = h.newlines;
}
put_before-IsTrimmed c s [] h = elim (Bool-cases (is_newline c)) [
  | inl e ↦ simp e (record {
    tail = c ∷ h.tail;
    same = ap (λ u. c ∷ u) h.same;
    newlines = (is_newline-is_delim c e, h.newlines);
  })
  | inr e ↦ simp e (record { tail = h.tail; same = ap (λ u. c ∷ u) h.same; newlines = h.newlines })
]

trim_newline-IsTrimmed : (s : Bytes) → IsTrimmed s (trim_newline s)
unfolding trim_newline
trim_newline-IsTrimmed [] = record { tail = []; same = refl; newlines = tt }
trim_newline-IsTrimmed (c ∷ s) =
    put_before-IsTrimmed c s (trim_newline s) (trim_newline-IsTrimmed s)

-- The line as it was typed and the line as it is sent have the same words.
command_of_parses :
    (line : Bytes)
    → length line < 255
    → command_parse (some (command_of (trim_newline line))) ≡ command_parse (some line)
unfolding command_of
command_of_parses line short =
    let kept = trim_newline line in
    let t = trim_newline-IsTrimmed line in
    let (ws, sp) = Splits-total kept in
    let parts : length line ≡ length kept + length t.tail =
      ap length t.same ∙ length-append kept t.tail in
    let whole : length (kept ++ 10 ∷ []) ≡ length kept + 1 = length-append kept (10 ∷ []) in
    let fits : take 1023 (kept ++ 10 ∷ []) ≡ kept ++ 10 ∷ [] =
      take_all 1023 (kept ++ 10 ∷ []) (omega arith) in
    ap (λ u. command_parse (some u)) fits
    ∙ command_parse-parse_words ws (Splits-append kept (10 ∷ []) ws sp (refl, tt)) (omega arith)
    ∙ sym (
        command_parse-parse_words ws
          (subst (λ u. Splits u ws) (sym t.same) (Splits-append kept t.tail ws sp t.newlines))
          (omega arith))

-- A typed line of less than 255 bytes that is not blank and no command of the client itself is sent as
-- one request, and the server reads from it the command that it would read from the line as typed.
pub typed-parses :
    (text : Bytes) (line : Bytes)
    → line ≡ c_string (take (buffer_size - 1) text)
    → length line < 255
    → is_blank (trim_newline line) ≡ false
    → handle_local_command (trim_newline line) ≡ not_local
    → (let request = command_of (trim_newline line) in
        (console_round (typed text true) ≡ goes_on (echo (trim_newline line) ∷ sends request ∷ []))
        × (command_parse (some request) ≡ command_parse (some line)))
unfolding console_round
typed-parses text line e short filled foreign = (
  ap (λ l. handle_line (trim_newline l) true) (sym e)
      ∙ ap
          (λ b.
            if b
            then goes_on (prompt ∷ [])
            else after_local (handle_local_command (trim_newline line)) (trim_newline line) true)
          filled
      ∙ ap (λ l. after_local l (trim_newline line) true) foreign,
  command_of_parses line short,
)
