-- ===== src/Command/Accepts/Sound.antt =====
-- A line that is parsed as a command is a request of the grammar.
use tcpremote_device_control.Base.{
  ℕ, ◌≡◌, refl, sym, ap, subst, ◌≢◌, inl, inr, true, List, [], ◌∷◌, Option, none, some, get_elem?,
  ◌&◌, Bytes, ℤ, pos, ◌≤ℤ◌, arith, if◌then◌else◌, codes, take, Option-cases, Bool-cases, All,
}
use tcpremote_device_control.Command.{
  Command, empty, invalid, invalid_value, help, status, plugin_list, quit, led_on, led_on_bright,
  led_off, buzzer_music, buzzer_on, buzzer_off, buzzer_beep, light_read, seg_display, seg_clear,
  CommandSpec, ParsedCommand, token_equals, match_specs, command_specs, of_type, is_null, apply_arg,
  plain, ranged, music_spec, arg_none, arg_int, arg_string,
}
use tcpremote_device_control.Command.Grammar.{
  IsWord, IsNumeralWord, IsRequest, Alone, Pair, Number, Path127, IsCommand,
}
use tcpremote_device_control.Command.Words.{parse_words}
use tcpremote_device_control.Command.Number.{parse_int_arg, long_max}
use tcpremote_device_control.Command.Number.Range.{parse_int_arg_iff}

token_equals-IsWord : (d : Option Bytes) (n : Bytes) → token_equals d (some n) ≡ true → IsWord d n
unfolding token_equals
token_equals-IsWord none n h = cc
token_equals-IsWord (some w) n h = h

token_equals-none : (d : Option Bytes) → token_equals d none ≡ true → d ≡ none
unfolding token_equals
token_equals-none none h = refl
token_equals-none (some w) h = cc

record NoError (c : Command) : Type 0 where
  not_empty : c ≢ empty
  not_invalid : c ≢ invalid
  not_invalid_value : c ≢ invalid_value

IsCommand-NoError : (c : Command) → IsCommand c → NoError c
IsCommand-NoError c k = record {
  not_empty = λ p. subst IsCommand p k;
  not_invalid = λ p. subst IsCommand p k;
  not_invalid_value = λ p. subst IsCommand p k;
}

module _ (c : Command) (v : ℤ) (str : Bytes) (d a x e : Option Bytes) (k : NoError c) where
  abbrev parsed : ParsedCommand
  parsed = record { type = c; value = v; str = str }

  -- What the row gives if its two words fit.
  abbrev Row : Type 0 → CommandSpec → Type 0
  Row Q spec =
      token_equals d spec.device ≡ true
      → token_equals a spec.action ≡ true
      → apply_arg spec.arg_type spec x e ≡ parsed
      → Q

  no_row : of_type (if is_null x then invalid else invalid_value) ≢ parsed
  no_row h = elim (Bool-cases (is_null x)) [
    | inl n ↦ k.not_invalid (sym (ap (λ (p : ParsedCommand). p.type) (rw n at h)))
    | inr n ↦ k.not_invalid_value (sym (ap (λ (p : ParsedCommand). p.type) (rw n at h)))
  ]

  -- The command comes from a row of the table.
  match_specs_rows :
      (Q : Type 0) (specs : List CommandSpec)
      → All (Row Q) specs
      → match_specs specs d a x e ≡ parsed
      → Q
  unfolding match_specs
  match_specs_rows Q [] rows h = absurd (no_row h)
  match_specs_rows Q (spec ∷ specs) rows h = elim (Bool-cases (token_equals d spec.device)) [
    | inl p ↦ elim (Bool-cases (token_equals a spec.action)) [
      | inl q ↦ rows.0 p q (rw (p, q, match_specs) at h)
      | inr q ↦ match_specs_rows Q specs rows.1 (rw (p, q, match_specs) at h)
    ]
    | inr p ↦ match_specs_rows Q specs rows.1 (rw (p, match_specs) at h)
  ]

  plain_row :
      (n : Bytes) (m : Option Bytes) (cmd : Command)
      → apply_arg arg_none (plain n m cmd) x e ≡ parsed
      → (x ≡ none) × (v ≡ pos 0) × (str ≡ []) × (c ≡ cmd)
  unfolding apply_arg
  plain_row n m cmd h = ground (arith, k.not_invalid)

  ranged_row :
      (n m : Bytes) (cmd : Command) (lo hi : ℕ)
      → apply_arg arg_int (ranged n m cmd lo hi) x e ≡ parsed
      → (parse_int_arg x (pos lo) (pos hi) ≡ some v) × (e ≡ none) × (str ≡ []) × (c ≡ cmd)
  unfolding apply_arg
  ranged_row n m cmd lo hi h = ground (arith, k.not_invalid_value)

  music_row :
      apply_arg arg_string music_spec x e ≡ parsed
      → ((w : Bytes) × (x ≡ some w) × (str ≡ take 127 w)) × (v ≡ pos 0) × (c ≡ buzzer_music)
  unfolding apply_arg
  music_row h = elim (Option-cases x) [
    | inl p ↦ absurd (k.not_invalid_value (sym (ap (λ (q : ParsedCommand). q.type) (rw p at h))))
    | inr (w, p) ↦
        let same = rw p at h in
        ((w, p, sym (ap (λ (q : ParsedCommand). q.str) same)), ground arith, ground arith)
  ]

  Alone-sound :
      (n : Bytes) (cmd : Command) → Row ((c ≡ cmd) × Alone v str d a x e n) (plain n none cmd)
  Alone-sound n cmd p q h =
      let (no_value, value, text, same) = plain_row n none cmd h in
      (same, (token_equals-IsWord d n p, token_equals-none a q, no_value, value, text))

  Pair-sound :
      (n m : Bytes) (cmd : Command)
      → Row ((c ≡ cmd) × Pair v str d a x e n m) (plain n (some m) cmd)
  Pair-sound n m cmd p q h =
      let (no_value, value, text, same) = plain_row n (some m) cmd h in
      (same, (token_equals-IsWord d n p, token_equals-IsWord a m q, no_value, value, text))

  numeral_word :
      (lo hi : ℕ) (y : Option Bytes)
      → pos hi ≤ℤ pos long_max
      → parse_int_arg y (pos lo) (pos hi) ≡ some v
      → IsNumeralWord y v × (pos lo ≤ℤ v) × (v ≤ℤ pos hi)
  unfolding parse_int_arg
  numeral_word lo hi none fits h = cc
  numeral_word lo hi (some w) fits h =
      (parse_int_arg_iff w (pos lo) (pos hi) v (omega arith) fits).0 h

  Number-sound :
      (n m : Bytes) (cmd : Command) (lo hi : ℕ)
      → pos hi ≤ℤ pos long_max
      → Row ((c ≡ cmd) × Number v str d a x e n m lo hi) (ranged n m cmd lo hi)
  Number-sound n m cmd lo hi fits p q h =
      let (read, no_extra, text, same) = ranged_row n m cmd lo hi h in
      let (numeral, above, below) = numeral_word lo hi x fits read in
      (
        same,
        (
          token_equals-IsWord d n p,
          token_equals-IsWord a m q,
          numeral,
          above,
          below,
          no_extra,
          text,
        ),
      )

  Path127-sound :
      Row ((c ≡ buzzer_music) × Path127 v str d a x e (codes "BUZZER") (codes "MUSIC")) music_spec
  Path127-sound p q h =
      let (path, value, same) = music_row h in
      (
        same,
        (
          token_equals-IsWord d (codes "BUZZER") p,
          token_equals-IsWord a (codes "MUSIC") q,
          path,
          value,
        ),
      )

  abbrev Goal : Type 0
  Goal = IsRequest v str d a x e c

  of_Row :
      (cmd : Command) (spec : CommandSpec)
      → Row ((c ≡ cmd) × IsRequest v str d a x e cmd) spec
      → Row Goal spec
  of_Row cmd spec row p q h = let r = row p q h in rw r.0 r.1

  Alone-at :
      (n : Bytes) (cmd : Command)
      → (Alone v str d a x e n → IsRequest v str d a x e cmd)
      → Row Goal (plain n none cmd)
  Alone-at n cmd from =
      of_Row cmd (plain n none cmd) (λ p q h. let r = Alone-sound n cmd p q h in (r.0, from r.1))

  Pair-at :
      (n m : Bytes) (cmd : Command)
      → (Pair v str d a x e n m → IsRequest v str d a x e cmd)
      → Row Goal (plain n (some m) cmd)
  Pair-at n m cmd from =
      of_Row cmd (plain n (some m) cmd)
        (λ p q h. let r = Pair-sound n m cmd p q h in (r.0, from r.1))

  Number-at :
      (n m : Bytes) (cmd : Command) (lo hi : ℕ)
      → pos hi ≤ℤ pos long_max
      → (Number v str d a x e n m lo hi → IsRequest v str d a x e cmd)
      → Row Goal (ranged n m cmd lo hi)
  Number-at n m cmd lo hi fits from =
      of_Row cmd (ranged n m cmd lo hi)
        (λ p q h. let r = Number-sound n m cmd lo hi fits p q h in (r.0, from r.1))

  -- Each row of the table leads to the grammar's clause for its command.
  table_rows : All (Row Goal) command_specs
  unfolding command_specs
  table_rows =
      Alone-at (codes "HELP") help (λ r. r)
      & Alone-at (codes "STATUS") status (λ r. r)
      & Pair-at (codes "PLUGIN") (codes "LIST") plugin_list inl
      & Pair-at (codes "DEVICE") (codes "LIST") plugin_list inr
      & Alone-at (codes "QUIT") quit (λ r. r)
      & Pair-at (codes "LED") (codes "ON") led_on (λ r. r)
      & Number-at (codes "LED") (codes "BRIGHT") led_on_bright 0 255 (omega arith) (λ r. r)
      & Pair-at (codes "LED") (codes "OFF") led_off (λ r. r)
      & of_Row buzzer_music music_spec Path127-sound
      & Pair-at (codes "BUZZER") (codes "ON") buzzer_on (λ r. r)
      & Pair-at (codes "BUZZER") (codes "OFF") buzzer_off (λ r. r)
      & Number-at (codes "BUZZER") (codes "BEEP") buzzer_beep 1 10000 (omega arith) (λ r. r)
      & Pair-at (codes "LIGHT") (codes "READ") light_read (λ r. r)
      & Number-at (codes "SEG") (codes "DISPLAY") seg_display 0 9 (omega arith) (λ r. r)
      & Pair-at (codes "SEG") (codes "CLEAR") seg_clear (λ r. r)
      & tt

pub parse_words_sound :
    (ws : List Bytes) (c : Command) (v : ℤ) (str : Bytes)
    → IsCommand c
    → parse_words ws ≡ record { type = c; value = v; str = str }
    → IsRequest v str (get_elem? ws 0) (get_elem? ws 1) (get_elem? ws 2) (get_elem? ws 3) c
unfolding parse_words
parse_words_sound [] c v str k h =
    absurd ((IsCommand-NoError c k).not_empty (sym (ap (λ (p : ParsedCommand). p.type) h)))
parse_words_sound (w ∷ ws) c v str k h =
    match_specs_rows c v str _ _ _ _ (IsCommand-NoError c k) _ command_specs
      (table_rows c v str _ _ _ _ (IsCommand-NoError c k)) h
