-- ===== src/Command/Accepts/Complete.antt =====
-- Every request of the grammar is parsed, in any mixture of cases.
use tcpremote_device_control.Base.{
  ℕ, ◌≡◌, refl, ◌∙◌, inl, inr, true, false, List, [], ◌∷◌, Option, none, some, get_elem?, Bytes,
  equal_nocase, to_lower, ℤ, pos, ◌≤ℤ◌, arith, codes, take,
}
use tcpremote_device_control.Command.{
  Command, empty, invalid, invalid_value, help, status, plugin_list, quit, led_on, led_on_bright,
  led_off, buzzer_music, buzzer_on, buzzer_off, buzzer_beep, light_read, seg_display, seg_clear,
  CommandSpec, token_equals, match_specs, command_specs, is_null,
}
use tcpremote_device_control.Command.Grammar.{
  IsWord, IsNumeralWord, IsRequest, Alone, Pair, Number, Path127,
}
use tcpremote_device_control.Command.Words.{parse_words}
use tcpremote_device_control.Command.Number.{parse_int_arg, long_max}
use tcpremote_device_control.Command.Number.Range.{parse_int_arg_iff}

-- Words that differ in case only are alike to every comparison.
equal_nocase-left : (a b t : Bytes) → equal_nocase a b ≡ true → equal_nocase a t ≡ equal_nocase b t
unfolding equal_nocase
equal_nocase-left [] [] t h = refl
equal_nocase-left [] (y ∷ b) t h = cc
equal_nocase-left (x ∷ a) [] t h = cc
equal_nocase-left (x ∷ a) (y ∷ b) [] h = refl
equal_nocase-left (x ∷ a) (y ∷ b) (z ∷ t) h =
    let same : to_lower x ≡ to_lower y = ground arith in
    let rest : equal_nocase a b ≡ true = ground arith in rw (same, equal_nocase-left a b t rest)

token_equals-left :
    (d : Option Bytes) (n : Bytes) (t : Option Bytes)
    → IsWord d n
    → token_equals d t ≡ token_equals (some n) t
unfolding token_equals
token_equals-left none n t h = absurd h
token_equals-left (some w) n none h = refl
token_equals-left (some w) n (some t) h = equal_nocase-left w n t h

match_specs-left :
    (specs : List CommandSpec) (d a d' a' v e : Option Bytes)
    → ((t : Option Bytes) → token_equals d t ≡ token_equals d' t)
    → ((t : Option Bytes) → token_equals a t ≡ token_equals a' t)
    → match_specs specs d a v e ≡ match_specs specs d' a' v e
unfolding match_specs
match_specs-left [] d a d' a' v e p q = refl
match_specs-left (spec ∷ specs) d a d' a' v e p q =
    rw (p spec.device, q spec.action, match_specs-left specs d a d' a' v e p q)

-- The words of the table in place of those of the line.
alone_words :
    (d a x e : Option Bytes) (n : Bytes)
    → IsWord d n
    → a ≡ none
    → x ≡ none
    → match_specs command_specs d a x e ≡ match_specs command_specs (some n) none none e
alone_words d a x e n h p q =
    rw (p, q)
      (match_specs-left _ d none (some n) none none e (λ t. token_equals-left d n t h) (λ t. refl))

pair_words :
    (d a x e : Option Bytes) (n m : Bytes)
    → IsWord d n
    → IsWord a m
    → match_specs command_specs d a x e ≡ match_specs command_specs (some n) (some m) x e
pair_words d a x e n m h k =
    match_specs-left _ d a (some n) (some m) x e (λ t. token_equals-left d n t h)
      (λ t. token_equals-left a m t k)

abbrev Looks :
    Command → ℤ → Bytes → Option Bytes → Option Bytes → Option Bytes → Option Bytes → Type 0
Looks c v str d a x e =
    match_specs command_specs d a x e ≡ record { type = c; value = v; str = str }

-- A row of the table, tried with its own words, serves every line that spells them.
module _ (c : Command) (v : ℤ) (str : Bytes) (d a x e : Option Bytes) (n : Bytes) where
  Alone-row :
      Looks c (pos 0) [] (some n) none none e → Alone v str d a x e n → Looks c v str d a x e
  Alone-row row r = rw (r.3, r.4) (alone_words d a x e n r.0 r.1 r.2 ∙ row)

module _ (c : Command) (v : ℤ) (str : Bytes) (d a x e : Option Bytes) (n m : Bytes) where
  Pair-row :
      Looks c (pos 0) [] (some n) (some m) none e → Pair v str d a x e n m → Looks c v str d a x e
  Pair-row row r = rw (r.3, r.4) (pair_words d a x e n m r.0 r.1 ∙ rw r.2 row)

  Number-row :
      (lo hi : ℕ)
      → pos hi ≤ℤ pos long_max
      → ((w : Bytes)
          → parse_int_arg (some w) (pos lo) (pos hi) ≡ some v
          → Looks c v [] (some n) (some m) (some w) none)
      → Number v str d a x e n m lo hi
      → Looks c v str d a x e
  Number-row lo hi fits row r = rw (r.6, pair_words d a x e n m r.0 r.1, r.5) (numeral x r.2)
    where
      numeral : (x : Option Bytes) → IsNumeralWord x v → Looks c v [] (some n) (some m) x none
      numeral none k = absurd k
      numeral (some w) k =
          row w ((parse_int_arg_iff w (pos lo) (pos hi) v (omega arith) fits).1 (k, r.3, r.4))

  Path127-row :
      ((w : Bytes) → Looks c (pos 0) (take 127 w) (some n) (some m) (some w) e)
      → Path127 v str d a x e n m
      → Looks c v str d a x e
  Path127-row row r =
      let (w, p, q) = r.2 in rw (r.3, q) (pair_words d a x e n m r.0 r.1 ∙ rw p (row w))

match_specs_complete :
    (c : Command) (v : ℤ) (str : Bytes) (d a x e : Option Bytes)
    → IsRequest v str d a x e c
    → Looks c v str d a x e
unfolding match_specs command_specs equal_nocase to_lower
match_specs_complete empty v str d a x e r = absurd r
match_specs_complete invalid v str d a x e r = absurd r
match_specs_complete invalid_value v str d a x e r = absurd r
match_specs_complete help v str d a x e r = Alone-row help v str d a x e (codes "HELP") refl r
match_specs_complete status v str d a x e r = Alone-row status v str d a x e (codes "STATUS") refl r
match_specs_complete quit v str d a x e r = Alone-row quit v str d a x e (codes "QUIT") refl r
match_specs_complete plugin_list v str d a x e (inl r) =
    Pair-row plugin_list v str d a x e (codes "PLUGIN") (codes "LIST") refl r
match_specs_complete plugin_list v str d a x e (inr r) =
    Pair-row plugin_list v str d a x e (codes "DEVICE") (codes "LIST") refl r
match_specs_complete led_on v str d a x e r =
    Pair-row led_on v str d a x e (codes "LED") (codes "ON") refl r
match_specs_complete led_off v str d a x e r =
    Pair-row led_off v str d a x e (codes "LED") (codes "OFF") refl r
match_specs_complete led_on_bright v str d a x e r =
    Number-row led_on_bright v str d a x e (codes "LED") (codes "BRIGHT") 0 255 (omega arith)
      (λ w h. rw h) r
match_specs_complete buzzer_music v str d a x e r =
    Path127-row buzzer_music v str d a x e (codes "BUZZER") (codes "MUSIC") (λ w. refl) r
match_specs_complete buzzer_on v str d a x e r =
    Pair-row buzzer_on v str d a x e (codes "BUZZER") (codes "ON") refl r
match_specs_complete buzzer_off v str d a x e r =
    Pair-row buzzer_off v str d a x e (codes "BUZZER") (codes "OFF") refl r
match_specs_complete buzzer_beep v str d a x e r =
    Number-row buzzer_beep v str d a x e (codes "BUZZER") (codes "BEEP") 1 10000 (omega arith)
      (λ w h. rw h) r
match_specs_complete light_read v str d a x e r =
    Pair-row light_read v str d a x e (codes "LIGHT") (codes "READ") refl r
match_specs_complete seg_display v str d a x e r =
    Number-row seg_display v str d a x e (codes "SEG") (codes "DISPLAY") 0 9 (omega arith)
      (λ w h. rw h) r
match_specs_complete seg_clear v str d a x e r =
    Pair-row seg_clear v str d a x e (codes "SEG") (codes "CLEAR") refl r

no-IsRequest :
    (c : Command) (v : ℤ) (str : Bytes) (a x e : Option Bytes) → ¬ IsRequest v str none a x e c
no-IsRequest empty v str a x e r = r
no-IsRequest invalid v str a x e r = r
no-IsRequest invalid_value v str a x e r = r
no-IsRequest plugin_list v str a x e (inl r) = r.0
no-IsRequest plugin_list v str a x e (inr r) = r.0
no-IsRequest _ v str a x e r = r.0

first_word :
    (c : Command) (v : ℤ) (str : Bytes) (d a x e : Option Bytes)
    → IsRequest v str d a x e c
    → is_null d ≡ false
first_word c v str none a x e r = absurd (no-IsRequest c v str a x e r)
first_word c v str (some w) a x e r = refl

pub parse_words_complete :
    (ws : List Bytes) (c : Command) (v : ℤ) (str : Bytes)
    → IsRequest v str (get_elem? ws 0) (get_elem? ws 1) (get_elem? ws 2) (get_elem? ws 3) c
    → parse_words ws ≡ record { type = c; value = v; str = str }
unfolding parse_words
parse_words_complete ws c v str r =
    rw (first_word c v str _ _ _ _ r) (match_specs_complete c v str _ _ _ _ r)
