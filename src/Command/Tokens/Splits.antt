-- ===== src/Command/Tokens/Splits.antt =====
-- What the calls of strtok_r return: the words of the line, however they are separated.
use tcpremote_device_control.Base.{
  ℕ, ◌≡◌, ◌≢◌, refl, sym, ap, ◌∙◌, true, false, List, [], ◌∷◌, ◌++◌, none, some, Bytes, All,
  Bool-cases, inl, inr,
}
use tcpremote_device_control.Command.Tokens.{
  is_delim, skip_delims, take_token, after_token, split_token, strtok_r,
}

abbrev pub AllDelims : Bytes → Type 0
AllDelims = All (λ c. is_delim c ≡ true)

abbrev pub NoDelims : Bytes → Type 0
NoDelims = All (λ c. is_delim c ≡ false)

-- What follows a word: nothing, or a separator.
abbrev pub Ends : Bytes → Type 0
Ends [] = Unit
Ends (c ∷ _) = is_delim c ≡ true

-- The words of a text, described without a loop. A separator is a space, a tab, \r or \n.
pub data Splits : Bytes → List Bytes → Type 0 where
  blank : {s : Bytes} → AllDelims s → Splits s []
  word :
      (gap : Bytes) {w : Bytes} (rest : Bytes) {s : Bytes} {ws : List Bytes}
      → AllDelims gap
      → NoDelims w
      → w ≢ []
      → Ends rest
      → Splits rest ws
      → s ≡ gap ++ (w ++ rest)
      → Splits s (w ∷ ws)

skip_delims_blank : (gap : Bytes) → AllDelims gap → skip_delims gap ≡ []
unfolding skip_delims
skip_delims_blank [] h = refl
skip_delims_blank (c ∷ cs) h = rw h.0 (skip_delims_blank cs h.1)

skip_delims-append :
    (gap : Bytes) (c : ℕ) (cs : Bytes)
    → AllDelims gap
    → is_delim c ≡ false
    → skip_delims (gap ++ c ∷ cs) ≡ c ∷ cs
unfolding skip_delims
skip_delims-append [] c cs h n = rw n
skip_delims-append (x ∷ gap) c cs h n = rw h.0 (skip_delims-append gap c cs h.1 n)

take_token-append : (w rest : Bytes) → NoDelims w → Ends rest → take_token (w ++ rest) ≡ w
unfolding take_token
take_token-append [] [] h e = refl
take_token-append [] (c ∷ cs) h e = rw e
take_token-append (x ∷ w) rest h e = rw h.0 (ap (◌∷◌ x) (take_token-append w rest h.1 e))

abbrev behind : Bytes → Bytes
behind [] = []
behind (c ∷ cs) = cs

after_token-append :
    (w rest : Bytes) → NoDelims w → Ends rest → after_token (w ++ rest) ≡ behind rest
unfolding after_token
after_token-append [] [] h e = refl
after_token-append [] (c ∷ cs) h e = rw e
after_token-append (x ∷ w) rest h e = rw h.0 (after_token-append w rest h.1 e)

abbrev head_or : Bytes → ℕ → ℕ
head_or [] d = d
head_or (c ∷ _) d = c

-- The first byte of a word.
word_head :
    (w rest : Bytes)
    → NoDelims w
    → w ≢ []
    → (c : ℕ) × (cs : Bytes) × (w ++ rest ≡ c ∷ cs) × (is_delim c ≡ false)
word_head [] rest h ne = absurd (ne refl)
word_head (c ∷ cs) rest h ne = (c, cs ++ rest, refl, h.0)

gap_ne_nil :
    {c : ℕ} {cs : Bytes} (w rest : Bytes)
    → NoDelims w
    → w ≢ []
    → is_delim c ≡ true
    → c ∷ cs ≢ w ++ rest
gap_ne_nil w rest n ne d q =
    let (x, xs, e, h) = word_head w rest n ne in
    let same = ap is_delim (ap (λ (s : Bytes). head_or s x) (q ∙ e)) in cc (sym d ∙ same ∙ h)

-- The separator that strtok_r overwrites can be left off.
behind-Splits :
    {rest : Bytes} {ws : List Bytes} → Ends rest → Splits rest ws → Splits (behind rest) ws
behind-Splits {rest = []} e sp = sp
behind-Splits {rest = c ∷ cs} e (blank h) = blank h.1
behind-Splits {rest = c ∷ cs} e (word [] {w} rest g n ne t sp q) =
    absurd (gap_ne_nil w rest n ne e q)
behind-Splits {rest = c ∷ cs} e (word (x ∷ gap) rest g n ne t sp q) =
    word gap rest g.1 n ne t sp (cc q)

split_token_word :
    (w rest : Bytes)
    → NoDelims w
    → w ≢ []
    → Ends rest
    → split_token (w ++ rest) ≡ (some w, behind rest)
split_token_word [] rest n ne t = absurd (ne refl)
split_token_word (x ∷ w) rest n ne t =
    rw (take_token-append (x ∷ w) rest n t, after_token-append (x ∷ w) rest n t)

-- A call returns the first word, and goes on behind it.
pub strtok_r-Splits :
    {s w : Bytes} {ws : List Bytes}
    → Splits s (w ∷ ws)
    → (rest : Bytes) × (strtok_r s ≡ (some w, rest)) × Splits rest ws
unfolding strtok_r
strtok_r-Splits {s = s} {w = w} (word gap rest g n ne t sp q) =
    let (c, cs, e, h) = word_head w rest n ne in
    let skipped : skip_delims s ≡ w ++ rest = rw (q, e) (skip_delims-append gap c cs g h) in
    (behind rest, rw skipped (split_token_word w rest n ne t), behind-Splits t sp)

-- A text without a word has no token.
pub strtok_r_blank : {s : Bytes} → Splits s [] → strtok_r s ≡ (none, [])
unfolding strtok_r
strtok_r_blank (blank h) = rw (skip_delims_blank _ h)

cons_delim :
    (c : ℕ) {s : Bytes} {ws : List Bytes} → is_delim c ≡ true → Splits s ws → Splits (c ∷ s) ws
cons_delim c d (blank h) = blank (d, h)
cons_delim c d (word gap rest g n ne t sp q) = word (c ∷ gap) rest (d, g) n ne t sp (ap (◌∷◌ c) q)

one_ne_nil : (c : ℕ) (cs : Bytes) → c ∷ cs ≢ []
one_ne_nil c cs e = cc

cons_letter :
    (c : ℕ) {s : Bytes} {ws : List Bytes}
    → is_delim c ≡ false
    → Splits s ws
    → (vs : List Bytes) × Splits (c ∷ s) vs
cons_letter c {s = []} n sp =
    ((c ∷ []) ∷ [], word [] [] tt (n, tt) (one_ne_nil c []) tt (blank tt) refl)
cons_letter c {s = x ∷ s} n (blank h) =
    ((c ∷ []) ∷ [], word [] (x ∷ s) tt (n, tt) (one_ne_nil c []) h.0 (blank h) refl)
cons_letter c {s = x ∷ s} n (word [] {w} rest {ws = ws} g m ne t sp q) =
    ((c ∷ w) ∷ ws, word [] rest tt (n, m) (one_ne_nil c w) t sp (ap (◌∷◌ c) q))
cons_letter c {s = x ∷ s} n (word (y ∷ gap) {w} rest {ws = ws} g m ne t sp q) =
    let d : is_delim x ≡ true = rw (ap (λ (v : Bytes). head_or v y) q) g.0 in
    (
      (c ∷ []) ∷ w ∷ ws,
      word [] (x ∷ s) tt (n, tt) (one_ne_nil c []) d (word (y ∷ gap) rest g m ne t sp q) refl,
    )

-- Every text splits into words.
pub Splits-total : (s : Bytes) → (ws : List Bytes) × Splits s ws
Splits-total [] = ([], blank tt)
Splits-total (c ∷ cs) =
    let (ws, sp) = Splits-total cs in
    elim (Bool-cases (is_delim c)) [ inl d ↦ (ws, cons_delim c d sp) | inr n ↦ cons_letter c n sp ]
