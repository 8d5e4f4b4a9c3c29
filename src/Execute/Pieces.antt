-- ===== src/Execute/Pieces.antt =====
-- The pieces that answers are made of.
use tcpremote_device_control.Base.{
  ℕ, suc, ◌+◌, ◌≤◌, ◌≡◌, refl, ap, sym, ◌∙◌, Bool, true, false, not, ◌&&◌, ◌||◌, ◌==◌,
  if◌then◌else◌, List, [], ◌∷◌, ◌++◌, append_assoc, length, length-append, take, take_all, All,
  Bytes, codes, equal_bytes, is_digit, ℤ, pos, negsuc, arith, show_ℕ, show_ℤ, digits-print_digits,
  length-print_digits,
}
use tcpremote_device_control.DeviceResult.{device_result_message}
use tcpremote_device_control.Execute.{line, joined, on_off, loaded_missing}

abbrev pub no_newline : Bytes → Bool
no_newline [] = true
no_newline (c ∷ s) = not (c == 10) && no_newline s

-- One of the three words that answers begin with.
abbrev pub begins : Bytes → Bool
begins s =
    equal_bytes (take 3 s) (codes "OK ")
    || equal_bytes (take 4 s) (codes "ERR ")
    || equal_bytes (take 5 s) (codes "DATA ")

-- An answer: one line that begins with OK, ERR or DATA and fits the buffer of 1024 bytes whole.
pub record IsAnswer (reply : Bytes) : Type 0 where
  pub body : Bytes
  pub one_line : reply ≡ body ++ 10 ∷ []
  pub clean : no_newline body ≡ true
  pub first_word : begins body ≡ true
  pub fits : length reply ≤ 1023

-- A piece of an answer.
pub record Piece (n : ℕ) (s : Bytes) : Type 0 where
  pub clean : no_newline s ≡ true
  pub short : length s ≤ n

pub no_newline-append :
    (s t : Bytes) → no_newline s ≡ true → no_newline t ≡ true → no_newline (s ++ t) ≡ true
no_newline-append [] t h k = k
no_newline-append (c ∷ s) t h k = ground (arith, no_newline-append s t)

pub Piece-append : (n m : ℕ) (s t : Bytes) → Piece n s → Piece m t → Piece (n + m) (s ++ t)
Piece-append n m s t p q = record {
  clean = no_newline-append s t p.clean q.clean;
  short = omega (arith, length-append s t, p.short, q.short);
}

-- The pieces in one string, without the newline.
abbrev pub concat : List Bytes → Bytes
concat [] = []
concat (p ∷ ps) = p ++ concat ps

pub joined-concat : (ps : List Bytes) → joined ps ≡ concat ps ++ 10 ∷ []
joined-concat [] = refl
joined-concat (p ∷ ps) =
    ap (λ s. p ++ s) (joined-concat ps) ∙ sym (append_assoc p (concat ps) (10 ∷ []))

pub line-IsAnswer :
    (ps : List Bytes) (n : ℕ)
    → Piece n (concat ps)
    → n ≤ 1022
    → begins (concat ps) ≡ true
    → IsAnswer (line ps)
unfolding line
line-IsAnswer ps n p small word =
    let same = joined-concat ps in
    let size = length-append (concat ps) (10 ∷ []) in
    let whole : take 1023 (joined ps) ≡ concat ps ++ 10 ∷ [] =
      ap (take 1023) same ∙ take_all 1023 _ (omega (arith, p.short)) in
    record {
      body = concat ps;
      one_line = whole;
      clean = p.clean;
      first_word = word;
      fits = rw whole (omega (arith, p.short));
    }

pub digits_clean : (s : Bytes) → All (λ c. is_digit c ≡ true) s → no_newline s ≡ true
digits_clean [] h = refl
digits_clean (c ∷ s) h = ground (arith, digits_clean s h.1)

pub show_ℕ-Piece : (n : ℕ) → Piece 20 (show_ℕ n)
unfolding show_ℕ
show_ℕ-Piece n = record {
  clean = digits_clean _ (digits-print_digits 20 n [] tt);
  short = length-print_digits 20 n [];
}

pub show_ℤ-Piece : (v : ℤ) → Piece 21 (show_ℤ v)
unfolding show_ℤ
show_ℤ-Piece (pos n) = record {
  clean = (show_ℕ-Piece n).clean;
  short = omega (arith, (show_ℕ-Piece n).short);
}
show_ℤ-Piece (negsuc n) = record {
  clean = (show_ℕ-Piece (suc n)).clean;
  short = omega (arith, (show_ℕ-Piece (suc n)).short);
}

pub on_off-Piece : (b : Bool) → Piece 3 (on_off b)
on_off-Piece true = record { clean = refl; short = omega arith }
on_off-Piece false = record { clean = refl; short = omega arith }

pub loaded_missing-Piece : (b : Bool) → Piece 7 (loaded_missing b)
loaded_missing-Piece true = record { clean = refl; short = omega arith }
loaded_missing-Piece false = record { clean = refl; short = omega arith }

pub text_Piece : {n : ℕ} (s : Bytes) → no_newline s ≡ true → length s ≤ n → Piece n s
text_Piece s h k = record { clean = h; short = k }

pub nil-Piece : Piece 0 []
nil-Piece = record { clean = refl; short = omega arith }

pub if_Piece :
    (n : ℕ) (b : Bool) (s t : Bytes) → Piece n s → Piece n t → Piece n (if b then s else t)
if_Piece n true s t p q = p
if_Piece n false s t p q = q

pub message-Piece : (result : ℤ) → Piece 18 (device_result_message result)
unfolding device_result_message
message-Piece result = if_Piece 18 _ (codes "OK") _ (text_Piece (codes "OK") refl (omega arith)) (
    if_Piece 18 _ (codes "NOT_INITIALIZED") _
      (text_Piece (codes "NOT_INITIALIZED") refl (omega arith))
      (if_Piece 18 _ (codes "GPIO_SETUP_FAILED") _
        (text_Piece (codes "GPIO_SETUP_FAILED") refl (omega arith))
        (if_Piece 18 _ (codes "THREAD_FAILED") _
          (text_Piece (codes "THREAD_FAILED") refl (omega arith))
          (if_Piece 18 _ (codes "INVALID_VALUE") _
            (text_Piece (codes "INVALID_VALUE") refl (omega arith))
            (if_Piece 18 _ (codes "PLUGIN_LOAD_FAILED") _
              (text_Piece (codes "PLUGIN_LOAD_FAILED") refl (omega arith))
              (if_Piece 18 _ (codes "SYMBOL_LOAD_FAILED") _
                (text_Piece (codes "SYMBOL_LOAD_FAILED") refl (omega arith))
                (if_Piece 18 _ (codes "DEVICE_FAILED") _
                  (text_Piece (codes "DEVICE_FAILED") refl (omega arith))
                  (if_Piece 18 _ (codes "CANCELLED") _
                    (text_Piece (codes "CANCELLED") refl (omega arith))
                    (text_Piece (codes "UNKNOWN") refl (omega arith))))))))))
