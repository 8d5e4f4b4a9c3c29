-- ===== src/Client/Colors.antt =====
-- How the answers of the server look at the terminal.
use tcpremote_device_control.Base.{
  ℕ, zero, suc, drop, ◌≡◌, refl, sym, ap, ◌∙◌, subst, inl, inr, ◌⊎◌, Bool, true, false, ◌&&◌, ◌||◌,
  ◌==◌, Bool-cases, [], ◌∷◌, ◌++◌, append_assoc, append-nil, take, Bytes, codes, arith, equal_bytes,
  true≢false,
}
use tcpremote_device_control.Execute.{Devices, exec_command}
use tcpremote_device_control.Execute.Pieces.{begins}
use tcpremote_device_control.Execute.Answers.{exec_command-IsAnswer}
use tcpremote_device_control.Client.{
  color_green, color_red, color_reset, starts_with, last_is_newline, print_server_response,
}

last_is_newline-line : (body : Bytes) → last_is_newline (body ++ 10 ∷ []) ≡ true
last_is_newline-line [] = refl
last_is_newline-line (c ∷ []) = refl
last_is_newline-line (c ∷ d ∷ s) = last_is_newline-line (d ∷ s)

-- Green behind OK, red behind ERR, and plain behind DATA.
pub data IsPainted (reply shown : Bytes) : Type 0 where
  green :
      starts_with reply (codes "OK ") ≡ true
      → shown ≡ color_green ++ codes "< " ++ reply ++ color_reset
      → IsPainted reply shown
  red :
      starts_with reply (codes "ERR ") ≡ true
      → shown ≡ color_red ++ codes "< " ++ reply ++ color_reset
      → IsPainted reply shown
  plain :
      starts_with reply (codes "DATA ") ≡ true → shown ≡ codes "< " ++ reply → IsPainted reply shown

-- A comparison of a whole start, and the start of a text.
take-starts_with :
    (s t start : Bytes) → equal_bytes s start ≡ true → starts_with (s ++ t) start ≡ true
unfolding equal_bytes
take-starts_with s t [] e = refl
take-starts_with [] t (c ∷ start) e = absurd (true≢false (sym e))
take-starts_with (b ∷ s) t (c ∷ start) e = elim (Bool-cases (b == c)) [
  | inl f ↦
      let rest : equal_bytes s start ≡ true = subst (λ x. (x && equal_bytes s start) ≡ true) f e in
      simp f (take-starts_with s t start rest)
  | inr f ↦ absurd (true≢false (sym (subst (λ x. (x && equal_bytes s start) ≡ true) f e)))
]

shorter_start :
    (text start more : Bytes)
    → starts_with text (start ++ more) ≡ true
    → starts_with text start ≡ true
shorter_start text [] more e = refl
shorter_start [] (c ∷ start) more e = e
shorter_start (b ∷ text) (c ∷ start) more e = elim (Bool-cases (b == c)) [
  | inl f ↦
      let rest : starts_with text (start ++ more) ≡ true =
        subst (λ x. (x && starts_with text (start ++ more)) ≡ true) f e in
      simp f (shorter_start text start more rest)
  | inr f ↦
      absurd (true≢false (sym (subst (λ x. (x && starts_with text (start ++ more)) ≡ true) f e)))
]

-- Texts with different first bytes.
other_start :
    (text : Bytes) (c d : ℕ) (start other : Bytes)
    → starts_with text (c ∷ start) ≡ true
    → (c == d) ≡ false
    → starts_with text (d ∷ other) ≡ false
other_start [] c d start other e ne = refl
other_start (b ∷ text) c d start other e ne = elim (Bool-cases (b == d)) [
  | inr f ↦ simp f refl
  | inl f ↦ elim (Bool-cases (b == c)) [
    | inl g ↦ absurd (true≢false (ground arith))
    | inr g ↦ absurd (true≢false (sym (subst (λ x. (x && starts_with text start) ≡ true) g e)))
  ]
]

take-drop : (n : ℕ) (s : Bytes) → take n s ++ drop n s ≡ s
take-drop zero s = refl
take-drop (suc n) [] = refl
take-drop (suc n) (c ∷ s) = ap (λ t. c ∷ t) (take-drop n s)

-- A line starts as the first bytes of its text do.
line_start :
    (n : ℕ) (body start : Bytes)
    → equal_bytes (take n body) start ≡ true
    → starts_with (body ++ 10 ∷ []) start ≡ true
line_start n body start e =
    subst (λ t. starts_with t start ≡ true)
      (sym (append_assoc (take n body) (drop n body) (10 ∷ []))
        ∙ ap (λ t. t ++ 10 ∷ []) (take-drop n body))
      (take-starts_with (take n body) (drop n body ++ 10 ∷ []) start e)

one_of_three : (a b c : Bool) → (a || b || c) ≡ true → (a ≡ true) ⊎ ((b ≡ true) ⊎ (c ≡ true))
one_of_three true b c e = inl refl
one_of_three false true c e = inr (inl refl)
one_of_three false false c e = inr (inr e)

line-IsPainted :
    (body : Bytes)
    → begins body ≡ true
    → IsPainted (body ++ 10 ∷ []) (print_server_response (body ++ 10 ∷ []))
unfolding print_server_response
line-IsPainted body e =
    let reply = body ++ 10 ∷ [] in
    let end = last_is_newline-line body in
    elim (one_of_three (equal_bytes (take 3 body) (codes "OK "))
      (equal_bytes (take 4 body) (codes "ERR ")) _ e) [
        | inl f ↦
            let s = line_start 3 body (codes "OK ") f in
            let ok = shorter_start reply (codes "OK") (codes " ") s in
            green s
              (simp (ok, end) (append-nil (color_green ++ codes "< " ++ reply ++ color_reset)))
        | inr (inl f) ↦
            let s = line_start 4 body (codes "ERR ") f in
            let no = other_start reply 69 79 (codes "RR ") (codes "K") s refl in
            let err = shorter_start reply (codes "ERR") (codes " ") s in
            red s
              (simp (no, err, end) (append-nil (color_red ++ codes "< " ++ reply ++ color_reset)))
        | inr (inr f) ↦
            let s = line_start 5 body (codes "DATA ") f in
            let no = other_start reply 68 79 (codes "ATA ") (codes "K") s refl in
            let no' = other_start reply 68 69 (codes "ATA ") (codes "RR") s refl in
            plain s (simp (no, no', end) (append-nil (codes "< " ++ reply)))
      ]

-- Whatever was asked, the answer of the server is shown behind an arrow, green if it begins with OK, red
-- if it begins with ERR, plain if it begins with DATA, and with no newline but its own.
pub exec_command-IsPainted :
    {S : Type 0} (d : Devices S) (request : Bytes) (s : S)
    → (let reply = (exec_command d request s).reply in
        IsPainted reply (print_server_response reply))
exec_command-IsPainted d request s =
    let a = exec_command-IsAnswer d request s in
    subst (λ reply. IsPainted reply (print_server_response reply)) (sym a.one_line)
      (line-IsPainted a.body a.first_word)
