-- ===== src/Command/Number/Laws.antt =====
-- strtol and parse_int_arg against the description of integer texts.
use tcpremote_device_control.Base.{
  ℕ, ◌+◌, ==_iff, ◌-◌, ◌*◌, ◌≡◌, ◌≢◌, inl, inr, refl, sym, ap, ◌∙◌, Bool, true, false, ◌==◌, [],
  ◌∷◌, ◌++◌, Bytes, is_space, is_digit, ℤ, pos, negsuc, negate, ◌≤ℤ◌, if◌then◌else◌, arith,
  Bool-cases,
}
use tcpremote_device_control.Command.Number.{
  skip_spaces, scan_digits, convert, convert_signed, strtol, long_max, to_long,
}
use tcpremote_device_control.Command.Number.Spec.{
  value_of, AllDigits, AllSpaces, Sign, unsigned, plus, minus, IsSigned, IsNumeral,
}

pub scan_digits-value_of :
    (acc : ℕ) (ds : Bytes) → AllDigits ds → scan_digits acc ds ≡ (value_of acc ds, [])
unfolding scan_digits
scan_digits-value_of acc [] h = refl
scan_digits-value_of acc (c ∷ cs) h =
    rw (h.0, scan_digits) (scan_digits-value_of (acc * 10 + (c - 48)) cs h.1)

scan_digits_all :
    (acc : ℕ) (s : Bytes)
    → (scan_digits acc s).1 ≡ []
    → AllDigits s × ((scan_digits acc s).0 ≡ value_of acc s)
unfolding scan_digits
scan_digits_all acc [] h = (tt, refl)
scan_digits_all acc (c ∷ cs) h = elim (Bool-cases (is_digit c)) [
  | inl d ↦
      let rest = scan_digits_all (acc * 10 + (c - 48)) cs (rw (d, scan_digits) at h) in
      ((d, rest.0), rw (d, scan_digits) rest.1)
  | inr n ↦ cc (rw (n, scan_digits) at h)
]

skip_spaces_split :
    (s : Bytes) → (spaces : Bytes) × (s ≡ spaces ++ skip_spaces s) × AllSpaces spaces
unfolding skip_spaces
skip_spaces_split [] = ([], refl, tt)
skip_spaces_split (c ∷ cs) = elim (Bool-cases (is_space c)) [
  | inl b ↦
      let (spaces, e, h) = skip_spaces_split cs in
      (c ∷ spaces, rw (b, skip_spaces) (ap (◌∷◌ c) e), (b, h))
  | inr n ↦ ([], rw (n, skip_spaces) refl, tt)
]

skip_spaces-append :
    (spaces : Bytes) (c : ℕ) (cs : Bytes)
    → AllSpaces spaces
    → is_space c ≡ false
    → skip_spaces (spaces ++ c ∷ cs) ≡ c ∷ cs
unfolding skip_spaces
skip_spaces-append [] c cs h n = rw n
skip_spaces-append (x ∷ xs) c cs h n = rw (h.0, skip_spaces) (skip_spaces-append xs c cs h.1 n)

-- A conversion that leaves nothing and fits the range has read a signed number.
to_long-exact :
    (negative : Bool) (n : ℕ)
    → (to_long negative (n, [])).range_error ≡ false
    → (to_long negative (n, [])).number ≡ (if negative then negate n else pos n)
to_long-exact true n h = ground arith
to_long-exact false n h = ground arith

to_long-rest : (negative : Bool) (r : ℕ × Bytes) → (to_long negative r).rest ≡ r.1
to_long-rest true (n, rest) = ground arith
to_long-rest false (n, rest) = ground arith

record Converts (negative : Bool) (ds : Bytes) (v : ℤ) : Type 0 where
  converts_digits : AllDigits ds
  converts_ne_nil : ds ≢ []
  converts_value : v ≡ (if negative then negate (value_of 0 ds) else pos (value_of 0 ds))

convert_sound :
    (negative : Bool) (s token : Bytes)
    → token ≢ []
    → (convert negative s token).range_error ≡ false
    → (convert negative s token).rest ≡ []
    → Converts negative s (convert negative s token).number
unfolding convert
convert_sound negative [] token t e r = absurd (t r)
convert_sound negative (c ∷ cs) token t e r = elim (Bool-cases (is_digit c)) [
  | inl d ↦
      let read = sym (to_long-rest negative (scan_digits 0 (c ∷ cs))) ∙ (rw (d, convert) at r) in
      let all = scan_digits_all 0 (c ∷ cs) read in
      let scanned = scan_digits-value_of 0 (c ∷ cs) all.0 in
      rw (d, scanned)
        (record {
          converts_digits = all.0;
          converts_ne_nil = λ h. cc h;
          converts_value = to_long-exact negative _ (rw (d, scanned, convert) at e);
        })
  | inr n ↦ absurd (t (rw (n, convert) at r))
]

Converts-IsSigned :
    {sign ds s : Bytes} {negative : Bool} {v : ℤ}
    → s ≡ sign ++ ds
    → Sign sign negative
    → Converts negative ds v
    → IsSigned s v
Converts-IsSigned {sign} {ds} {s} {negative} e p k = record {
  sign = sign;
  digits = ds;
  negative = negative;
  shape = e;
  is_sign = p;
  all_digits = k.converts_digits;
  digits_ne_nil = k.converts_ne_nil;
  value = k.converts_value;
}

convert_signed-IsSigned :
    (s token : Bytes)
    → token ≢ []
    → (convert_signed s token).range_error ≡ false
    → (convert_signed s token).rest ≡ []
    → IsSigned s (convert_signed s token).number
unfolding convert_signed
convert_signed-IsSigned [] token t e r = absurd (t r)
convert_signed-IsSigned (c ∷ cs) token t e r = elim (Bool-cases (c == b'-')) [
  | inl m ↦ rw m (
      Converts-IsSigned (ap (λ x. x ∷ cs) ((==_iff c b'-').0 m)) minus
        (convert_sound true cs token t (rw (m, convert_signed) at e) (rw (m, convert_signed) at r)))
  | inr m ↦ elim (Bool-cases (c == b'+')) [
    | inl p ↦
        rw (m, p)
          (Converts-IsSigned (ap (λ x. x ∷ cs) ((==_iff c b'+').0 p)) plus (
            convert_sound false cs token t (rw (m, p, convert_signed) at e)
              (rw (m, p, convert_signed) at r)))
    | inr p ↦
        rw (m, p)
          (Converts-IsSigned refl unsigned (
            convert_sound false (c ∷ cs) token t (rw (m, p, convert_signed) at e)
              (rw (m, p, convert_signed) at r)))
  ]
]

-- The other direction: such a text is converted whole.
convert-AllDigits :
    (negative : Bool) (ds token : Bytes)
    → AllDigits ds
    → ds ≢ []
    → convert negative ds token ≡ to_long negative (value_of 0 ds, [])
unfolding convert
convert-AllDigits negative [] token h ne = absurd (ne refl)
convert-AllDigits negative (c ∷ cs) token h ne = rw (h.0, scan_digits-value_of 0 (c ∷ cs) h) refl

convert_signed-digits :
    (ds token : Bytes)
    → AllDigits ds
    → ds ≢ []
    → convert_signed ds token ≡ to_long false (value_of 0 ds, [])
unfolding convert_signed
convert_signed-digits [] token h ne = absurd (ne refl)
convert_signed-digits (c ∷ cs) token h ne =
    let not_minus : (c == b'-') ≡ false = ground (arith, h.0) in
    let not_plus : (c == b'+') ≡ false = ground (arith, h.0) in
    rw (not_minus, not_plus) (convert-AllDigits false (c ∷ cs) token h ne)

convert_signed-Sign :
    {sign : Bytes} {negative : Bool} (ds token : Bytes)
    → Sign sign negative
    → AllDigits ds
    → ds ≢ []
    → convert_signed (sign ++ ds) token ≡ to_long negative (value_of 0 ds, [])
convert_signed-Sign ds token unsigned h ne = convert_signed-digits ds token h ne
convert_signed-Sign ds token plus h ne =
    unfold convert_signed in convert-AllDigits false ds token h ne
convert_signed-Sign ds token minus h ne =
    unfold convert_signed in convert-AllDigits true ds token h ne

pub Sign-head :
    {sign : Bytes} {negative : Bool} (ds : Bytes)
    → Sign sign negative
    → AllDigits ds
    → ds ≢ []
    → (c : ℕ) × (cs : Bytes) × (sign ++ ds ≡ c ∷ cs) × (is_space c ≡ false)
Sign-head [] unsigned h ne = absurd (ne refl)
Sign-head (c ∷ cs) unsigned h ne = (c, cs, refl, ground (arith, h.0))
Sign-head ds plus h ne = (b'+', ds, refl, refl)
Sign-head ds minus h ne = (b'-', ds, refl, refl)

to_long_fits :
    (negative : Bool) (n : ℕ) (v : ℤ)
    → v ≡ (if negative then negate n else pos n)
    → negsuc long_max ≤ℤ v
    → v ≤ℤ pos long_max
    → to_long negative (n, []) ≡ record { number = v; rest = []; range_error = false }
to_long_fits true n v e lo hi = ground arith
to_long_fits false n v e lo hi = ground arith

pub strtol-IsNumeral :
    (token : Bytes) (v : ℤ)
    → IsNumeral token v
    → negsuc long_max ≤ℤ v
    → v ≤ℤ pos long_max
    → strtol token ≡ record { number = v; rest = []; range_error = false }
unfolding strtol
strtol-IsNumeral token v k lo hi =
    let s = k.is_signed in
    let (c, cs, e, n) = Sign-head s.digits s.is_sign s.all_digits s.digits_ne_nil in
    let skipped : skip_spaces token ≡ s.sign ++ s.digits =
      rw (k.shape, s.shape, e) (skip_spaces-append k.spaces c cs k.all_spaces n) in
    rw skipped (
      convert_signed-Sign s.digits token s.is_sign s.all_digits s.digits_ne_nil
      ∙ to_long_fits s.negative _ v s.value lo hi)

pub strtol_sound :
    (token : Bytes)
    → token ≢ []
    → (strtol token).range_error ≡ false
    → (strtol token).rest ≡ []
    → IsNumeral token (strtol token).number
unfolding strtol
strtol_sound token t e r =
    let (spaces, split, all) = skip_spaces_split token in
    record {
      spaces = spaces;
      number = skip_spaces token;
      shape = split;
      all_spaces = all;
      is_signed = convert_signed-IsSigned (skip_spaces token) token t e r;
    }
