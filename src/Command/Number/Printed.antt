-- ===== src/Command/Number/Printed.antt =====
-- A number that the server prints is read back by parse_int_arg.
use tcpremote_device_control.Base.{
  ℕ, zero, suc, ◌+◌, ◌-◌, ◌*◌, ◌/◌, ◌%◌, ◌<◌, ◌≤◌, ◌≡◌, ◌≢◌, refl, ap, ◌∙◌, sym, true, false, ltb,
  inl, inr, Bool-cases, [], ◌∷◌, some, Bytes, All, is_digit, ℤ, pos, negsuc, ◌≤ℤ◌, arith,
  print_digits, show_ℕ, show_ℤ, digits-print_digits, ◌^◌,
}
use tcpremote_device_control.Command.Number.{parse_int_arg, long_max}
use tcpremote_device_control.Command.Number.Spec.{value_of, unsigned, minus, IsSigned}
use tcpremote_device_control.Command.Number.Range.{parse_int_arg_iff}

abbrev tens : ℕ → ℕ
tens zero = 1
tens (suc n) = 10 * tens n

value_of-print_digits :
    (fuel n : ℕ) (out : Bytes)
    → n < tens fuel
    → value_of 0 (print_digits fuel n out) ≡ value_of n out
unfolding print_digits
value_of-print_digits zero n out h = let none_left : n ≡ 0 = omega arith in rw none_left refl
value_of-print_digits (suc fuel) n out h = elim (Bool-cases (ltb n 10)) [
  | inl e ↦
      let digit : 0 + (48 + n - 48) ≡ n = omega arith in simp e (ap (λ v. value_of v out) digit)
  | inr e ↦
      let last : n / 10 * 10 + (48 + n % 10 - 48) ≡ n = omega arith in
      simp e (
        value_of-print_digits fuel (n / 10) ((48 + n % 10) ∷ out) (omega arith)
        ∙ ap (λ v. value_of v out) last)
]

print_digits-ne-nil : (fuel n c : ℕ) (out : Bytes) → print_digits fuel n (c ∷ out) ≢ []
unfolding print_digits
print_digits-ne-nil zero n c out e = cc
print_digits-ne-nil (suc fuel) n c out e =
    ground (arith, print_digits-ne-nil fuel (n / 10) (48 + n % 10) (c ∷ out))

show_ℕ-ne-nil : (n : ℕ) → show_ℕ n ≢ []
unfolding show_ℕ print_digits
show_ℕ-ne-nil n e = ground (arith, print_digits-ne-nil 19 (n / 10) (48 + n % 10) [])

value_of-show_ℕ : (n : ℕ) → n ≤ 2 ^ 63 → value_of 0 (show_ℕ n) ≡ n
unfolding show_ℕ
value_of-show_ℕ n h = value_of-print_digits 20 n [] (omega arith)

all_digits : (n : ℕ) → All (λ c. is_digit c ≡ true) (show_ℕ n)
unfolding show_ℕ
all_digits n = digits-print_digits 20 n [] tt

show_ℤ-IsSigned : (v : ℤ) → negsuc long_max ≤ℤ v → v ≤ℤ pos long_max → IsSigned (show_ℤ v) v
unfolding show_ℤ
show_ℤ-IsSigned (pos n) l h = record {
  sign = [];
  digits = show_ℕ n;
  negative = false;
  shape = refl;
  is_sign = unsigned;
  all_digits = all_digits n;
  digits_ne_nil = show_ℕ-ne-nil n;
  value = ap pos (sym (value_of-show_ℕ n (omega arith)));
}
show_ℤ-IsSigned (negsuc n) l h = record {
  sign = 45 ∷ [];
  digits = show_ℕ (suc n);
  negative = true;
  shape = refl;
  is_sign = minus;
  all_digits = all_digits (suc n);
  digits_ne_nil = show_ℕ-ne-nil (suc n);
  value = rw (value_of-show_ℕ (suc n) (omega arith)) (ground arith);
}

-- A number between the bounds of an argument is accepted as its decimal text is printed. The bounds
-- lie in the range of `long`.
pub parse_int_arg-show_ℤ :
    (lo hi v : ℤ)
    → negsuc long_max ≤ℤ lo
    → hi ≤ℤ pos long_max
    → lo ≤ℤ v
    → v ≤ℤ hi
    → parse_int_arg (some (show_ℤ v)) lo hi ≡ some v
parse_int_arg-show_ℤ lo hi v l h above below = (parse_int_arg_iff (show_ℤ v) lo hi v l h).1 (
  record {
    spaces = [];
    number = show_ℤ v;
    shape = refl;
    all_spaces = tt;
    is_signed = show_ℤ-IsSigned v (omega arith) (omega arith);
  },
  above,
  below,
)
