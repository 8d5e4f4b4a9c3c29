-- ===== src/Command/Number/Range.antt =====
-- parse_int_arg as a whole: which tokens it accepts, and with which value.
use tcpremote_device_control.Base.{
  ◌≡◌, ◌≢◌, ◌↔◌, refl, sym, ◌∙◌, true, false, [], ◌∷◌, ◌++◌, some, Bytes, ℤ, pos, negsuc, ◌≤ℤ◌,
  arith,
}
use tcpremote_device_control.Command.Number.{
  Strtol, strtol, parse_int_arg, in_range, long_max, is_end,
}
use tcpremote_device_control.Command.Number.Spec.{IsNumeral}
use tcpremote_device_control.Command.Number.Laws.{strtol_sound, strtol-IsNumeral, Sign-head}

-- What the four tests on the result of strtol leave.
record Accepted (r : Strtol) (lo hi v : ℤ) : Type 0 where
  no_error : r.range_error ≡ false
  no_rest : r.rest ≡ []
  value : v ≡ r.number
  above : lo ≤ℤ v
  below : v ≤ℤ hi

is_end_nil : (s : Bytes) → is_end s ≡ true → s ≡ []
is_end_nil [] h = refl
is_end_nil (c ∷ cs) h = cc

in_range-Accepted : (r : Strtol) (lo hi v : ℤ) → in_range r lo hi ≡ some v → Accepted r lo hi v
in_range-Accepted r lo hi v h = record {
  no_error = ground arith;
  no_rest = is_end_nil r.rest (ground arith);
  value = ground arith;
  above = ground arith;
  below = ground arith;
}

in_range-some :
    (v lo hi : ℤ)
    → lo ≤ℤ v
    → v ≤ℤ hi
    → in_range (record { number = v; rest = []; range_error = false }) lo hi ≡ some v
in_range-some v lo hi a b = ground arith

parse_int_arg_sound :
    (token : Bytes) (lo hi v : ℤ)
    → parse_int_arg (some token) lo hi ≡ some v
    → IsNumeral token v × (lo ≤ℤ v) × (v ≤ℤ hi)
unfolding parse_int_arg
parse_int_arg_sound [] lo hi v h = cc
parse_int_arg_sound (c ∷ cs) lo hi v h =
    let a = in_range-Accepted (strtol (c ∷ cs)) lo hi v h in
    (rw a.value (strtol_sound (c ∷ cs) (λ e. cc e) a.no_error a.no_rest), a.above, a.below)

append-eq-nil : (xs ys : Bytes) → xs ++ ys ≡ [] → ys ≡ []
append-eq-nil [] ys e = e
append-eq-nil (x ∷ xs) ys e = cc

IsNumeral-ne-nil : {token : Bytes} {v : ℤ} → IsNumeral token v → token ≢ []
IsNumeral-ne-nil k e =
    let s = k.is_signed in
    let (c, cs, head, n) = Sign-head s.digits s.is_sign s.all_digits s.digits_ne_nil in
    let none_left = append-eq-nil k.spaces k.number (sym k.shape ∙ e) in
    cc (sym head ∙ sym s.shape ∙ none_left)

parse_int_arg_complete :
    (token : Bytes) (lo hi v : ℤ)
    → negsuc long_max ≤ℤ lo
    → hi ≤ℤ pos long_max
    → IsNumeral token v
    → lo ≤ℤ v
    → v ≤ℤ hi
    → parse_int_arg (some token) lo hi ≡ some v
unfolding parse_int_arg
parse_int_arg_complete [] lo hi v l h k a b = absurd (IsNumeral-ne-nil k refl)
parse_int_arg_complete (c ∷ cs) lo hi v l h k a b =
    rw (strtol-IsNumeral (c ∷ cs) v k (omega arith) (omega arith)) (in_range-some v lo hi a b)

-- An argument is accepted, with value v, exactly when the token is white space, a sign or none and
-- digits that stand for v, and v lies between the bounds. The bounds lie in the range of `long`.
pub parse_int_arg_iff :
    (token : Bytes) (lo hi v : ℤ)
    → negsuc long_max ≤ℤ lo
    → hi ≤ℤ pos long_max
    → (parse_int_arg (some token) lo hi ≡ some v) ↔ (IsNumeral token v × (lo ≤ℤ v) × (v ≤ℤ hi))
parse_int_arg_iff token lo hi v l h =
    (parse_int_arg_sound token lo hi v, λ k. parse_int_arg_complete token lo hi v l h k.0 k.1 k.2)
