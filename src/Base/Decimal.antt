-- ===== src/Base/Decimal.antt =====
-- Decimal numbers as printf's %d and %u print them.
use Prim.Native.Nat.{ℕ, zero, suc, ◌+◌, ◌/◌, ◌%◌, ◌≤◌}
use mathlib.Core.Path.{◌≡◌}
use mathlib.Core.Logic.{inl, inr}
use mathlib.Core.Bool.{true}
use mathlib.Core.List.{[], ◌∷◌}
use native.Mathlib.Omega.{arith}
use tcpremote_device_control.Base.Tests.{ltb, if◌then◌else◌, Bool-cases}
use tcpremote_device_control.Base.Lists.{length, All}
use tcpremote_device_control.Base.Int.{ℤ, pos, negsuc}
use tcpremote_device_control.Base.Text.{Bytes, is_digit}

-- At most as many digits as the first argument says.
unfoldable pub print_digits : ℕ → ℕ → Bytes → Bytes
print_digits zero n out = out
print_digits (suc fuel) n out =
    let rest = print_digits fuel (n / 10) ((48 + n % 10) ∷ out) in
    if ltb n 10 then (48 + n) ∷ out else rest

-- 20 digits are enough for 64 bits.
unfoldable pub show_ℕ : ℕ → Bytes
unfolding print_digits
show_ℕ n = print_digits 20 n []

unfoldable pub show_ℤ : ℤ → Bytes
unfolding show_ℕ
show_ℤ (pos n) = show_ℕ n
show_ℤ (negsuc n) = 45 ∷ show_ℕ (suc n)

pub digits-print_digits :
    (fuel n : ℕ) (out : Bytes)
    → All (λ c. is_digit c ≡ true) out
    → All (λ c. is_digit c ≡ true) (print_digits fuel n out)
unfolding print_digits
digits-print_digits zero n out h = h
digits-print_digits (suc fuel) n out h = elim (Bool-cases (ltb n 10)) [
  | inl e ↦ simp e (ground arith, h)
  | inr e ↦ simp e (digits-print_digits fuel (n / 10) _ (ground arith, h))
]

pub digits-show_ℕ : (n : ℕ) → All (λ c. is_digit c ≡ true) (show_ℕ n)
unfolding show_ℕ
digits-show_ℕ n = digits-print_digits 20 n [] tt

pub length-print_digits :
    (fuel n : ℕ) (out : Bytes) → length (print_digits fuel n out) ≤ fuel + length out
unfolding print_digits
length-print_digits zero n out = omega arith
length-print_digits (suc fuel) n out =
    ground (arith, length-print_digits fuel (n / 10) ((48 + n % 10) ∷ out))
