-- ===== src/Pitch/Arithmetic.antt =====
-- float and double as C has them, with the functions of <math.h> that the pitch detector calls.
use tcpremote_device_control.Base.{ℕ, Bool, true, false, ◌≡◌, ℤ}

-- F is float and D is double. `literal m k` is the float nearest to m / 10 ^ k. A comparison with NaN is
-- false. lroundf gives an int here, as the code casts it.
pub record Floats (F D : Type 0) : Type 0 where
  pub literal : ℕ → ℕ → F
  pub of_int : ℤ → F
  pub add : F → F → F
  pub sub : F → F → F
  pub mul : F → F → F
  pub div : F → F → F
  pub lt : F → F → Bool
  pub le : F → F → Bool
  pub powf : F → F → F
  pub cosf : F → F
  pub lroundf : F → ℤ
  pub double_of_int : ℤ → D
  pub add_double : D → D → D
  pub sub_double : D → D → D
  pub mul_double : D → D → D
  pub div_double : D → D → D
  pub le_double : D → D → Bool
  pub sqrt : D → D
  pub m_pi : D
  pub widen : F → D
  pub narrow : D → F

-- What the comparison of floats is known for, NaN included.
pub record IsOrdered {F D : Type 0} (fl : Floats F D) : Type 0 where
  pub trans : (a b c : F) → fl.lt a b ≡ true → fl.lt b c ≡ true → fl.lt a c ≡ true
  pub irrefl : (a : F) → fl.lt a a ≡ false
