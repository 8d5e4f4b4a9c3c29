-- ===== src/Command/Number/Spec.antt =====
-- The integer texts that the protocol accepts, described without strtol.
use tcpremote_device_control.Base.{
  ℕ, ◌+◌, ◌-◌, ◌*◌, ◌≡◌, ◌≢◌, Bool, true, false, [], ◌∷◌, ◌++◌, Bytes, is_space, is_digit, All, ℤ,
  pos, negate, if◌then◌else◌,
}

-- The number that a row of digits stands for, behind digits already read.
abbrev pub value_of : ℕ → Bytes → ℕ
value_of acc [] = acc
value_of acc (c ∷ cs) = value_of (acc * 10 + (c - 48)) cs

abbrev pub AllDigits : Bytes → Type 0
AllDigits = All (λ c. is_digit c ≡ true)

abbrev pub AllSpaces : Bytes → Type 0
AllSpaces = All (λ c. is_space c ≡ true)

pub data Sign : Bytes → Bool → Type 0 where
  unsigned : Sign [] false
  plus : Sign (b'+' ∷ []) false
  minus : Sign (b'-' ∷ []) true

-- A sign, or none, and at least one digit.
pub record IsSigned (s : Bytes) (v : ℤ) : Type 0 where
  pub sign : Bytes
  pub digits : Bytes
  pub negative : Bool
  pub shape : s ≡ sign ++ digits
  pub is_sign : Sign sign negative
  pub all_digits : AllDigits digits
  pub digits_ne_nil : digits ≢ []
  pub value : v ≡ (if negative then negate (value_of 0 digits) else pos (value_of 0 digits))

-- White space, a sign or none, and at least one digit, with nothing behind.
pub record IsNumeral (token : Bytes) (v : ℤ) : Type 0 where
  pub spaces : Bytes
  pub number : Bytes
  pub shape : token ≡ spaces ++ number
  pub all_spaces : AllSpaces spaces
  pub is_signed : IsSigned number v
