-- ===== src/Command/Tokens.antt =====
-- common/command.c: the calls of strtok_r on a command line, with the separators " \t\r\n".
pub mod Splits
use tcpremote_device_control.Base.{
  ℕ, Bool, ◌||◌, ◌==◌, if◌then◌else◌, List, [], ◌∷◌, Option, none, some, Bytes,
}

abbrev pub is_delim : ℕ → Bool
is_delim c = c == 32 || c == 9 || c == 13 || c == 10

unfoldable pub skip_delims : Bytes → Bytes
skip_delims [] = []
skip_delims (c ∷ cs) = if is_delim c then skip_delims cs else c ∷ cs

-- The bytes up to the next separator, and those behind it.
unfoldable pub take_token : Bytes → Bytes
take_token [] = []
take_token (c ∷ cs) = if is_delim c then [] else c ∷ take_token cs

unfoldable pub after_token : Bytes → Bytes
after_token [] = []
after_token (c ∷ cs) = if is_delim c then cs else after_token cs

abbrev pub split_token : Bytes → Option Bytes × Bytes
split_token [] = (none, [])
split_token (c ∷ cs) = (some (take_token (c ∷ cs)), after_token (c ∷ cs))

-- The token, NULL if only separators are left, and what the save pointer then points to.
unfoldable pub strtok_r : Bytes → Option Bytes × Bytes
unfolding skip_delims take_token after_token
strtok_r s = split_token (skip_delims s)
