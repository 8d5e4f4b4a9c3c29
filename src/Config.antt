-- ===== src/Config.antt =====
-- common/app_config.h and common/app_config.c: the settings and their file. The lines are those that
-- fgets returns, each as the bytes before its NUL.
pub mod Trim
pub mod Bounds
pub mod File
pub mod Reads
use tcpremote_device_control.Base.{
  ℕ, zero, suc, ◌-◌, Bool, true, false, ◌&&◌, ◌||◌, ◌==◌, leb, if◌then◌else◌, List, [], ◌∷◌, Option,
  none, some, ◌>>=◌, length, take, drop, is_space, equal_bytes, Bytes, codes, ℤ,
}

abbrev pub max_addr_len : ℕ
max_addr_len = 64

-- `app`, and the local buffer for the section.
pub record AppConfig : Type 0 where
  pub port : ℤ
  pub backlog : ℤ
  pub addr : Bytes
  pub current_section : Bytes

unfoldable pub skip_space : Bytes → Bytes
skip_space [] = []
skip_space (c ∷ s) = if is_space c then skip_space s else c ∷ s

abbrev pub put_front : ℕ → Bytes → Bytes
put_front c [] = if is_space c then [] else c ∷ []
put_front c (d ∷ t) = c ∷ d ∷ t

-- The string without the white space at its end.
unfoldable pub cut_end : Bytes → Bytes
cut_end [] = []
cut_end (c ∷ s) = put_front c (cut_end s)

-- The string that the returned pointer is to.
unfoldable pub trim : Bytes → Bytes
unfolding skip_space cut_end
trim s = cut_end (skip_space s)

-- The buffer behind trim, if the returned pointer is not used.
unfoldable pub trim_in_place : Bytes → Bytes
unfolding cut_end
trim_in_place s = elim (cut_end s) [ [] ↦ s | c ∷ t ↦ c ∷ t ]

abbrev pub last_or : ℕ → Bytes → ℕ
last_or c [] = c
last_or c (d ∷ s) = last_or d s

abbrev before : ℕ → Option (Bytes × Bytes) → Option (Bytes × Bytes)
before c none = none
before c (some (key, value)) = some (c ∷ key, value)

-- The strings around the first '='.
unfoldable pub split_delimiter : Bytes → Option (Bytes × Bytes)
split_delimiter [] = none
split_delimiter (c ∷ s) = if c == 61 then some ([], s) else before c (split_delimiter s)

module _ (atoi : Bytes → ℤ) where
  abbrev assign : Bytes → Bytes → AppConfig → AppConfig
  assign key value c =
      if equal_bytes c.current_section (codes "Server")
      then (if equal_bytes key (codes "port")
          then record c { port = atoi value }
          else if equal_bytes key (codes "addr")
          then record c { addr = take (max_addr_len - 1) value }
          else c)
      else c

  unfoldable pub read_setting : Option (Bytes × Bytes) → AppConfig → AppConfig
  unfolding trim
  read_setting none c = c
  read_setting (some (key, value)) c = assign (trim key) (trim value) c

  -- `none` is a write behind the end of `current_section`.
  unfoldable pub read_section : Bytes → AppConfig → Option AppConfig
  unfolding trim_in_place
  read_section line c =
      if leb 64 (length line - 2)
      then none
      else some
          (record c { current_section = trim_in_place (take (length line - 2) (drop 1 line)) })

  unfoldable pub read_trimmed : Bytes → AppConfig → Option AppConfig
  unfolding read_section read_setting split_delimiter
  read_trimmed [] c = some c
  read_trimmed (d ∷ s) c =
      if d == 35 || d == 59
      then some c
      else if d == 91 && last_or d s == 93
      then read_section (d ∷ s) c
      else some (read_setting (split_delimiter (d ∷ s)) c)

  -- The loop of load_app_config over the lines of a file that could be opened.
  unfoldable pub load_app_config : List Bytes → AppConfig → Option AppConfig
  unfolding trim read_trimmed
  load_app_config [] c = some c
  load_app_config (line ∷ lines) c = read_trimmed (trim line) c >>= λ c'. load_app_config lines c'
