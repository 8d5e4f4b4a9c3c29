-- ===== src/Config/File.antt =====
-- load_app_config from the bytes of the settings file, with fopen and fgets.
use tcpremote_device_control.Base.{
  ℕ, ◌-◌, Bool, true, false, ◌||◌, ◌==◌, leb, if◌then◌else◌, List, [], ◌∷◌, Option, none, some,
  ◌>>=◌, map, Bytes, codes, c_string, ℤ, pos,
}
use tcpremote_device_control.Config.{AppConfig, load_app_config}

-- `app` as it is initialised.
abbrev pub app : AppConfig
app = record { port = pos 60000; backlog = pos 0; addr = codes "127.0.0.1"; current_section = [] }

-- sizeof(line)
abbrev pub line_size : ℕ
line_size = 256

abbrev pub add_line : Bytes × List Bytes → List Bytes
add_line ([], lines) = lines
add_line (c ∷ line, lines) = (c ∷ line) ∷ lines

abbrev pub is_full : ℕ → ℕ → Bool
is_full room c = c == 10 || leb room 1

-- fgets until it returns NULL: the line that has `room` bytes left, and the lines behind it. A line ends
-- with its newline, or when the buffer is full.
abbrev pub lines_from : ℕ → Bytes → Bytes × List Bytes
lines_from room [] = ([], [])
lines_from room (c ∷ s) =
    let rest = lines_from (if is_full room c then line_size - 1 else room - 1) s in
    if is_full room c then (c ∷ [], add_line rest) else (c ∷ rest.0, rest.1)

abbrev pub fgets_lines : Bytes → List Bytes
fgets_lines bytes = add_line (lines_from (line_size - 1) bytes)

-- The result with the settings. `none` for the file is one that cannot be opened, and `none` as the result
-- is a write behind the end of `current_section`.
unfoldable pub load_app_config_file :
    (Bytes → ℤ) → Option Bytes → AppConfig → Option (Bool × AppConfig)
unfolding load_app_config
load_app_config_file atoi none c = some (false, c)
load_app_config_file atoi (some bytes) c =
    load_app_config atoi (map c_string (fgets_lines bytes)) (record c { current_section = [] })
    >>= λ c'. some (true, c')
