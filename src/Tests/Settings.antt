-- ===== src/Tests/Settings.antt =====
-- A settings file of three lines.
use tcpremote_device_control.Base.{
  ◌≡◌, refl, true, List, [], ◌∷◌, ◌++◌, none, some, ℤ, pos, Bytes, codes, arith, replicate, length,
  equal_bytes,
}
use tcpremote_device_control.Config.{
  AppConfig, trim, cut_end, skip_space, load_app_config, read_trimmed, read_section, read_setting,
  split_delimiter, trim_in_place,
}
use tcpremote_device_control.Config.File.{app, fgets_lines, load_app_config_file}
use tcpremote_device_control.Config.Bounds.{Fits}
use tcpremote_device_control.Config.Reads.{load_app_config_file-Fits}

abbrev defaults : AppConfig
defaults = record {
  port = pos 60000;
  backlog = pos 0;
  addr = codes "127.0.0.1";
  current_section = [];
}

abbrev server_lines : List Bytes
server_lines =
    (codes "[Server]" ++ 10 ∷ [])
    ∷ (codes "  addr = 0.0.0.0 " ++ 10 ∷ [])
    ∷ (codes "port=7" ++ 10 ∷ [])
    ∷ []

-- In place of atoi, the length of the text.
abbrev atoi : Bytes → ℤ
atoi s = pos (length s)

load_test :
    load_app_config atoi server_lines defaults
    ≡ some (record {
      port = pos 1;
      backlog = pos 0;
      addr = codes "0.0.0.0";
      current_section = codes "Server";
    })
unfolding load_app_config read_trimmed read_section read_setting split_delimiter trim trim_in_place
    skip_space cut_end equal_bytes
load_test = refl

-- A section's name of 64 bytes is written behind the buffer.
long_section_test : load_app_config atoi ((91 ∷ replicate 64 65 ++ 93 ∷ []) ∷ []) defaults ≡ none
unfolding load_app_config read_trimmed read_section trim skip_space cut_end
long_section_test = refl

abbrev file : Bytes
file = codes "[Server]" ++ 10 ∷ codes "addr = 0.0.0.0" ++ 10 ∷ codes "port=7"

load_file_test :
    load_app_config_file atoi (some file) app
    ≡ some (
      true,
      record {
        port = pos 1;
        backlog = pos 0;
        addr = codes "0.0.0.0";
        current_section = codes "Server";
      },
    )
unfolding load_app_config_file load_app_config read_trimmed read_section read_setting
    split_delimiter trim trim_in_place skip_space cut_end equal_bytes
load_file_test = refl

-- A line of 300 bytes is read in two pieces.
long_line_test :
    fgets_lines (replicate 300 65 ++ 10 ∷ []) ≡ replicate 255 65 ∷ (replicate 45 65 ++ 10 ∷ []) ∷ []
long_line_test = refl

load_app_config_file-Fits_example :
    (c' : AppConfig) × (load_app_config_file atoi (some file) app ≡ some (true, c')) × Fits c'
unfolding trim skip_space cut_end
load_app_config_file-Fits_example =
    load_app_config_file-Fits atoi file app (omega arith, (omega arith, (omega arith, tt)))
      (omega arith)
