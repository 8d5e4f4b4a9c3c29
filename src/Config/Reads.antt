-- ===== src/Config/Reads.antt =====
-- load_app_config reads a whole file.
use tcpremote_device_control.Base.{
  ◌≤◌, ◌≡◌, refl, true, List, [], ◌∷◌, some, map, length, All, Bytes, c_string, ℤ, arith,
}
use tcpremote_device_control.Config.{AppConfig, trim}
use tcpremote_device_control.Config.Bounds.{Fits, load_app_config-Fits}
use tcpremote_device_control.Config.File.{fgets_lines, load_app_config_file}

All-c_string :
    (lines : List Bytes)
    → All (λ line. length (trim (c_string line)) ≤ 65) lines
    → All (λ line. length (trim line) ≤ 65) (map c_string lines)
All-c_string [] h = tt
All-c_string (line ∷ lines) h = (h.0, All-c_string lines h.1)

-- A file that can be opened, whose lines as fgets gives them have at most 65 bytes up to a NUL without
-- the white space around them, is read to its end with the result true, and the address and the section
-- stay within their buffers.
pub load_app_config_file-Fits :
    (atoi : Bytes → ℤ) (bytes : Bytes) (c : AppConfig)
    → All (λ line. length (trim (c_string line)) ≤ 65) (fgets_lines bytes)
    → length c.addr ≤ 63
    → (c' : AppConfig) × (load_app_config_file atoi (some bytes) c ≡ some (true, c')) × Fits c'
unfolding load_app_config_file
load_app_config_file-Fits atoi bytes c short fits =
    let (c', e, f) =
      load_app_config-Fits atoi (map c_string (fgets_lines bytes))
        (record c { current_section = [] }) (All-c_string (fgets_lines bytes) short)
        (record { addr_fits = fits; section_fits = omega arith }) in
    (c', rw e refl, f)
