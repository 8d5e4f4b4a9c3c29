-- ===== src/Config/Bounds.antt =====
-- The buffers that load_app_config writes.
use tcpremote_device_control.Base.{
  ℕ, suc, ◌-◌, ◌≤◌, ◌≡◌, refl, Bool, true, false, ◌&&◌, ◌||◌, ◌==◌, leb, if◌then◌else◌, List, [],
  ◌∷◌, Option, none, some, All, Bytes, Bool-cases, inl, inr, length, length-take, take, drop, arith,
  ℤ, equal_bytes, codes,
}
use tcpremote_device_control.Config.{
  AppConfig, max_addr_len, cut_end, put_front, trim, trim_in_place, read_setting, read_section,
  read_trimmed, load_app_config, last_or, split_delimiter, assign,
}

-- Both texts fit their buffers of 64 bytes with the NUL behind them.
pub record Fits (c : AppConfig) : Type 0 where
  pub addr_fits : length c.addr ≤ 63
  pub section_fits : length c.current_section ≤ 63

length-put_front : (c : ℕ) (t : Bytes) → length (put_front c t) ≤ suc (length t)
length-put_front c [] = ground arith
length-put_front c (d ∷ t) = omega arith

length-cut_end : (s : Bytes) → length (cut_end s) ≤ length s
unfolding cut_end
length-cut_end [] = omega arith
length-cut_end (c ∷ s) = omega (arith, length-put_front c (cut_end s), length-cut_end s)

length-trim_in_place : (s : Bytes) → length (trim_in_place s) ≤ length s
unfolding trim_in_place
length-trim_in_place s = go (cut_end s) (length-cut_end s)
  where
    go : (t : Bytes) → length t ≤ length s → length (elim t [ [] ↦ s | c ∷ u ↦ c ∷ u ]) ≤ length s
    go [] h = omega arith
    go (c ∷ u) h = h

if_Fits : (b : Bool) (c d : AppConfig) → Fits c → Fits d → Fits (if b then c else d)
if_Fits true c d f g = f
if_Fits false c d f g = g

module _ (atoi : Bytes → ℤ) where
  assign-Fits : (key value : Bytes) (c : AppConfig) → Fits c → Fits (assign atoi key value c)
  assign-Fits key value c f =
      if_Fits (equal_bytes c.current_section (codes "Server")) _ c
        (if_Fits (equal_bytes key (codes "port")) (record c { port = atoi value }) _
          (record { addr_fits = f.addr_fits; section_fits = f.section_fits })
          (if_Fits (equal_bytes key (codes "addr"))
            (record c { addr = take (max_addr_len - 1) value }) c
            (record {
              addr_fits = omega (arith, length-take 63 value);
              section_fits = f.section_fits;
            })
            f))
        f

  read_setting-Fits :
      (o : Option (Bytes × Bytes)) (c : AppConfig) → Fits c → Fits (read_setting atoi o c)
  unfolding read_setting
  read_setting-Fits none c f = f
  read_setting-Fits (some (key, value)) c f = assign-Fits (trim key) (trim value) c f

  read_section-Fits :
      (line : Bytes) (c : AppConfig)
      → length line ≤ 65
      → Fits c
      → (c' : AppConfig) × (read_section atoi line c ≡ some c') × Fits c'
  unfolding read_section
  read_section-Fits line c short f =
      let fit : leb 64 (length line - 2) ≡ false = ground arith in
      let name = take (length line - 2) (drop 1 line) in
      (
        record c { current_section = trim_in_place name },
        simp fit,
        record {
          addr_fits = f.addr_fits;
          section_fits =
              omega (arith, length-trim_in_place name, length-take (length line - 2) (drop 1 line));
        },
      )

  read_trimmed-Fits :
      (line : Bytes) (c : AppConfig)
      → length line ≤ 65
      → Fits c
      → (c' : AppConfig) × (read_trimmed atoi line c ≡ some c') × Fits c'
  unfolding read_trimmed
  read_trimmed-Fits [] c short f = (c, refl, f)
  read_trimmed-Fits (d ∷ s) c short f = elim (Bool-cases (d == 35 || d == 59)) [
    | inl e ↦ (c, simp e, f)
    | inr e ↦ elim (Bool-cases (d == 91 && last_or d s == 93)) [
      | inl g ↦ let (c', eq, f') = read_section-Fits (d ∷ s) c short f in (c', simp (e, g) eq, f')
      | inr g ↦ (_, simp (e, g) refl, read_setting-Fits (split_delimiter (d ∷ s)) c f)
    ]
  ]

  -- A file whose lines have at most 65 bytes without the white space around them is read to its end,
  -- and the address and the section stay within their buffers.
  pub load_app_config-Fits :
      (lines : List Bytes) (c : AppConfig)
      → All (λ line. length (trim line) ≤ 65) lines
      → Fits c
      → (c' : AppConfig) × (load_app_config atoi lines c ≡ some c') × Fits c'
  unfolding load_app_config
  load_app_config-Fits [] c short f = (c, refl, f)
  load_app_config-Fits (line ∷ lines) c short f =
      let (c₁, e₁, f₁) = read_trimmed-Fits (trim line) c short.0 f in
      let (c₂, e₂, f₂) = load_app_config-Fits lines c₁ short.1 f₁ in (c₂, rw e₁ e₂, f₂)
