-- ===== src/Command/Grammar.antt =====
-- The request lines of the protocol, described by their first four words and without the table.
use tcpremote_device_control.Base.{
  ℕ, ◌≡◌, ◌⊎◌, true, [], Option, none, some, Bytes, codes, equal_nocase, ℤ, pos, ◌≤ℤ◌, take,
}
use tcpremote_device_control.Command.{
  Command, empty, invalid, invalid_value, help, status, plugin_list, quit, led_on, led_on_bright,
  led_off, buzzer_music, buzzer_on, buzzer_off, buzzer_beep, light_read, seg_display, seg_clear,
}
use tcpremote_device_control.Command.Number.Spec.{IsNumeral}

-- A word in any mixture of cases.
abbrev pub IsWord : Option Bytes → Bytes → Type 0
IsWord none name = ⊥
IsWord (some w) name = equal_nocase w name ≡ true

abbrev pub IsNumeralWord : Option Bytes → ℤ → Type 0
IsNumeralWord none v = ⊥
IsNumeralWord (some w) v = IsNumeral w v

-- What a command carries, and the words d, a, x, e that spell it.
module _ (v : ℤ) (str : Bytes) (d a x e : Option Bytes) where
  abbrev pub Alone : Bytes → Type 0
  Alone n = IsWord d n × (a ≡ none) × (x ≡ none) × (v ≡ pos 0) × (str ≡ [])

  abbrev pub Pair : Bytes → Bytes → Type 0
  Pair n m = IsWord d n × IsWord a m × (x ≡ none) × (v ≡ pos 0) × (str ≡ [])

  abbrev pub Number : Bytes → Bytes → ℕ → ℕ → Type 0
  Number n m lo hi =
      IsWord d n
      × IsWord a m
      × IsNumeralWord x v
      × (pos lo ≤ℤ v)
      × (v ≤ℤ pos hi)
      × (e ≡ none)
      × (str ≡ [])

  -- A path of any length is cut to 127 bytes, and words behind it are ignored.
  abbrev pub Path127 : Bytes → Bytes → Type 0
  Path127 n m =
      IsWord d n × IsWord a m × ((w : Bytes) × (x ≡ some w) × (str ≡ take 127 w)) × (v ≡ pos 0)

  abbrev pub IsRequest : Command → Type 0
  IsRequest empty = ⊥
  IsRequest invalid = ⊥
  IsRequest invalid_value = ⊥
  IsRequest help = Alone (codes "HELP")
  IsRequest status = Alone (codes "STATUS")
  IsRequest plugin_list =
      Pair (codes "PLUGIN") (codes "LIST") ⊎ Pair (codes "DEVICE") (codes "LIST")
  IsRequest quit = Alone (codes "QUIT")
  IsRequest led_on = Pair (codes "LED") (codes "ON")
  IsRequest led_on_bright = Number (codes "LED") (codes "BRIGHT") 0 255
  IsRequest led_off = Pair (codes "LED") (codes "OFF")
  IsRequest buzzer_music = Path127 (codes "BUZZER") (codes "MUSIC")
  IsRequest buzzer_on = Pair (codes "BUZZER") (codes "ON")
  IsRequest buzzer_off = Pair (codes "BUZZER") (codes "OFF")
  IsRequest buzzer_beep = Number (codes "BUZZER") (codes "BEEP") 1 10000
  IsRequest light_read = Pair (codes "LIGHT") (codes "READ")
  IsRequest seg_display = Number (codes "SEG") (codes "DISPLAY") 0 9
  IsRequest seg_clear = Pair (codes "SEG") (codes "CLEAR")

-- Every command but the three that report an error.
abbrev pub IsCommand : Command → Type 0
IsCommand empty = ⊥
IsCommand invalid = ⊥
IsCommand invalid_value = ⊥
IsCommand _ = Unit {0}
