-- ===== src/Buzzer/Build/Music.antt =====
-- buzzer_music ends in silence.
use tcpremote_device_control.Base.{
  ℕ, ◌+◌, ◌^◌, ◌<◌, ◌≤◌, ◌≡◌, sym, subst, inl, inr, Bool, true, false, List, ◌∷◌, Option, none,
  some, length, drop, ℤ, pos, ltb_ℤ, Bytes, Gives, Gives-map, Bool-cases,
}
use tcpremote_device_control.DeviceResult.{DeviceResult, ok}
use tcpremote_device_control.Wav.{WavInfo, wav_read_header}
use tcpremote_device_control.Wav.Reading.{Stream, seek}
use tcpremote_device_control.Wav.Total.{Ends, fails, succeeds, wav_read_header-Ends}
use tcpremote_device_control.Wav.Samples.Frames.{AreBytes, AreBytes-drop}
use tcpremote_device_control.Buzzer.{Buzzer, clear_stop_request, stop_output}
use tcpremote_device_control.Buzzer.Cached.{
  IsCached, clear_stop_request-Waits, stop_output-Waits, stop_output_silent,
}
use tcpremote_device_control.Buzzer.Tracker.{PitchDetectionResult}
use tcpremote_device_control.Buzzer.Melody.{MelodyBuffer}
use tcpremote_device_control.Buzzer.Melody.Notes.{playing_time}
use tcpremote_device_control.Buzzer.Playback.{play_melody}
use tcpremote_device_control.Buzzer.Playback.Silence.{EndsSilent, play_melody-EndsSilent}
use tcpremote_device_control.Buzzer.Build.{
  end_music, play_from, play_header, play_file, buzzer_music,
}
use tcpremote_device_control.Buzzer.Build.Melody.{
  IsBuilt, IsPlayable, build_melody_from_wav-IsBuilt,
}

-- The pin is told silence, and the cache says so.
pub record IsSilent (b : Buzzer) : Type 0 where
  pub is_cached : IsCached b
  pub silent : b.current_tone_hz ≡ pos 0
  pub off : b.buzzer_state ≡ false

stop_output-IsSilent : (b : Buzzer) → IsCached b → IsSilent (stop_output false b)
stop_output-IsSilent b h =
    let w = stop_output-Waits false b h in
    let quiet = stop_output_silent false b in
    record {
      is_cached = w.is_cached;
      silent = quiet;
      off =
          subst (λ t. (stop_output false b).buzzer_state ≡ ltb_ℤ (pos 0) t) quiet
            w.is_cached.sounding;
    }

-- The fields of a header are below 2 ^ 32, and the rate is 1000 Hz at least.
pub record IsRated (info : WavInfo) : Type 0 where
  pub rate : 1000 ≤ info.sample_rate
  pub rate_fits : info.sample_rate < 2 ^ 32
  pub size_fits : info.data_size < 2 ^ 32

-- An opened file of bytes.
pub record IsMusic (opened : Stream) : Type 0 where
  pub bytes : AreBytes opened.rest
  pub rated :
      (info : WavInfo) (f : Stream)
      → wav_read_header (length opened.rest + 1) opened ≡ some (ok, info, f)
      → IsRated info

abbrev pub IsMusicOrNone : Option Stream → Type 0
IsMusicOrNone none = Unit {0}
IsMusicOrNone (some opened) = IsMusic opened

abbrev AreSilent : DeviceResult × Buzzer → Type 0
AreSilent r = IsSilent r.1

module _ (detect : List ℤ → ℕ → PitchDetectionResult) (realloc : ℕ → Bool)
    (sized : (n : ℕ) → realloc n ≡ true → n < 2 ^ 63) where
  end_music_silent :
      (total : ℕ) (b : Buzzer) (o : Option (DeviceResult × MelodyBuffer × Buzzer))
      → Gives (IsBuilt total b) o
      → Gives AreSilent (end_music detect realloc o)
  end_music_silent total b none h = h
  end_music_silent total b (some (ok, melody, b')) h =
      Gives-map (EndsSilent (playing_time melody.notes) b') AreSilent (play_melody melody b')
        (λ r k. record { is_cached = k.waits.is_cached; silent = k.silent; off = k.off })
        (play_melody-EndsSilent melody b' h.is_melody.are_notes h.waits.is_cached)
  end_music_silent total b (some (result, melody, b')) h = stop_output-IsSilent b' h.waits.is_cached

  seek-AreBytes :
      (n : ℕ) (opened : Stream) (info : WavInfo) (b : Buzzer)
      → AreBytes opened.rest
      → IsPlayable info
      → info.data_size < 2 ^ 32
      → IsSilent b
      → Gives AreSilent (play_from detect realloc (seek n opened) info b)
  seek-AreBytes n opened info b h p small s = elim (Bool-cases opened.seekable) [
    | inl e ↦ simp e (
        end_music_silent info.data_size b _ (
          build_melody_from_wav-IsBuilt detect realloc sized info p
            (record { rest = drop n opened.rest; position = opened.position + n; seekable = true })
            b small (AreBytes-drop n opened.rest h) s.is_cached))
    | inr e ↦ simp e s
  ]

  play_header_silent :
      (opened : Stream) (o : Option (DeviceResult × WavInfo × Stream)) (b : Buzzer)
      → Ends o
      → AreBytes opened.rest
      → ((info : WavInfo) (f : Stream) → o ≡ some (ok, info, f) → IsRated info)
      → IsSilent b
      → Gives AreSilent (play_header detect realloc opened o b)
  play_header_silent opened o b (fails info f e) h rated s =
      subst (λ o'. Gives AreSilent (play_header detect realloc opened o' b)) (sym e) s
  play_header_silent opened o b (succeeds info f e supported) h rated s =
      let r = rated info f e in
      subst (λ o'. Gives AreSilent (play_header detect realloc opened o' b)) (sym e)
        (seek-AreBytes info.data_offset opened info b h
          (record { supported = supported; rate = r.rate; rate_fits = r.rate_fits }) r.size_fits s)

  play_file_silent :
      (o : Option Stream) (b : Buzzer)
      → IsMusicOrNone o
      → IsSilent b
      → Gives AreSilent (play_file detect realloc o b)
  play_file_silent none b h s = s
  play_file_silent (some opened) b h s =
      play_header_silent opened (wav_read_header (length opened.rest + 1) opened) b
        (wav_read_header-Ends opened) h.bytes h.rated s

  -- For a path that is no file, a file that is no WAV file, and any WAV file of 1000 Hz or more, the
  -- command returns, whatever the detector hears, whenever other threads ask to stop, and whether or not
  -- memory can be had (realloc gives no 2 ^ 63 bytes): at its end the buzzer is silent and off.
  pub buzzer_music_silent :
      (fopen : Bytes → Option Stream) (c : ℕ) (file_path : Bytes) (b : Buzzer)
      → IsMusicOrNone (fopen (c ∷ file_path))
      → IsCached b
      → Gives AreSilent (buzzer_music detect realloc fopen (some (c ∷ file_path)) b)
  unfolding buzzer_music
  buzzer_music_silent fopen c file_path b h k =
      play_file_silent (fopen (c ∷ file_path)) (stop_output false (clear_stop_request b)) h
        (stop_output-IsSilent (clear_stop_request b) (clear_stop_request-Waits b k).is_cached)
