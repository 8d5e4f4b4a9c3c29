-- ===== src/Buzzer/Playback/Silence.antt =====
-- Playback ends, in time and in silence.
use tcpremote_device_control.Base.{
  ℕ, ◌+◌, ◌*◌, ◌^◌, ◌<◌, ◌≤◌, ◌≡◌, refl, sym, subst, ◌∙◌, Bool, true, false, List, [], ◌∷◌, Option,
  none, some, ℤ, pos, ltb_ℤ, arith, Gives, Gives-map, true≢false, if-holds, eqb_ℤ, Bool-cases, inl,
  inr,
}
use tcpremote_device_control.DeviceResult.{DeviceResult, ok}
use tcpremote_device_control.Buzzer.{
  Buzzer, lock, stop_output, write_output_locked, write_unless_stopped, write_output_if_running,
  delay_until_done_or_stopped,
}
use tcpremote_device_control.Buzzer.Cached.{
  IsCached, Waits, Waits-trans, lock-Waits, lock_requested, write_output_locked-Waits,
  stop_output-Waits, stop_output_silent,
}
use tcpremote_device_control.Buzzer.Prompt.{
  ComesAfter, IsPrompt, IsPrompt-trans, IsPrompt-spent, lock-IsPrompt, same-IsPrompt,
  write_output_locked-IsPrompt,
}
use tcpremote_device_control.Buzzer.Quiet.{EndsIn, delay_until_done_or_stopped-EndsIn}
use tcpremote_device_control.Buzzer.Melody.{BuzzerNote, MelodyBuffer}
use tcpremote_device_control.Buzzer.Melody.Notes.{playing_time, AreNotes}
use tcpremote_device_control.Buzzer.Playback.{
  if_playing, if_delayed, play_notes, in_order, end_playing, play_melody,
}

-- How a run over notes of `ms` milliseconds ends.
record Plays (ms : ℕ) (b b' : Buzzer) : Type 0 where
  spent : ℕ
  waits : Waits spent b b'
  at_most : spent ≤ ms
  full : b'.stop_requested ≡ false → spent ≡ ms
  ignores_none : b.stop_requested ≡ true → spent ≡ 0
  prompt : IsPrompt spent b b'

write_output_locked_requested :
    (tone_hz : ℤ) (state : Bool) (b : Buzzer)
    → (write_output_locked tone_hz state b).stop_requested ≡ b.stop_requested
unfolding write_output_locked
write_output_locked_requested tone_hz state b =
    elim (Bool-cases (eqb_ℤ b.current_tone_hz tone_hz)) [
      | inl e ↦ simp e refl
      | inr e ↦ simp e refl
    ]

-- What write_output_if_running answers: it plays on only where nobody asked to stop.
record Writes (b : Buzzer) (r : Bool × Buzzer) : Type 0 where
  writes : Waits 0 b r.1
  same : r.1.stop_requested ≡ b.stop_requested
  playing : r.0 ≡ true → r.1.stop_requested ≡ false
  stopped : r.0 ≡ false → r.1.stop_requested ≡ true
  unused : IsPrompt 0 b r.1

write_unless_stopped-Writes :
    (tone_hz : ℤ) (b : Buzzer) → IsCached b → Writes b (write_unless_stopped tone_hz b)
write_unless_stopped-Writes tone_hz b h =
    if-holds (Writes b) b.stop_requested _ _
      (λ e. record {
        writes = write_output_locked-Waits (pos 0) b h;
        same = write_output_locked_requested (pos 0) false b;
        playing = λ f. absurd (true≢false (sym f));
        stopped = λ f. write_output_locked_requested (pos 0) false b ∙ e;
        unused = write_output_locked-IsPrompt (pos 0) false b;
      })
      (λ e. record {
        writes = write_output_locked-Waits tone_hz b h;
        same = write_output_locked_requested tone_hz _ b;
        playing = λ f. write_output_locked_requested tone_hz _ b ∙ e;
        stopped = λ f. absurd (true≢false f);
        unused = write_output_locked-IsPrompt tone_hz _ b;
      })

write_output_if_running-Writes :
    (tone_hz : ℤ) (b : Buzzer) → IsCached b → Writes (lock b) (write_output_if_running tone_hz b)
unfolding write_output_if_running
write_output_if_running-Writes tone_hz b h =
    write_unless_stopped-Writes tone_hz (lock b) (lock-Waits b h).is_cached

if_delayed-Plays :
    (ms rest : ℕ) (b : Buzzer) (o : Option (Bool × Buzzer)) (next : Buzzer → Option Buzzer)
    → b.stop_requested ≡ false
    → Gives (EndsIn ms b) o
    → ((b' : Buzzer) → IsCached b' → Gives (Plays rest b') (next b'))
    → Gives (Plays (ms + rest) b) (if_delayed o next)
if_delayed-Plays ms rest b none next running h k = absurd h
if_delayed-Plays ms rest b (some (false, b')) next running h k = record {
  spent = h.spent;
  waits = h.waits;
  at_most = omega (arith, h.at_most);
  full = λ e. absurd (true≢false (sym (h.early refl) ∙ e));
  ignores_none = λ e. absurd (true≢false (sym e ∙ running));
  prompt = h.prompt;
}
if_delayed-Plays ms rest b (some (true, b')) next running h k =
    Gives-map (Plays rest b') (Plays (ms + rest) b) (next b')
      (λ c p. record {
        spent = p.spent + h.spent;
        waits = Waits-trans h.spent p.spent b b' c h.waits p.waits;
        at_most = omega (arith, h.at_most, p.at_most);
        full = λ e. omega (arith, h.full refl, p.full e);
        ignores_none = λ e. absurd (true≢false (sym e ∙ running));
        prompt = IsPrompt-trans h.spent p.spent b b' c h.prompt p.prompt;
      })
      (k b' h.waits.is_cached)

if_playing-Plays :
    (ms : ℕ) (b : Buzzer) (r : Bool × Buzzer) (next : Buzzer → Option Buzzer)
    → Waits 0 b (lock b)
    → Writes (lock b) r
    → ((b' : Buzzer) → IsCached b' → b'.stop_requested ≡ false → Gives (Plays ms b') (next b'))
    → Gives (Plays ms b) (if_playing r next)
if_playing-Plays ms b (false, b') next l h k = record {
  spent = 0;
  waits = Waits-trans 0 0 b (lock b) b' l h.writes;
  at_most = omega arith;
  full = λ e. absurd (true≢false (sym (h.stopped refl) ∙ e));
  ignores_none = λ e. refl;
  prompt = IsPrompt-trans 0 0 b (lock b) b' (lock-IsPrompt b) h.unused;
}
if_playing-Plays ms b (true, b') next l h k =
    Gives-map (Plays ms b') (Plays ms b) (next b')
      (λ c p. record {
        spent = p.spent;
        waits = record {
          is_cached = p.waits.is_cached;
          total = omega (arith, l.total, h.writes.total, p.waits.total);
        };
        at_most = p.at_most;
        full = p.full;
        ignores_none = λ e. p.ignores_none (h.same ∙ lock_requested b e);
        prompt =
            subst (λ n. IsPrompt n b c) (omega arith)
              (IsPrompt-trans 0 p.spent b b' c
                (IsPrompt-trans 0 0 b (lock b) b' (lock-IsPrompt b) h.unused) p.prompt);
      })
      (k b' h.writes.is_cached (h.playing refl))

abbrev AreBounded : List BuzzerNote → Type 0
AreBounded [] = Unit {0}
AreBounded (note ∷ notes) = (note.duration_ms < 2 ^ 32) × AreBounded notes

play_notes-Plays :
    (notes : List BuzzerNote) (b : Buzzer)
    → AreBounded notes
    → IsCached b
    → Gives (Plays (playing_time notes) b) (play_notes notes b)
unfolding play_notes
play_notes-Plays [] b bounded h = record {
  spent = 0;
  waits = record { is_cached = h; total = omega arith };
  at_most = omega arith;
  full = λ e. refl;
  ignores_none = λ e. refl;
  prompt = same-IsPrompt b b refl refl;
}
play_notes-Plays (note ∷ notes) b bounded h =
    if_playing-Plays (playing_time (note ∷ notes)) b (write_output_if_running note.frequency_hz b) _
      (lock-Waits b h) (write_output_if_running-Writes note.frequency_hz b h)
      (λ b' k running.
        if_delayed-Plays note.duration_ms (playing_time notes) b'
          (delay_until_done_or_stopped note.duration_ms b') _ running
          (delay_until_done_or_stopped-EndsIn note.duration_ms b' k bounded.0)
          (λ b'' k'. play_notes-Plays notes b'' bounded.1 k'))

in_order-AreBounded :
    (notes later : List BuzzerNote)
    → AreNotes notes
    → AreBounded later
    → AreBounded (in_order notes later)
      × (playing_time (in_order notes later) ≡ playing_time notes + playing_time later)
in_order-AreBounded [] later h k = (k, omega arith)
in_order-AreBounded (note ∷ notes) later h k =
    let r = in_order-AreBounded notes (note ∷ later) h.4 (h.1, k) in (r.0, omega (arith, r.1))

-- A command that ends with OK and the buzzer silent, after at most `ms` milliseconds of delays: all of
-- them if nobody asks to stop, none if somebody had asked before, and at most 10 ms for each use of the
-- lock before the first request.
pub record EndsSilent (ms : ℕ) (b : Buzzer) (r : DeviceResult × Buzzer) : Type 0 where
  pub is_ok : r.0 ≡ ok
  pub spent : ℕ
  pub waits : Waits spent b r.1
  pub at_most : spent ≤ ms
  pub silent : r.1.current_tone_hz ≡ pos 0
  pub off : r.1.buzzer_state ≡ false
  pub full : r.1.stop_requested ≡ false → spent ≡ ms
  pub ignores_none : b.stop_requested ≡ true → spent ≡ 0
  pub noticed : (k : ℕ) → ComesAfter k b.stops → spent ≤ 10 * k

stop_output_requested :
    (b : Buzzer) → (stop_output false b).stop_requested ≡ (lock b).stop_requested
unfolding stop_output
stop_output_requested b = write_output_locked_requested (pos 0) false (lock b)

not_requested :
    (b : Buzzer) → (stop_output false b).stop_requested ≡ false → b.stop_requested ≡ false
not_requested b e = elim (Bool-cases b.stop_requested) [
  | inl f ↦ absurd (true≢false (sym (lock_requested b f) ∙ sym (stop_output_requested b) ∙ e))
  | inr f ↦ f
]

end-EndsSilent : (ms : ℕ) (b c : Buzzer) → Plays ms b c → EndsSilent ms b (ok, stop_output false c)
end-EndsSilent ms b c p =
    let w = stop_output-Waits false c p.waits.is_cached in
    let quiet = stop_output_silent false c in
    record {
      is_ok = refl;
      spent = p.spent;
      waits = record { is_cached = w.is_cached; total = omega (arith, w.total, p.waits.total) };
      at_most = p.at_most;
      silent = quiet;
      off =
          subst (λ t. (stop_output false c).buzzer_state ≡ ltb_ℤ (pos 0) t) quiet
            w.is_cached.sounding;
      full = λ e. p.full (not_requested c e);
      ignores_none = p.ignores_none;
      noticed = IsPrompt-spent p.spent b c p.prompt;
    }

end_playing-EndsSilent :
    (ms : ℕ) (b : Buzzer) (o : Option Buzzer)
    → Gives (Plays ms b) o
    → Gives (EndsSilent ms b) (end_playing o)
end_playing-EndsSilent ms b none h = h
end_playing-EndsSilent ms b (some c) h = end-EndsSilent ms b c h

-- Whenever other threads ask to stop, playing a melody ends with OK, the buzzer silent and off, and
-- after delays of at most the melody's time: exactly that time if no request is there at the end, and
-- none at all if one was there at the start. If the first request comes behind k uses of the lock, the
-- delays are at most 10 k ms in all, so the lock is looked at again after each delay of at most 10 ms.
pub play_melody-EndsSilent :
    (melody : MelodyBuffer) (b : Buzzer)
    → AreNotes melody.notes
    → IsCached b
    → Gives (EndsSilent (playing_time melody.notes) b) (play_melody melody b)
unfolding play_melody
play_melody-EndsSilent melody b notes h =
    let k = in_order-AreBounded melody.notes [] notes tt in
    let same : playing_time (in_order melody.notes []) ≡ playing_time melody.notes =
      omega (arith, k.1) in
    end_playing-EndsSilent (playing_time melody.notes) b (play_notes (in_order melody.notes []) b) (
      subst (λ n. Gives (Plays n b) (play_notes (in_order melody.notes []) b)) same
        (play_notes-Plays (in_order melody.notes []) b k.0 h))
