-- ===== src/Plugin/Registry/Handles.antt =====
-- What loading and closing one plugin do to its handle.
use tcpremote_device_control.Base.{
  ℕ, ◌≡◌, inl, inr, refl, ◌∙◌, Bool, true, false, List, [], ◌∷◌, Option, none, some, arith, Bytes,
  codes, Bool-cases, Option-cases, ◌&◌, All, ◌==◌,
}
use tcpremote_device_control.DeviceResult.{DeviceResult, is_ok}
use tcpremote_device_control.Plugin.Held.{
  Plugin, led, buzzer, light, segment, Resource, Event, library, held, number_of,
}
use tcpremote_device_control.Plugin.Loader.{
  System, plugin_loader_open, plugin_loader_symbol, plugin_loader_close,
}
use tcpremote_device_control.Plugin.Registry.{
  LedPlugin, BuzzerPlugin, LightPlugin, SegmentPlugin, PluginSet, load_symbols, led_symbols,
  buzzer_symbols, light_symbols, segment_symbols, load_led_plugin, load_buzzer_plugin,
  load_light_plugin, load_segment_plugin, plugin_registry_close,
}

abbrev pub with_library : Plugin → Option ℕ → List Resource → List Resource
with_library p none rs = rs
with_library p (some handle) rs = library p ∷ rs

-- The libraries whose handles a set has, in front of other resources.
abbrev pub opened : PluginSet → List Resource → List Resource
opened s rs = with_library segment s.segment.handle (
    with_library light s.light.handle
      (with_library buzzer s.buzzer.handle (with_library led s.led.handle rs)))

pub record Closed (s : PluginSet) : Type 0 where
  pub led_closed : s.led.handle ≡ none
  pub buzzer_closed : s.buzzer.handle ≡ none
  pub light_closed : s.light.handle ≡ none
  pub segment_closed : s.segment.handle ≡ none

abbrev pub is_open : Option ℕ → Bool
is_open none = false
is_open (some handle) = true

pub record Open (s : PluginSet) : Type 0 where
  pub led_open : is_open s.led.handle ≡ true
  pub buzzer_open : is_open s.buzzer.handle ≡ true
  pub light_open : is_open s.light.handle ≡ true
  pub segment_open : is_open s.segment.handle ≡ true

pub close_held :
    (d b l g : Option ℕ) (rs : List Resource) (log : List Event)
    → held log
      ≡ some (
          with_library segment g
            (with_library light l (with_library buzzer b (with_library led d rs))))
    → held
        (plugin_loader_close led d
          (plugin_loader_close buzzer b
            (plugin_loader_close light l (plugin_loader_close segment g log).1).1).1).1
      ≡ some rs
unfolding plugin_loader_close
close_held d b l g rs log h = ground arith

-- Closing gives back what the set has open, and leaves no handle.
pub plugin_registry_close-Closed :
    (s : PluginSet) (log : List Event) (rs : List Resource)
    → held log ≡ some (opened s rs)
    → Closed (plugin_registry_close s log).0 × (held (plugin_registry_close s log).1 ≡ some rs)
unfolding plugin_registry_close plugin_loader_close
plugin_registry_close-Closed s log rs h = ground arith

module _ {P : Type 0} (get : P → Option ℕ) where
  load_symbols-keeps :
      (sys : System) (h : Option ℕ) (symbols : List (Bytes × (Option ℕ → P → P)))
      → All (λ line. (a : Option ℕ) (p : P) → get (line.1 a p) ≡ get p) symbols
      → (p : P) → get (load_symbols sys h symbols p).1 ≡ get p
  unfolding load_symbols
  load_symbols-keeps sys h [] keep p = refl
  load_symbols-keeps sys h ((name, set) ∷ symbols) keep p =
      elim (Bool-cases (is_ok (plugin_loader_symbol sys h name).0)) [
        | inl e ↦ simp e (load_symbols-keeps sys h symbols keep.1 _ ∙ keep.0 _ _)
        | inr e ↦ simp e (keep.0 _ _)
      ]

pub led_symbols-keeps :
    (sys : System) (h : Option ℕ) (p : LedPlugin)
    → (load_symbols sys h led_symbols p).1.handle ≡ p.handle
led_symbols-keeps sys h =
    load_symbols-keeps (λ p. p.handle) sys h led_symbols
      ((λ a p. refl)
        & (λ a p. refl)
        & (λ a p. refl)
        & (λ a p. refl)
        & (λ a p. refl)
        & (λ a p. refl)
        & tt)

pub buzzer_symbols-keeps :
    (sys : System) (h : Option ℕ) (p : BuzzerPlugin)
    → (load_symbols sys h buzzer_symbols p).1.handle ≡ p.handle
buzzer_symbols-keeps sys h =
    load_symbols-keeps (λ p. p.handle) sys h buzzer_symbols
      ((λ a p. refl)
        & (λ a p. refl)
        & (λ a p. refl)
        & (λ a p. refl)
        & (λ a p. refl)
        & (λ a p. refl)
        & (λ a p. refl)
        & tt)

pub light_symbols-keeps :
    (sys : System) (h : Option ℕ) (p : LightPlugin)
    → (load_symbols sys h light_symbols p).1.handle ≡ p.handle
light_symbols-keeps sys h =
    load_symbols-keeps (λ p. p.handle) sys h light_symbols
      ((λ a p. refl) & (λ a p. refl) & (λ a p. refl) & (λ a p. refl) & tt)

pub segment_symbols-keeps :
    (sys : System) (h : Option ℕ) (p : SegmentPlugin)
    → (load_symbols sys h segment_symbols p).1.handle ≡ p.handle
segment_symbols-keeps sys h =
    load_symbols-keeps (λ p. p.handle) sys h segment_symbols
      ((λ a p. refl)
        & (λ a p. refl)
        & (λ a p. refl)
        & (λ a p. refl)
        & (λ a p. refl)
        & (λ a p. refl)
        & tt)

abbrev pub handle_of : Plugin → PluginSet → Option ℕ
handle_of led s = s.led.handle
handle_of buzzer s = s.buzzer.handle
handle_of light s = s.light.handle
handle_of segment s = s.segment.handle

-- What loading one plugin into a set leaves, above the resources held before.
pub record Loads (p : Plugin) (s : PluginSet) (rs : List Resource) (r : DeviceResult)
    (s' : PluginSet) (log : List Event) : Type 0 where
  pub holds : held log ≡ some (opened s' rs)
  pub kept : (q : Plugin) → (number_of q == number_of p) ≡ false → handle_of q s' ≡ handle_of q s
  pub got : is_ok r ≡ true → is_open (handle_of p s') ≡ true

pub led_kept :
    (q : Plugin) (p : LedPlugin) (s : PluginSet)
    → (number_of q == number_of led) ≡ false
    → handle_of q (record s { led = p }) ≡ handle_of q s
led_kept led p s ne = absurd cc
led_kept buzzer p s ne = refl
led_kept light p s ne = refl
led_kept segment p s ne = refl

pub load_led_plugin-Loads :
    (sys : System) (s : PluginSet) (log : List Event) (rs : List Resource)
    → held log ≡ some (opened s rs)
    → s.led.handle ≡ none
    → s.buzzer.handle ≡ none
    → s.light.handle ≡ none
    → s.segment.handle ≡ none
    → let o = load_led_plugin sys s log in Loads led s rs o.0 o.1 o.2
unfolding load_led_plugin
load_led_plugin-Loads sys s log rs h hd hb hl hs =
    elim (Option-cases (plugin_loader_open sys (codes "led"))) [
      | inl e ↦
          simp e (record { holds = ground arith; kept = λ q ne. led_kept q _ s ne; got = λ x. cc })
      | inr (handle, e) ↦
          let same = led_symbols-keeps sys (some handle) (record s.led { handle = some handle }) in
          simp e (record {
            holds = ground arith;
            kept = λ q ne. led_kept q _ s ne;
            got = λ x. rw same refl;
          })
    ]

pub buzzer_kept :
    (q : Plugin) (p : BuzzerPlugin) (s : PluginSet)
    → (number_of q == number_of buzzer) ≡ false
    → handle_of q (record s { buzzer = p }) ≡ handle_of q s
buzzer_kept led p s ne = refl
buzzer_kept buzzer p s ne = absurd cc
buzzer_kept light p s ne = refl
buzzer_kept segment p s ne = refl

pub load_buzzer_plugin-Loads :
    (sys : System) (s : PluginSet) (log : List Event) (rs : List Resource)
    → held log ≡ some (opened s rs)
    → s.buzzer.handle ≡ none
    → s.light.handle ≡ none
    → s.segment.handle ≡ none
    → let o = load_buzzer_plugin sys s log in Loads buzzer s rs o.0 o.1 o.2
unfolding load_buzzer_plugin
load_buzzer_plugin-Loads sys s log rs h hb hl hs =
    elim (Option-cases (plugin_loader_open sys (codes "buzzer"))) [
      | inl e ↦
          simp e
            (record { holds = ground arith; kept = λ q ne. buzzer_kept q _ s ne; got = λ x. cc })
      | inr (handle, e) ↦
          let same =
            buzzer_symbols-keeps sys (some handle) (record s.buzzer { handle = some handle }) in
          simp e (record {
            holds = ground arith;
            kept = λ q ne. buzzer_kept q _ s ne;
            got = λ x. rw same refl;
          })
    ]

pub light_kept :
    (q : Plugin) (p : LightPlugin) (s : PluginSet)
    → (number_of q == number_of light) ≡ false
    → handle_of q (record s { light = p }) ≡ handle_of q s
light_kept led p s ne = refl
light_kept buzzer p s ne = refl
light_kept light p s ne = absurd cc
light_kept segment p s ne = refl

pub load_light_plugin-Loads :
    (sys : System) (s : PluginSet) (log : List Event) (rs : List Resource)
    → held log ≡ some (opened s rs)
    → s.light.handle ≡ none
    → s.segment.handle ≡ none
    → let o = load_light_plugin sys s log in Loads light s rs o.0 o.1 o.2
unfolding load_light_plugin
load_light_plugin-Loads sys s log rs h hl hs =
    elim (Option-cases (plugin_loader_open sys (codes "light"))) [
      | inl e ↦
          simp e
            (record { holds = ground arith; kept = λ q ne. light_kept q _ s ne; got = λ x. cc })
      | inr (handle, e) ↦
          let same =
            light_symbols-keeps sys (some handle) (record s.light { handle = some handle }) in
          simp e (record {
            holds = ground arith;
            kept = λ q ne. light_kept q _ s ne;
            got = λ x. rw same refl;
          })
    ]

pub segment_kept :
    (q : Plugin) (p : SegmentPlugin) (s : PluginSet)
    → (number_of q == number_of segment) ≡ false
    → handle_of q (record s { segment = p }) ≡ handle_of q s
segment_kept led p s ne = refl
segment_kept buzzer p s ne = refl
segment_kept light p s ne = refl
segment_kept segment p s ne = absurd cc

pub load_segment_plugin-Loads :
    (sys : System) (s : PluginSet) (log : List Event) (rs : List Resource)
    → held log ≡ some (opened s rs)
    → s.segment.handle ≡ none
    → let o = load_segment_plugin sys s log in Loads segment s rs o.0 o.1 o.2
unfolding load_segment_plugin
load_segment_plugin-Loads sys s log rs h hs =
    elim (Option-cases (plugin_loader_open sys (codes "segment"))) [
      | inl e ↦
          simp e
            (record { holds = ground arith; kept = λ q ne. segment_kept q _ s ne; got = λ x. cc })
      | inr (handle, e) ↦
          let same =
            segment_symbols-keeps sys (some handle) (record s.segment { handle = some handle }) in
          simp e (record {
            holds = ground arith;
            kept = λ q ne. segment_kept q _ s ne;
            got = λ x. rw same refl;
          })
    ]
