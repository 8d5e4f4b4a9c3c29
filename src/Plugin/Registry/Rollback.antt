-- ===== src/Plugin/Registry/Rollback.antt =====
-- What plugin_registry_load and plugin_registry_close do to the handles.
use tcpremote_device_control.Base.{
  ◌≡◌, inl, inr, refl, ap, ◌∙◌, true, false, List, [], ◌∷◌, some, arith, Bool-cases, ◌++◌,
}
use tcpremote_device_control.DeviceResult.{DeviceResult, ok, is_ok}
use tcpremote_device_control.Plugin.Held.{
  led, buzzer, light, segment, Resource, Event, library, held,
}
use tcpremote_device_control.Plugin.Loader.{System}
use tcpremote_device_control.Plugin.Registry.{
  PluginSet, no_plugins, load_led_plugin, load_buzzer_plugin, load_light_plugin,
  load_segment_plugin, plugin_registry_load, or_close, finish, load_from_buzzer, load_from_light,
  load_from_segment,
}
use tcpremote_device_control.Plugin.Registry.Handles.{
  opened, Closed, is_open, Open, plugin_registry_close-Closed, load_led_plugin-Loads,
  load_buzzer_plugin-Loads, load_light_plugin-Loads, load_segment_plugin-Loads,
}

abbrev pub four_libraries : List Resource
four_libraries = library segment ∷ library light ∷ library buzzer ∷ library led ∷ []

-- What plugin_registry_load leaves: all four libraries open, or none.
pub data AllOrNothing (rs : List Resource) (r : DeviceResult) (s : PluginSet) (log : List Event)
    : Type 0 where
  all : r ≡ ok → Open s → held log ≡ some (four_libraries ++ rs) → AllOrNothing rs r s log
  nothing : is_ok r ≡ false → Closed s → held log ≡ some rs → AllOrNothing rs r s log

module _ (rs : List Resource) where
  -- The early return behind a plugin that does not load.
  or_close-nothing :
      (rest : PluginSet → List Event → DeviceResult × PluginSet × List Event)
      (o : DeviceResult × PluginSet × List Event)
      → held o.2 ≡ some (opened o.1 rs)
      → (is_ok o.0 ≡ true → AllOrNothing rs (rest o.1 o.2).0 (rest o.1 o.2).1 (rest o.1 o.2).2)
      → let c = or_close rest o in AllOrNothing rs c.0 c.1 c.2
  or_close-nothing rest (r, s, log) h next = elim (Bool-cases (is_ok r)) [
    | inl e ↦ simp e (next e)
    | inr e ↦
        let (closed, back) = plugin_registry_close-Closed s log rs h in
        simp e (nothing e closed back)
  ]

  pub opened_all :
      (s : PluginSet) (log : List Event)
      → Open s
      → held log ≡ some (opened s rs)
      → held log ≡ some (four_libraries ++ rs)
  opened_all s log o h = ground arith

-- Loading ends with all four libraries open and OK, or with an error, no handle, and the libraries
-- opened on the way closed again, the last opened first.
pub plugin_registry_load-AllOrNothing :
    (sys : System) (log : List Event) (rs : List Resource)
    → held log ≡ some rs
    → let o = plugin_registry_load sys log in AllOrNothing rs o.0 o.1 o.2
unfolding plugin_registry_load
plugin_registry_load-AllOrNothing sys log rs h =
    let o₁ = load_led_plugin sys no_plugins log in
    let l₁ = load_led_plugin-Loads sys no_plugins log rs h refl refl refl refl in
    let o₂ = load_buzzer_plugin sys o₁.1 o₁.2 in
    let l₂ =
      load_buzzer_plugin-Loads sys o₁.1 o₁.2 rs l₁.holds (l₁.kept buzzer refl) (l₁.kept light refl)
        (l₁.kept segment refl) in
    let o₃ = load_light_plugin sys o₂.1 o₂.2 in
    let l₃ =
      load_light_plugin-Loads sys o₂.1 o₂.2 rs l₂.holds (l₂.kept light refl ∙ l₁.kept light refl)
        (l₂.kept segment refl ∙ l₁.kept segment refl) in
    let o₄ = load_segment_plugin sys o₃.1 o₃.2 in
    let l₄ =
      load_segment_plugin-Loads sys o₃.1 o₃.2 rs l₃.holds
        (l₃.kept segment refl ∙ l₂.kept segment refl ∙ l₁.kept segment refl) in
    or_close-nothing rs (load_from_buzzer sys) o₁ l₁.holds (λ e₁.
      or_close-nothing rs (load_from_light sys) o₂ l₂.holds (λ e₂.
        or_close-nothing rs (load_from_segment sys) o₃ l₃.holds (λ e₃.
          or_close-nothing rs finish o₄ l₄.holds (λ e₄.
            let everything : Open o₄.1 = record {
              led_open =
                  ap is_open (l₄.kept led refl ∙ l₃.kept led refl ∙ l₂.kept led refl) ∙ l₁.got e₁;
              buzzer_open = ap is_open (l₄.kept buzzer refl ∙ l₃.kept buzzer refl) ∙ l₂.got e₂;
              light_open = ap is_open (l₄.kept light refl) ∙ l₃.got e₃;
              segment_open = l₄.got e₄;
            } in
            all refl everything (opened_all rs o₄.1 o₄.2 everything l₄.holds)))))
