-- ===== src/Plugin/Registry.antt =====
-- server/device/plugin_registry.h and plugin_registry.c: the four plugins with their functions. A
-- pointer to a function is an address, `none` is NULL.
pub mod Handles
pub mod Rollback
use tcpremote_device_control.Base.{
  ℕ, ◌≡◌, Bool, true, false, if◌then◌else◌, List, [], ◌∷◌, Option, none, some, Bytes, codes,
}
use tcpremote_device_control.DeviceResult.{DeviceResult, ok, is_ok, plugin_load_failed}
use tcpremote_device_control.Plugin.Held.{
  Plugin, led, buzzer, light, segment, Event, acquire, release, library,
}
use tcpremote_device_control.Plugin.Loader.{
  System, plugin_loader_open, plugin_loader_symbol, plugin_loader_close,
}

pub record LedPlugin : Type 0 where
  pub handle : Option ℕ
  pub init : Option ℕ
  pub cleanup : Option ℕ
  pub on : Option ℕ
  pub on_bright : Option ℕ
  pub off : Option ℕ
  pub is_on : Option ℕ

pub record BuzzerPlugin : Type 0 where
  pub handle : Option ℕ
  pub init : Option ℕ
  pub cleanup : Option ℕ
  pub music : Option ℕ
  pub on : Option ℕ
  pub off : Option ℕ
  pub beep : Option ℕ
  pub is_on : Option ℕ

pub record LightPlugin : Type 0 where
  pub handle : Option ℕ
  pub init : Option ℕ
  pub cleanup : Option ℕ
  pub read : Option ℕ
  pub get_last_value : Option ℕ

pub record SegmentPlugin : Type 0 where
  pub handle : Option ℕ
  pub init : Option ℕ
  pub cleanup : Option ℕ
  pub display : Option ℕ
  pub clear : Option ℕ
  pub is_enabled : Option ℕ
  pub get_value : Option ℕ

pub record PluginSet : Type 0 where
  pub led : LedPlugin
  pub buzzer : BuzzerPlugin
  pub light : LightPlugin
  pub segment : SegmentPlugin

-- memset (plugins, 0, sizeof (*plugins))
abbrev pub no_plugins : PluginSet
no_plugins = record {
  led = record {
    handle = none;
    init = none;
    cleanup = none;
    on = none;
    on_bright = none;
    off = none;
    is_on = none;
  };
  buzzer = record {
    handle = none;
    init = none;
    cleanup = none;
    music = none;
    on = none;
    off = none;
    beep = none;
    is_on = none;
  };
  light = record { handle = none; init = none; cleanup = none; read = none; get_last_value = none };
  segment = record {
    handle = none;
    init = none;
    cleanup = none;
    display = none;
    clear = none;
    is_enabled = none;
    get_value = none;
  };
}

-- LOAD_SYMBOL, line after line: the name of the symbol, and the field that gets it.
unfoldable pub load_symbols :
    {P : Type 0} → System → Option ℕ → List (Bytes × (Option ℕ → P → P)) → P → DeviceResult × P
load_symbols sys handle [] p = (ok, p)
load_symbols sys handle ((name, set) ∷ symbols) p =
    let (result, symbol) = plugin_loader_symbol sys handle name in
    let rest = load_symbols sys handle symbols (set symbol p) in
    if is_ok result then rest else (result, set symbol p)

abbrev pub led_symbols : List (Bytes × (Option ℕ → LedPlugin → LedPlugin))
led_symbols =
    (codes "led_init", λ a p. record p { init = a })
    ∷ (codes "led_cleanup", λ a p. record p { cleanup = a })
    ∷ (codes "led_on", λ a p. record p { on = a })
    ∷ (codes "led_on_bright", λ a p. record p { on_bright = a })
    ∷ (codes "led_off", λ a p. record p { off = a })
    ∷ (codes "led_is_on", λ a p. record p { is_on = a })
    ∷ []

abbrev pub buzzer_symbols : List (Bytes × (Option ℕ → BuzzerPlugin → BuzzerPlugin))
buzzer_symbols =
    (codes "buzzer_init", λ a p. record p { init = a })
    ∷ (codes "buzzer_cleanup", λ a p. record p { cleanup = a })
    ∷ (codes "buzzer_music", λ a p. record p { music = a })
    ∷ (codes "buzzer_on", λ a p. record p { on = a })
    ∷ (codes "buzzer_off", λ a p. record p { off = a })
    ∷ (codes "buzzer_beep", λ a p. record p { beep = a })
    ∷ (codes "buzzer_is_on", λ a p. record p { is_on = a })
    ∷ []

abbrev pub light_symbols : List (Bytes × (Option ℕ → LightPlugin → LightPlugin))
light_symbols =
    (codes "light_init", λ a p. record p { init = a })
    ∷ (codes "light_cleanup", λ a p. record p { cleanup = a })
    ∷ (codes "light_read", λ a p. record p { read = a })
    ∷ (codes "light_get_last_value", λ a p. record p { get_last_value = a })
    ∷ []

abbrev pub segment_symbols : List (Bytes × (Option ℕ → SegmentPlugin → SegmentPlugin))
segment_symbols =
    (codes "segment_init", λ a p. record p { init = a })
    ∷ (codes "segment_cleanup", λ a p. record p { cleanup = a })
    ∷ (codes "segment_display", λ a p. record p { display = a })
    ∷ (codes "segment_clear", λ a p. record p { clear = a })
    ∷ (codes "segment_is_enabled", λ a p. record p { is_enabled = a })
    ∷ (codes "segment_get_value", λ a p. record p { get_value = a })
    ∷ []

abbrev load_led_handle :
    System → Option ℕ → PluginSet → List Event → DeviceResult × PluginSet × List Event
load_led_handle sys none set log =
    (plugin_load_failed, record set { led = record set.led { handle = none } }, log)
load_led_handle sys (some handle) set log =
    let (result, p) =
      load_symbols sys (some handle) led_symbols (record set.led { handle = some handle }) in
    (result, record set { led = p }, acquire (library led) ∷ log)

unfoldable pub load_led_plugin :
    System → PluginSet → List Event → DeviceResult × PluginSet × List Event
load_led_plugin sys set log = load_led_handle sys (plugin_loader_open sys (codes "led")) set log

abbrev load_buzzer_handle :
    System → Option ℕ → PluginSet → List Event → DeviceResult × PluginSet × List Event
load_buzzer_handle sys none set log =
    (plugin_load_failed, record set { buzzer = record set.buzzer { handle = none } }, log)
load_buzzer_handle sys (some handle) set log =
    let (result, p) =
      load_symbols sys (some handle) buzzer_symbols (record set.buzzer { handle = some handle }) in
    (result, record set { buzzer = p }, acquire (library buzzer) ∷ log)

unfoldable pub load_buzzer_plugin :
    System → PluginSet → List Event → DeviceResult × PluginSet × List Event
load_buzzer_plugin sys set log =
    load_buzzer_handle sys (plugin_loader_open sys (codes "buzzer")) set log

abbrev load_light_handle :
    System → Option ℕ → PluginSet → List Event → DeviceResult × PluginSet × List Event
load_light_handle sys none set log =
    (plugin_load_failed, record set { light = record set.light { handle = none } }, log)
load_light_handle sys (some handle) set log =
    let (result, p) =
      load_symbols sys (some handle) light_symbols (record set.light { handle = some handle }) in
    (result, record set { light = p }, acquire (library light) ∷ log)

unfoldable pub load_light_plugin :
    System → PluginSet → List Event → DeviceResult × PluginSet × List Event
load_light_plugin sys set log =
    load_light_handle sys (plugin_loader_open sys (codes "light")) set log

abbrev load_segment_handle :
    System → Option ℕ → PluginSet → List Event → DeviceResult × PluginSet × List Event
load_segment_handle sys none set log =
    (plugin_load_failed, record set { segment = record set.segment { handle = none } }, log)
load_segment_handle sys (some handle) set log =
    let (result, p) =
      load_symbols sys (some handle) segment_symbols
        (record set.segment { handle = some handle }) in
    (result, record set { segment = p }, acquire (library segment) ∷ log)

unfoldable pub load_segment_plugin :
    System → PluginSet → List Event → DeviceResult × PluginSet × List Event
load_segment_plugin sys set log =
    load_segment_handle sys (plugin_loader_open sys (codes "segment")) set log

unfoldable pub plugin_registry_close : PluginSet → List Event → PluginSet × List Event
unfolding plugin_loader_close
plugin_registry_close set log =
    let (s, log₁) = plugin_loader_close segment set.segment.handle log in
    let (l, log₂) = plugin_loader_close light set.light.handle log₁ in
    let (b, log₃) = plugin_loader_close buzzer set.buzzer.handle log₂ in
    let (d, log₄) = plugin_loader_close led set.led.handle log₃ in
    (
      record {
        led = record set.led { handle = d };
        buzzer = record set.buzzer { handle = b };
        light = record set.light { handle = l };
        segment = record set.segment { handle = s };
      },
      log₄,
    )

-- `if (result != DEVICE_RESULT_OK) { plugin_registry_close(plugins); return result; }`
abbrev pub or_close :
    (PluginSet → List Event → DeviceResult × PluginSet × List Event)
    → DeviceResult × PluginSet × List Event
    → DeviceResult × PluginSet × List Event
or_close rest (result, set, log) =
    if is_ok result
    then rest set log
    else (let (set', log') = plugin_registry_close set log in (result, set', log'))

abbrev pub finish : PluginSet → List Event → DeviceResult × PluginSet × List Event
finish set log = (ok, set, log)

-- plugin_registry_load from each of its later plugins on.
abbrev pub load_from_segment :
    System → PluginSet → List Event → DeviceResult × PluginSet × List Event
load_from_segment sys set log = or_close finish (load_segment_plugin sys set log)

abbrev pub load_from_light : System → PluginSet → List Event → DeviceResult × PluginSet × List Event
load_from_light sys set log = or_close (load_from_segment sys) (load_light_plugin sys set log)

abbrev pub load_from_buzzer :
    System → PluginSet → List Event → DeviceResult × PluginSet × List Event
load_from_buzzer sys set log = or_close (load_from_light sys) (load_buzzer_plugin sys set log)

unfoldable pub plugin_registry_load : System → List Event → DeviceResult × PluginSet × List Event
plugin_registry_load sys log = or_close (load_from_buzzer sys) (load_led_plugin sys no_plugins log)
