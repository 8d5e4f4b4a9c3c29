-- ===== src/Tests/Devices.antt =====
-- The plugins at concrete states.
use tcpremote_device_control.Base.{◌≡◌, refl, true, false, [], ◌∷◌, pos, arith}
use tcpremote_device_control.Device.Gpio.{last_level}
use tcpremote_device_control.Device.Led.{led_init}
use tcpremote_device_control.Device.Led.Output.{
  LedInv, cleanup, on, off, bright, unloaded, run, run-init-LedInv,
}
use tcpremote_device_control.Device.Segment.{
  Segment, segment_display, segment_clear, segment_cleanup,
}
use tcpremote_device_control.Device.Segment.Display.{
  a, dp, g, shown, segment_display-shown, segment_clear_lit,
}
use tcpremote_device_control.DeviceResult.{ok}

abbrev dark_display : Segment
dark_display = record { segment_enabled = false; segment_value = pos 0; calls = [] }

run-init-LedInv_example :
    LedInv (run (bright (pos 0) (pos 80) ∷ on ∷ off ∷ cleanup ∷ []) (led_init (pos 0) unloaded).0)
run-init-LedInv_example =
    run-init-LedInv (pos 0) (bright (pos 0) (pos 80) ∷ on ∷ off ∷ cleanup ∷ [])

segment_display-shown_example :
    (last_level 21 (segment_display (pos 7) dark_display).0.calls ≡ shown 7 g)
    × ((segment_display (pos 7) dark_display).1 ≡ ok)
    × ((segment_display (pos 7) dark_display).0.segment_enabled ≡ true)
    × ((segment_display (pos 7) dark_display).0.segment_value ≡ pos 7)
segment_display-shown_example = segment_display-shown 7 g dark_display (omega arith)

segment_clear_lit_example :
    (last_level 16 (segment_clear dark_display).0.calls
      ≡ last_level 5 (segment_display (pos 7) dark_display).0.calls)
    × (last_level 16 (segment_cleanup dark_display).calls
        ≡ last_level 5 (segment_display (pos 7) dark_display).0.calls)
segment_clear_lit_example = segment_clear_lit 7 dp a dark_display (omega arith) refl
