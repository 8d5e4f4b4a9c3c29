-- ===== src/Socket/Quits.antt =====
-- How the service ends.
use tcpremote_device_control.Base.{◌≡◌, false, Option, none, some}
use tcpremote_device_control.Execute.{Devices}
use tcpremote_device_control.Socket.{Server}

module _ {S : Type 0} (d : Devices S) where
  -- The flag, behind a step that does not exit.
  abbrev IsStopped : Option (Server S) → Type 0
  IsStopped none = Unit {0}
  IsStopped (some s) = s.running ≡ false
