-- ===== src/Plugin/Held.antt =====
-- What the device manager acquires while it starts and gives back while it stops, as a trace of the
-- calls that do so, with the calls of the buzzer's `off` between them, newest first.
use tcpremote_device_control.Base.{
  ℕ, Bool, true, false, ◌==◌, if◌then◌else◌, List, [], ◌∷◌, Option, none, some, ◌>>=◌,
}

pub data Plugin : Type 0 where
  led buzzer light segment : Plugin

-- A handle of dlopen, a plugin whose init succeeded, a device worker, and the segment's thread.
pub data Resource : Type 0 where
  library plugin worker : Plugin → Resource
  thread : Resource

pub data Event : Type 0 where
  acquire release : Resource → Event
  buzzer_off : Event

abbrev pub number_of : Plugin → ℕ
number_of led = 0
number_of buzzer = 1
number_of light = 2
number_of segment = 3

-- Whether two resources are the same.
abbrev pub same : Resource → Resource → Bool
same (library p) (library q) = number_of p == number_of q
same (plugin p) (plugin q) = number_of p == number_of q
same (worker p) (worker q) = number_of p == number_of q
same thread thread = true
same _ _ = false

abbrev give_back : Resource → List Resource → Option (List Resource)
give_back r [] = none
give_back r (held ∷ rest) = if same r held then some rest else none

-- The resources held after a trace, the last acquired first. `none` if one was released that was not
-- the last acquired of those held: twice, never acquired, or in the wrong order.
abbrev pub held : List Event → Option (List Resource)
held [] = some []
held (acquire r ∷ log) = held log >>= λ rs. some (r ∷ rs)
held (release r ∷ log) = held log >>= give_back r
held (buzzer_off ∷ log) = held log
