-- ===== src/Tests/Systems.antt =====
-- A worker that is stopped while a submitter waits.
use tcpremote_device_control.Base.{ℕ, refl, true, false, [], ◌∷◌, none, some, All, Gives}
use tcpremote_device_control.DeviceResult.{ok}
use tcpremote_device_control.Worker.{
  device_worker_submit, create_task, append_task, next_task, finish_task, request_stop,
}
use tcpremote_device_control.Worker.System.{
  System, Action, submits, takes, finishes, stops, act, started_system, Reaches, starts, acts,
}
use tcpremote_device_control.Worker.System.Inv.{IsAllocated}
use tcpremote_device_control.Worker.System.Safe.{IsHolding, act-IsHolding, ended-done}
use tcpremote_device_control.Tests.Workers.{granted}

abbrev next_state : Action ℕ → System ℕ → System ℕ
next_state e s = elim (act e s) [ none ↦ s | some t ↦ t ]

abbrev submitted : System ℕ
submitted = next_state (submits granted (some 440) false 0 true) started_system

abbrev executing : System ℕ
executing = next_state takes submitted

abbrev stopping : System ℕ
stopping = next_state stops executing

abbrev finished : System ℕ
finished = next_state (finishes 1 ok) stopping

abbrev at_end : System ℕ
at_end = next_state takes finished

stopping-Reaches : Reaches stopping
unfolding act device_worker_submit create_task append_task next_task finish_task request_stop
stopping-Reaches =
    acts stops stopping
      (acts takes executing
        (acts (submits granted (some 440) false 0 true) submitted starts tt refl) refl refl)
      tt refl

at_end-Reaches : Reaches at_end
unfolding act device_worker_submit create_task append_task next_task finish_task request_stop
at_end-Reaches =
    acts takes at_end (acts (finishes 1 ok) finished stopping-Reaches refl refl) refl refl

act-IsHolding_example : Gives IsHolding (act (finishes 1 ok) stopping)
unfolding act device_worker_submit create_task append_task next_task finish_task request_stop
act-IsHolding_example = act-IsHolding (finishes 1 ok) stopping stopping-Reaches refl

ended-done_example : All (λ a. IsAllocated at_end.heap a true) (1 ∷ [])
unfolding act device_worker_submit create_task append_task next_task finish_task request_stop
ended-done_example = ended-done at_end at_end-Reaches refl refl
