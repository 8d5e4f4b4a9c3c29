-- ===== src/Tests/Services.antt =====
-- A server with a few clients, and one with a full table.
use tcpremote_device_control.Base.{
  ℕ, zero, suc, List, none, Bytes, ◌≡◌, refl, ◌-◌, true, [], ◌∷◌, take, some, codes, ℤ, pos, arith,
  Gives, c_string,
}
use tcpremote_device_control.Execute.{exec_command, buffer_size}
use tcpremote_device_control.Execute.Pieces.{IsAnswer}
use tcpremote_device_control.Socket.{
  max_clients, Event, handle_all, Server, send, log, watch, accepts, receives, handle, answer,
  take_client, add_client,
}
use tcpremote_device_control.Socket.Clients.{HoldsOpen, Reaches, started, handled}
use tcpremote_device_control.Socket.Replies.{new_server, Reaches-HoldsOpen, handle-answers}
use tcpremote_device_control.Socket.Full.{sends_to, take_client_full}
use tcpremote_device_control.Tests.Requests.{lamp}

-- Descriptor 5 has connected.
abbrev connected : Server ℤ
connected = record (new_server (pos 0)) {
  client_fds = add_client (pos 5) (new_server (pos 0)).client_fds;
  calls = watch (pos 5) ∷ [];
}

connected_reached : Reaches lamp (new_server (pos 0)) connected (pos 5 ∷ [])
unfolding handle take_client
connected_reached =
    handled (accepts (pos 5) true) (new_server (pos 0)) connected [] started
      (refl, refl, omega arith) refl

Reaches-HoldsOpen_example : HoldsOpen (pos 5 ∷ []) connected.client_fds
Reaches-HoldsOpen_example = Reaches-HoldsOpen lamp (pos 0) connected (pos 5 ∷ []) connected_reached

handle-answers_example :
    Gives
      (λ s'.
        let request = c_string (take (buffer_size - 1) (codes "led on")) in
        let reply = (exec_command lamp request (pos 0)).reply in
        (s'.calls ≡ send (pos 5) reply ∷ log (pos 5) request reply ∷ watch (pos 5) ∷ [])
        × IsAnswer reply)
      (handle lamp (receives (pos 5) (some (codes "led on"))) connected)
handle-answers_example =
    handle-answers lamp (pos 0) connected (pos 5 ∷ []) (pos 5) 108 (codes "ed on") connected_reached
      refl (omega arith)

abbrev descriptors : ℕ → ℕ → List ℤ
descriptors zero fd = []
descriptors (suc n) fd = pos fd ∷ descriptors n (suc fd)

-- A table whose 128 cells are taken, by the descriptors from 5 on.
abbrev full : Server ℤ
full = record (new_server (pos 0)) { client_fds = descriptors max_clients 5 }

-- The next one sends a request, and then the client on 5 does.
abbrev later : List Event
later = receives (pos 133) (some (codes "led on")) ∷ receives (pos 5) (some (codes "led off")) ∷ []

abbrev served : Server ℤ
served = elim (handle_all lamp (accepts (pos 133) true ∷ later) full) [ none ↦ full | some s ↦ s ]

take_client_full_example :
    (sends_to (pos 133) served.calls ≡ 0)
    × ((request : Bytes)
        → let r = exec_command lamp request served.devices in
          let t = answer lamp (pos 133) request served in
          (t.devices ≡ r.devices) × (t.calls ≡ log (pos 133) request r.reply ∷ served.calls))
unfolding handle_all handle
take_client_full_example =
    take_client_full lamp (pos 133) refl later full served refl refl (tt, (tt, tt)) refl
