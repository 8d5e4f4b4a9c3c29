-- ===== src/Socket.antt =====
-- server/socket.c: the client table and the event loop. The calls of the kernel are the events that they
-- report, and a trace of what the server asks of them.
pub mod Clients
pub mod Replies
pub mod Quits
pub mod Full
pub mod Listen
use tcpremote_device_control.Base.{
  ℕ, zero, suc, ◌-◌, Bool, true, false, not, ◌&&◌, ◌==◌, if◌then◌else◌, List, [], ◌∷◌, Option, none,
  some, take, Bytes, c_string, ℤ, pos, negsuc, eqb_ℤ,
}
use tcpremote_device_control.Execute.{Devices, Executed, exec_command, buffer_size}

abbrev pub max_clients : ℕ
max_clients = 128

-- A cell of client_fds without a client.
abbrev pub no_client : ℤ
no_client = negsuc 0

abbrev pub fill : ℕ → List ℤ
fill zero = []
fill (suc n) = no_client ∷ fill n

abbrev pub init_clients : List ℤ
init_clients = fill max_clients

-- The loop over the cells.
unfoldable pub add_client : ℤ → List ℤ → List ℤ
add_client client_fd [] = []
add_client client_fd (fd ∷ fds) =
    if eqb_ℤ fd no_client then client_fd ∷ fds else fd ∷ add_client client_fd fds

unfoldable pub remove_client : ℤ → List ℤ → List ℤ
remove_client client_fd [] = []
remove_client client_fd (fd ∷ fds) =
    if eqb_ℤ fd client_fd then no_client ∷ fds else fd ∷ remove_client client_fd fds

-- What the loop asks of the kernel, and the line that log_client_command is given.
pub data SocketCall : Type 0 where
  watch : ℤ → SocketCall
  unwatch : ℤ → SocketCall
  close : ℤ → SocketCall
  log : ℤ → Bytes → Bytes → SocketCall
  send : ℤ → Bytes → SocketCall

-- The variable `running`, the table, the devices, and the calls with the latest first.
pub record Server (S : Type 0) : Type 0 where
  pub running : Bool
  pub client_fds : List ℤ
  pub devices : S
  pub calls : List SocketCall

-- One entry of `events` with what the calls for it return: accept, with a descriptor and whether
-- epoll_ctl takes it, accept that fails, recv on a client with EPOLLIN, where `none` is an error, and a
-- client without EPOLLIN.
pub data Event : Type 0 where
  accepts : ℤ → Bool → Event
  refuses : Event
  receives : ℤ → Option Bytes → Event
  other : ℤ → Event

module _ {S : Type 0} where
  abbrev pub call : SocketCall → Server S → Server S
  call c s = record s { calls = c ∷ s.calls }

  -- The loop over the cells: a send to the first one that holds the descriptor.
  abbrev pub send_in : List ℤ → ℤ → Bytes → Server S → Server S
  send_in [] dest_fd str s = s
  send_in (fd ∷ fds) dest_fd str s =
      if not (eqb_ℤ fd no_client) && eqb_ℤ fd dest_fd
      then call (send fd str) s
      else send_in fds dest_fd str s

  unfoldable pub send_message : ℤ → Bytes → Server S → Server S
  send_message dest_fd str s = send_in s.client_fds dest_fd str s

  unfoldable pub drop_client : ℤ → Server S → Server S
  unfolding remove_client
  drop_client client_fd s =
      call (close client_fd)
        (call (unwatch client_fd) (record s { client_fds = remove_client client_fd s.client_fds }))

  unfoldable pub take_client : ℤ → Bool → Server S → Server S
  unfolding add_client
  take_client client_fd watched s =
      if watched
      then call (watch client_fd) (record s { client_fds = add_client client_fd s.client_fds })
      else call (close client_fd) s

  -- exec_command leaves the reply in the buffer; SIGTERM runs the handler at once.
  unfoldable pub answer : Devices S → ℤ → Bytes → Server S → Server S
  unfolding exec_command send_message
  answer d client_fd request s =
      let r = exec_command d request s.devices in
      send_message client_fd r.reply (
        call (log client_fd request r.reply)
          (record s { running = if r.raised then false else s.running; devices = r.devices }))

  -- The body of the loop over the events; `none` is an exit. recv is given sizeof(buffer) - 1 bytes.
  unfoldable pub handle : Devices S → Event → Server S → Option (Server S)
  unfolding take_client drop_client answer
  handle d (accepts client_fd watched) s = some (take_client client_fd watched s)
  handle d refuses s = none
  handle d (receives client_fd none) s = some (drop_client client_fd s)
  handle d (receives client_fd (some [])) s = some (drop_client client_fd s)
  handle d (receives client_fd (some (c ∷ bytes))) s =
      some (answer d client_fd (c_string (take (buffer_size - 1) (c ∷ bytes))) s)
  handle d (other client_fd) s = some s

  unfoldable pub handle_all : Devices S → List Event → Server S → Option (Server S)
  unfolding handle
  handle_all d [] s = some s
  handle_all d (e ∷ es) s = elim (handle d e s) [ none ↦ none | some s' ↦ handle_all d es s' ]

-- What a run of the service comes to: an exit with an error, a return, or epoll_wait without an event.
pub data Service (S : Type 0) : Type 0 where
  exits : Service S
  returns : Server S → Service S
  waits : Server S → Service S

abbrev pub go_on : {S : Type 0} → Option (Server S) → (Server S → Service S) → Service S
go_on none next = exits
go_on (some s) next = next s

-- `while (running)`, with what each epoll_wait reports; `none` is an error.
unfoldable pub service :
    {S : Type 0} → Devices S → List (Option (List Event)) → Server S → Service S
unfolding handle_all
service d [] s = if s.running then waits s else returns s
service d (none ∷ batches) s = if s.running then exits else returns s
service d (some es ∷ batches) s =
    let next = go_on (handle_all d es s) (λ s'. service d batches s') in
    if s.running then next else returns s
