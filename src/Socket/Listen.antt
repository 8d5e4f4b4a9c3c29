-- ===== src/Socket/Listen.antt =====
-- server/socket.c: socket_init, and service with the calls in front of its loop.
use tcpremote_device_control.Base.{Bool, not, if◌then◌else◌, List, Option, none, some, ◌>>=◌, ℤ}
use tcpremote_device_control.Execute.{Devices}
use tcpremote_device_control.Socket.{Event, Server, Service, exits, service}

-- What socket returns, and whether the calls behind it succeed.
pub record SocketCalls : Type 0 where
  pub socket : Option ℤ
  pub setsockopt : Bool
  pub bind : Bool
  pub listen : Bool

-- `none` is an exit.
unfoldable pub socket_init : SocketCalls → Option ℤ
socket_init calls = calls.socket >>= λ server_fd.
    if not calls.setsockopt
    then none
    else if not calls.bind
    then none
    else if not calls.listen
    then none
    else some server_fd

-- Whether epoll_create succeeds, and epoll_ctl for the listening socket.
pub record EpollCalls : Type 0 where
  pub epoll_create : Bool
  pub epoll_ctl : Bool

unfoldable pub service_on :
    {S : Type 0} → Devices S → EpollCalls → List (Option (List Event)) → Server S → Service S
unfolding service
service_on d calls batches s =
    if not calls.epoll_create
    then exits
    else if not calls.epoll_ctl
    then exits
    else service d batches s
