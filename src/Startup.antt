-- ===== src/Startup.antt =====
-- server/main.c: the start of the server. What fork, setsid, chdir, sysconf and mkdir answer is an
-- argument; signal, umask, setvbuf and the printed texts are left out.
pub mod Descriptors
pub mod Daemon
pub mod Queues
pub mod Main
use tcpremote_device_control.Base.{
  ℕ, zero, suc, ◌+◌, ◌-◌, ◌%◌, ◌^◌, Bool, true, false, not, ◌||◌, ◌&&◌, ◌==◌, ltb, leb,
  if◌then◌else◌, List, [], ◌∷◌, ◌++◌, Option, none, some, length, Bytes, codes, ℤ, pos, negsuc,
  eqb_ℤ, ltb_ℤ,
}
use tcpremote_device_control.DeviceResult.{DeviceResult, is_ok}
use tcpremote_device_control.Plugin.Loader.{System, path_max, before_last_slash}
use tcpremote_device_control.Manager.{DeviceManager, Environment, device_init, device_cleanup}
use tcpremote_device_control.Execute.{Devices}
use tcpremote_device_control.Socket.{Event, Server, Service, exits, returns, waits}
use tcpremote_device_control.Socket.Listen.{SocketCalls, socket_init, EpollCalls, service_on}
use tcpremote_device_control.Socket.Replies.{new_server}
use Descriptors.{File, null_device, server_log, Kernel}

-- strrchr and the cut: as in plugin_loader.c, of which this is a copy.
abbrev pub dir_of : ℕ → Option Bytes → Option Bytes
dir_of buffer_size none = none
dir_of buffer_size (some link) =
    if length link == 0 || leb buffer_size (length link) then none else before_last_slash link

-- The directory, or -1. The buffer is not NULL.
unfoldable pub get_executable_dir : System → ℕ → Option Bytes
get_executable_dir system buffer_size =
    if buffer_size == 0 then none else dir_of buffer_size (system.readlink (buffer_size - 1))

-- A process that ends with a code, or one that goes on.
pub data Process (K : Type 0) : Type 0 where
  exits_with : ℕ → Process K
  goes_on : K → Process K

-- What mkdir answers, where EEXIST counts as success; the results of the two forks; whether setsid and
-- chdir succeed; sysconf.
pub record DaemonCalls : Type 0 where
  pub mkdir : Bool
  pub fork : ℤ
  pub setsid : Bool
  pub fork_again : ℤ
  pub chdir : Bool
  pub max_fd : ℤ

module _ {K : Type 0} (kernel : Kernel K) where
  abbrev pub if_opened : Option ℕ × K → (ℕ → K → Process K) → Process K
  if_opened (none, k) next = exits_with 1
  if_opened (some fd, k) next = next fd k

  abbrev pub if_doubled : Bool × K → (K → Process K) → Process K
  if_doubled (done, k) next = if done then next k else exits_with 1

  -- `if (fd > STDERR_FILENO) close(fd);`
  abbrev pub close_above : ℕ → K → K
  close_above fd k = if ltb 2 fd then kernel.close fd k else k

  abbrev pub double_three : ℕ → ℕ → K → Process K
  double_three null_fd log_fd k = if_doubled (kernel.dup2 null_fd 0 k) (λ k₁.
      if_doubled (kernel.dup2 log_fd 1 k₁) (λ k₂.
        if_doubled (kernel.dup2 log_fd 2 k₂)
          (λ k₃. goes_on (close_above log_fd (close_above null_fd k₃)))))

  abbrev pub open_both : K → Process K
  open_both k = if_opened (kernel.open_file null_device k) (λ null_fd k₁.
      if_opened (kernel.open_file server_log k₁) (λ log_fd k₂. double_three null_fd log_fd k₂))

  -- snprintf of "%s/log" and "%s/server.log" into buffers of PATH_MAX bytes.
  unfoldable pub redirect_stdio_to_log : Bool → Bytes → K → Process K
  redirect_stdio_to_log mkdir work_dir k =
      let log_dir = work_dir ++ codes "/log" in
      if leb path_max (length log_dir)
      then exits_with 1
      else if not mkdir
      then exits_with 1
      else if leb path_max (length (log_dir ++ codes "/server.log"))
      then exits_with 1
      else open_both k

  -- The loop from fd down to 0.
  abbrev pub close_down : ℕ → K → K
  close_down zero k = kernel.close 0 k
  close_down (suc fd) k = close_down fd (kernel.close (suc fd) k)

  -- `(int)max_fd` of a long that is not negative.
  abbrev pub close_fds : ℤ → K → K
  close_fds (pos max_fd) k =
      let fd = max_fd % 2 ^ 32 in if ltb fd (2 ^ 31) then close_down fd k else k
  close_fds (negsuc n) k = close_down 1024 k

  -- What fork returns in this process: the child goes on.
  abbrev pub as_child : ℤ → Process K → Process K
  as_child (negsuc n) next = exits_with 1
  as_child (pos zero) next = next
  as_child (pos (suc pid)) next = exits_with 0

  unfoldable pub create_daemon : DaemonCalls → Bytes → K → Process K
  unfolding redirect_stdio_to_log
  create_daemon calls work_dir k = as_child calls.fork (
      if not calls.setsid
      then exits_with 1
      else as_child calls.fork_again (
          if not calls.chdir
          then exits_with 1
          else redirect_stdio_to_log calls.mkdir work_dir (close_fds calls.max_fd k)))

-- How the server ends: by exit before its service, with the devices as they are then; by exit from
-- service; by return from main; or still serving. `faulty` is no fuel in
-- device_cleanup, or a fault or a join there that does not return.
pub data Served (K : Type 0) : Type 0 where
  stopped : ℕ → DeviceManager → Served K
  aborted : Served K
  finished : DeviceManager → Served K
  serving : DeviceManager → Served K
  faulty : Served K

-- The answers of other code to one run: the kernel's, those to device_init, and those to the service.
pub record Launch : Type 0 where
  pub system : System
  pub calls : DaemonCalls
  pub environment : Environment
  pub sockets : SocketCalls
  pub epoll : EpollCalls
  pub batches : List (Option (List Event))

-- The fuel is for device_cleanup.
module _ {K : Type 0} (kernel : Kernel K) (d : Devices DeviceManager) (l : Launch) (fuel : ℕ) where
  abbrev pub clean_up : Option DeviceManager → Served K
  clean_up none = faulty
  clean_up (some m) = finished m

  abbrev pub after_service : Service DeviceManager → Served K
  after_service exits = aborted
  after_service (returns s) = clean_up (device_cleanup fuel s.devices)
  after_service (waits s) = serving s.devices

  abbrev pub listening : DeviceManager → Option ℤ → Served K
  listening m none = stopped 1 m
  listening m (some server_fd) = after_service (service_on d l.epoll l.batches (new_server m))

  unfoldable pub serve : DeviceResult × DeviceManager → Served K
  unfolding service_on socket_init device_cleanup
  serve (result, m) =
      if not (is_ok result) then stopped 1 m else listening m (socket_init l.sockets)

  abbrev pub as_daemon : DeviceManager → Process K → Served K
  as_daemon m (exits_with code) = stopped code m
  as_daemon m (goes_on k) = serve (device_init l.environment m)

  abbrev pub start_in : Option Bytes → DeviceManager → K → Served K
  start_in none m k = stopped 1 m
  start_in (some work_dir) m k =
      if leb path_max (length (work_dir ++ codes "/config.ini"))
      then stopped 1 m
      else as_daemon m (create_daemon kernel l.calls work_dir k)

  -- main, less load_app_config, whose result is not used.
  unfoldable pub server_main : DeviceManager → K → Served K
  unfolding get_executable_dir create_daemon serve device_init
  server_main m k = start_in (get_executable_dir l.system path_max) m k
