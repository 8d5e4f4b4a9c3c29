-- ===== src/Startup/Main.antt =====
-- How main starts the service.
use tcpremote_device_control.Base.{
  not, if◌then◌else◌, if-holds, ℤ, ℕ, ◌≡◌, refl, sym, subst, [], true, Option, none, some, length,
  codes, ◌++◌, leb, Bytes,
}
use tcpremote_device_control.DeviceResult.{DeviceResult, is_ok}
use tcpremote_device_control.Plugin.Loader.{path_max}
use tcpremote_device_control.Worker.Queue.{IsQueue}
use tcpremote_device_control.Manager.{DeviceManager, device_init}
use tcpremote_device_control.Manager.States.{Up, Down}
use tcpremote_device_control.Manager.Lifecycle.{UpOrDown, up, down, device_init-UpOrDown}
use tcpremote_device_control.Execute.{Devices}
use tcpremote_device_control.Socket.Listen.{socket_init, service_on}
use tcpremote_device_control.Socket.Replies.{new_server}
use tcpremote_device_control.Startup.Descriptors.{Kernel}
use tcpremote_device_control.Startup.Queues.{IsIdle, device_init-IdleIfOk}
use tcpremote_device_control.Startup.{
  Process, exits_with, goes_on, Launch, Served, stopped, after_service, listening, serve, as_daemon,
  start_in, server_main, get_executable_dir, create_daemon,
}

-- Everything runs, and no task is queued for the buzzer.
pub record IsRunning (m : DeviceManager) : Type 0 where
  pub is_up : Up m
  pub queue : IsQueue m.buzzer_worker m.tasks []

idle-IsQueue : (m : DeviceManager) → IsIdle m.buzzer_worker → IsQueue m.buzzer_worker m.tasks []
idle-IsQueue m i = record { chain = i.no_head; tail = i.no_tail; distinct = tt; below = tt }

module _ {K : Type 0} (kernel : Kernel K) (d : Devices DeviceManager) (l : Launch) (fuel : ℕ) where
  -- What main comes to: an exit with nothing running and nothing held; an exit with 1 and everything
  -- running, if socket_init fails; or the service on devices that run, and what is behind it.
  pub data IsStart (r : Served K) : Type 0 where
    exits_down : (code : ℕ) (m : DeviceManager) → r ≡ stopped code m → Down m → IsStart r
    exits_up :
        (m : DeviceManager)
        → socket_init l.sockets ≡ none
        → r ≡ stopped 1 m
        → IsRunning m
        → IsStart r
    serves :
        (m : DeviceManager)
        → r ≡ after_service kernel d l fuel (service_on d l.epoll l.batches (new_server m))
        → IsRunning m
        → IsStart r

  listening-IsStart :
      (m : DeviceManager) (o : Option ℤ)
      → socket_init l.sockets ≡ o
      → IsRunning m
      → IsStart (listening kernel d l fuel m o)
  listening-IsStart m none e r = exits_up m e refl r
  listening-IsStart m (some server_fd) e r = serves m refl r

  serve-IsStart :
      (o : DeviceResult × DeviceManager)
      → UpOrDown o.0 o.1
      → (is_ok o.0 ≡ true → IsIdle o.1.buzzer_worker)
      → IsStart (serve kernel d l fuel o)
  unfolding serve
  serve-IsStart (result, m) (down e h) idle = simp e (exits_down 1 m refl h)
  serve-IsStart (result, m) (up e u) idle =
      let q = idle-IsQueue m (idle (rw e refl)) in
      subst
        (λ x. IsStart (
          if not (is_ok x)
          then stopped 1 m
          else listening kernel d l fuel m (socket_init l.sockets)))
        (sym e) (listening-IsStart m (socket_init l.sockets) refl (record { is_up = u; queue = q }))

  as_daemon-IsStart :
      (m : DeviceManager) (p : Process K) → Down m → IsStart (as_daemon kernel d l fuel m p)
  as_daemon-IsStart m (exits_with code) h = exits_down code m refl h
  as_daemon-IsStart m (goes_on k) h =
      serve-IsStart (device_init l.environment m) (device_init-UpOrDown l.environment m h)
        (device_init-IdleIfOk l.environment m h.uninitialized)

  start_in-IsStart :
      (dir : Option Bytes) (m : DeviceManager) (k : K)
      → Down m
      → IsStart (start_in kernel d l fuel dir m k)
  start_in-IsStart none m k h = exits_down 1 m refl h
  start_in-IsStart (some work_dir) m k h =
      if-holds IsStart (leb path_max (length (work_dir ++ codes "/config.ini"))) _ _
        (λ e. exits_down 1 m refl h)
        (λ e. as_daemon-IsStart m (create_daemon kernel l.calls work_dir k) h)

  -- A server that begins with nothing running, whatever the kernel, the plugins and the devices' functions
  -- answer: it exits with nothing running and nothing held; or it exits with 1 and everything running, and
  -- only if socket_init fails; or it enters the service with everything running, the flags of the
  -- threads set and the buzzer's queue empty.
  pub server_main-Starts :
      (m : DeviceManager) (k : K) → Down m → IsStart (server_main kernel d l fuel m k)
  unfolding server_main
  server_main-Starts m k h = start_in-IsStart (get_executable_dir l.system path_max) m k h
