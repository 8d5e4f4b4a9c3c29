-- ===== src/Tests/Starts.antt =====
-- A start of the server on a kernel with a table of descriptors.
use tcpremote_device_control.Base.{
  ℕ, zero, suc, ◌<◌, ◌≤◌, ltb, if◌then◌else◌, if-holds, ◌≡◌, ◌≢◌, refl, ap, subst, true, false,
  List, [], ◌∷◌, Option, none, some, Bool, arith, pos, negsuc, codes,
}
use tcpremote_device_control.DeviceResult.{ok}
use tcpremote_device_control.Manager.{DeviceManager}
use tcpremote_device_control.Manager.Commands.{device_get_status, plugin_get_status}
use tcpremote_device_control.Execute.{Devices}
use tcpremote_device_control.Socket.{accepts, receives}
use tcpremote_device_control.Startup.{DaemonCalls, goes_on, create_daemon, Launch, server_main}
use tcpremote_device_control.Startup.Descriptors.{File, inherited, Kernel, IsPosix}
use tcpremote_device_control.Startup.Daemon.{IsGranting, IsDetached, create_daemon-IsDetached}
use tcpremote_device_control.Startup.Main.{IsStart, server_main-Starts}
use tcpremote_device_control.Tests.Managers.{idle, idle-Down, system, no_segment}

abbrev Table : Type 0
Table = List (Option File)

abbrev entry : Table → ℕ → Option File
entry [] j = none
entry (x ∷ xs) zero = x
entry (x ∷ xs) (suc j) = entry xs j

abbrev put : ℕ → Option File → Table → Table
put zero v [] = v ∷ []
put (suc j) v [] = none ∷ put j v []
put zero v (x ∷ xs) = v ∷ xs
put (suc j) v (x ∷ xs) = x ∷ put j v xs

abbrev lowest_free : Table → ℕ
lowest_free [] = 0
lowest_free (none ∷ xs) = 0
lowest_free (some f ∷ xs) = suc (lowest_free xs)

entry-put : (j : ℕ) (v : Option File) (t : Table) → entry (put j v t) j ≡ v
entry-put zero v [] = refl
entry-put (suc j) v [] = entry-put j v []
entry-put zero v (x ∷ xs) = refl
entry-put (suc j) v (x ∷ xs) = entry-put j v xs

entry-put_ne : (i j : ℕ) (v : Option File) (t : Table) → i ≢ j → entry (put i v t) j ≡ entry t j
entry-put_ne zero zero v [] n = absurd (n refl)
entry-put_ne zero (suc j) v [] n = refl
entry-put_ne (suc i) zero v [] n = refl
entry-put_ne (suc i) (suc j) v [] n = entry-put_ne i j v [] (λ e. n (ap suc e))
entry-put_ne zero zero v (x ∷ xs) n = absurd (n refl)
entry-put_ne zero (suc j) v (x ∷ xs) n = refl
entry-put_ne (suc i) zero v (x ∷ xs) n = refl
entry-put_ne (suc i) (suc j) v (x ∷ xs) n = entry-put_ne i j v xs (λ e. n (ap suc e))

lowest_free-free : (t : Table) → entry t (lowest_free t) ≡ none
lowest_free-free [] = refl
lowest_free-free (none ∷ xs) = refl
lowest_free-free (some f ∷ xs) = lowest_free-free xs

taken_below : (t : Table) (j : ℕ) → j < lowest_free t → entry t j ≢ none
taken_below [] j l e = absurd (omega arith)
taken_below (none ∷ xs) j l e = absurd (omega arith)
taken_below (some f ∷ xs) zero l e = cc
taken_below (some f ∷ xs) (suc j) l e = taken_below xs j (omega arith) e

lowest_free-least : (t : Table) (j : ℕ) → entry t j ≡ none → lowest_free t ≤ j
lowest_free-least [] j e = omega arith
lowest_free-least (none ∷ xs) j e = omega arith
lowest_free-least (some f ∷ xs) zero e = absurd cc
lowest_free-least (some f ∷ xs) (suc j) e = omega (arith, lowest_free-least xs j e)

-- EMFILE behind the last descriptor, and EBADF for a closed one.
abbrev open_lowest : File → Table → Option ℕ × Table
open_lowest f t =
    if ltb (lowest_free t) 1024
    then (some (lowest_free t), put (lowest_free t) (some f) t)
    else (none, t)

abbrev double_to : Option File → ℕ → Table → Bool × Table
double_to none b t = (false, t)
double_to (some f) b t = if ltb b 1024 then (true, put b (some f) t) else (false, t)

abbrev table_kernel : Kernel Table
table_kernel = record {
  descriptor = entry;
  open_file = open_lowest;
  close = λ fd t. put fd none t;
  dup2 = λ a b t. double_to (entry t a) b t;
}

-- A statement of what a call gives that succeeds.
abbrev Opened : (ℕ → Table → Type 0) → Option ℕ × Table → Type 0
Opened P (none, t) = Unit {0}
Opened P (some fd, t) = P fd t

abbrev Doubled : (Table → Type 0) → Bool × Table → Type 0
Doubled P (false, t) = Unit {0}
Doubled P (true, t) = P t

open_lowest-Opened :
    (P : ℕ → Table → Type 0) (f : File) (t : Table)
    → P (lowest_free t) (put (lowest_free t) (some f) t)
    → Opened P (open_lowest f t)
open_lowest-Opened P f t p = if-holds (Opened P) (ltb (lowest_free t) 1024) _ _ (λ e. p) (λ e. tt)

double_to-Doubled :
    (P : Table → Type 0) (o : Option File) (b : ℕ) (t : Table)
    → P (put b o t)
    → Doubled P (double_to o b t)
double_to-Doubled P none b t p = tt
double_to-Doubled P (some f) b t p = if-holds (Doubled P) (ltb b 1024) _ _ (λ e. p) (λ e. tt)

table_kernel-IsPosix : IsPosix table_kernel
table_kernel-IsPosix = record {
  opened = λ f k k' fd e.
      subst (Opened (λ n t. entry t n ≡ some f)) e
        (open_lowest-Opened (λ n t. entry t n ≡ some f) f k (entry-put (lowest_free k) (some f) k));
  open_keeps = λ f k k' fd j e. subst (Opened (λ n t. n ≢ j → entry t j ≡ entry k j)) e (
      open_lowest-Opened (λ n t. n ≢ j → entry t j ≡ entry k j) f k
        (entry-put_ne (lowest_free k) j (some f) k));
  lowest = λ f k k' fd j e.
      subst (Opened (λ n t. j < n → entry k j ≢ none)) e
        (open_lowest-Opened (λ n t. j < n → entry k j ≢ none) f k (taken_below k j));
  was_free = λ f k k' fd e.
      subst (Opened (λ n t. entry k n ≡ none)) e
        (open_lowest-Opened (λ n t. entry k n ≡ none) f k (lowest_free-free k));
  closed = λ fd k. entry-put fd none k;
  close_keeps = λ fd j k n. entry-put_ne fd j none k n;
  doubled = λ a b k k' e.
      subst (Doubled (λ t. entry t b ≡ entry k a)) e (
        double_to-Doubled (λ t. entry t b ≡ entry k a) (entry k a) b k (entry-put b (entry k a) k));
  dup2_keeps = λ a b j k k' e n. subst (Doubled (λ t. entry t j ≡ entry k j)) e (
      double_to-Doubled (λ t. entry t j ≡ entry k j) (entry k a) b k
        (entry-put_ne b j (entry k a) k n));
}

below_limit : (n m : ℕ) → n ≤ m → m < 1024 → ltb n 1024 ≡ true
below_limit n m l h = ground arith

opens_below :
    (f : File) (t : Table)
    → ltb (lowest_free t) 1024 ≡ true
    → open_lowest f t ≡ (some (lowest_free t), put (lowest_free t) (some f) t)
opens_below f t e = simp e refl

doubles_below :
    (f : File) (o : Option File) (b : ℕ) (t : Table)
    → ltb b 1024 ≡ true
    → o ≡ some f
    → double_to o b t ≡ (true, put b (some f) t)
doubles_below f o b t e same = rw same (simp e refl)

table_kernel-IsGranting : IsGranting table_kernel 1024
table_kernel-IsGranting = record {
  opens = λ f k free l e. (
    lowest_free k,
    put (lowest_free k) (some f) k,
    opens_below f k (below_limit (lowest_free k) free (lowest_free-least k free e) l),
  );
  doubles = λ f a b k l e.
      (put b (some f) k, doubles_below f (entry k a) b k (below_limit b b (omega arith) l) e);
}

abbrev granted : DaemonCalls
granted = record {
  mkdir = true;
  fork = pos 0;
  setsid = true;
  fork_again = pos 0;
  chdir = true;
  max_fd = pos 1024;
}

-- A terminal on 0, 1 and 2, and a lock file on 4.
abbrev terminal : Table
terminal =
    some (inherited 1) ∷ some (inherited 1) ∷ some (inherited 1) ∷ none ∷ some (inherited 2) ∷ []

create_daemon-IsDetached_example :
    (k' : Table) × (create_daemon table_kernel granted (codes "/opt/server") terminal ≡ goes_on k')
    × IsDetached table_kernel table_kernel-IsPosix 1024 k'
create_daemon-IsDetached_example =
    create_daemon-IsDetached table_kernel table_kernel-IsPosix 1024 (omega arith)
      table_kernel-IsGranting granted (codes "/opt/server") terminal refl refl refl refl refl refl
      (omega arith) (omega arith)

-- Devices that refuse every call.
abbrev refusing : Devices DeviceManager
refusing = record {
  device_led_on = λ m. (negsuc 0, m);
  device_led_on_bright = λ v m. (negsuc 0, m);
  device_led_off = λ m. (negsuc 0, m);
  device_buzzer_music = λ path m. (negsuc 0, m);
  device_buzzer_on = λ m. (negsuc 0, m);
  device_buzzer_off = λ m. (negsuc 0, m);
  device_buzzer_beep = λ v m. (negsuc 0, m);
  device_light_read = λ m. (negsuc 0, negsuc 0, m);
  device_segment_display = λ v m. (negsuc 0, m);
  device_segment_clear = λ m. (negsuc 0, m);
  device_get_status = λ m.
      device_get_status (record { led_on = false; buzzer_on = false; light_value = negsuc 0 }) m;
  plugin_get_status = plugin_get_status;
}

abbrev launch : Launch
launch = record {
  system = record system { readlink = λ size. some (codes "/opt/server/bin") };
  calls = granted;
  environment = record no_segment { init = λ p. ok };
  sockets = record { socket = some (pos 3); setsockopt = true; bind = true; listen = true };
  epoll = record { epoll_create = true; epoll_ctl = true };
  batches =
      some (accepts (pos 5) true ∷ []) ∷ some (receives (pos 5) (some (codes "QUIT")) ∷ []) ∷ [];
}

server_main-Starts_example :
    IsStart table_kernel refusing launch 7
      (server_main table_kernel refusing launch 7 idle terminal)
server_main-Starts_example =
    server_main-Starts table_kernel refusing launch 7 idle terminal idle-Down
