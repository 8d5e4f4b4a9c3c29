-- ===== src/Client.antt =====
-- client/main.c: what the console does with a line of the user and with a response. Constant texts of the
-- banner and the help are named, not spelled out.
pub mod Lines
pub mod Colors
pub mod Start
use tcpremote_device_control.Base.{
  ℕ, ◌-◌, Bool, true, false, not, ◌&&◌, ◌||◌, ◌==◌, if◌then◌else◌, List, [], ◌∷◌, ◌++◌, Option,
  none, some, take, Bytes, codes, equal_nocase, equal_bytes, c_string, ℤ,
}
use tcpremote_device_control.Execute.{buffer_size}

-- What the client prints and sends.
pub data Output : Type 0 where
  prompt : Output
  banner : Output
  local_help : Output
  clear_screen : Output
  closing : Output
  sent_quit : Output
  newline : Output
  echo : Bytes → Output
  response : Bytes → Output
  server_closed : Output
  server_disconnected : Output
  connecting : Bytes → ℤ → Output
  connected : Output
  sends : Bytes → Output

abbrev pub is_newline : ℕ → Bool
is_newline c = c == 10 || c == 13

-- The string without the newlines at its end, which the loop cuts from there.
abbrev pub put_before : ℕ → Bytes → Bytes
put_before c [] = if is_newline c then [] else c ∷ []
put_before c (d ∷ t) = c ∷ d ∷ t

unfoldable pub trim_newline : Bytes → Bytes
trim_newline [] = []
trim_newline (c ∷ s) = put_before c (trim_newline s)

unfoldable pub is_blank : Bytes → Bool
is_blank [] = true
is_blank (c ∷ s) = if not (c == 32) && not (c == 9) then false else is_blank s

-- The results 1, 0 and -1 of handle_local_command, the first and the last with the output.
pub data Local : Type 0 where
  handled : List Output → Local
  not_local : Local
  leaves : List Output → Local

unfoldable pub handle_local_command : Bytes → Local
unfolding equal_nocase
handle_local_command line =
    if equal_nocase line (codes ".help") || equal_nocase line (codes "client help")
    then handled (local_help ∷ [])
    else if equal_nocase line (codes ".clear") || equal_nocase line (codes "clear")
    then handled (clear_screen ∷ [])
    else if equal_nocase line (codes ".quit")
        || equal_nocase line (codes ".exit")
        || equal_nocase line (codes "exit")
    then leaves (closing ∷ [])
    else if equal_nocase line (codes "quit")
    then leaves (sends (codes "QUIT" ++ 10 ∷ []) ∷ sent_quit ∷ [])
    else not_local

abbrev pub color_reset : Bytes
color_reset = 27 ∷ codes "[0m"

abbrev pub color_green : Bytes
color_green = 27 ∷ codes "[32m"

abbrev pub color_red : Bytes
color_red = 27 ∷ codes "[31m"

-- strncmp (text, start, strlen (start)) == 0
abbrev pub starts_with : Bytes → Bytes → Bool
starts_with text [] = true
starts_with [] (c ∷ start) = false
starts_with (b ∷ text) (c ∷ start) = b == c && starts_with text start

abbrev pub last_is_newline : Bytes → Bool
last_is_newline [] = true
last_is_newline (c ∷ []) = c == 10
last_is_newline (c ∷ d ∷ s) = last_is_newline (d ∷ s)

-- The bytes printed for a response, which is empty or ends with some byte.
unfoldable pub print_server_response : Bytes → Bytes
print_server_response text =
    let colored =
      if starts_with text (codes "OK")
      then color_green ++ codes "< " ++ text ++ color_reset
      else if starts_with text (codes "ERR")
      then color_red ++ codes "< " ++ text ++ color_reset
      else codes "< " ++ text in
    colored ++ (if last_is_newline text then [] else 10 ∷ [])

-- snprintf (command, sizeof(command), "%s\n", line)
unfoldable pub command_of : Bytes → Bytes
command_of line = take (buffer_size - 1) (line ++ 10 ∷ [])

-- What poll reports, with what the calls that follow return: a signal, with whether it is SIGINT; an
-- error; a closed connection; recv, where `none` is an error; fgets, with whether send succeeds; the end
-- of the input; a read error.
pub data Polled : Type 0 where
  interrupted : Bool → Polled
  failed : Polled
  hung_up : Polled
  received : Option Bytes → Polled
  typed : Bytes → Bool → Polled
  ended : Polled
  unreadable : Polled

-- What a round of the loop does next, with its output in order.
pub data Console : Type 0 where
  goes_on : List Output → Console
  breaks : List Output → Console
  exits : List Output → Console

abbrev pub send_command : Bytes → Bool → Console
send_command line sent =
    if sent then goes_on (echo line ∷ sends (command_of line) ∷ []) else exits (echo line ∷ [])

abbrev pub after_local : Local → Bytes → Bool → Console
after_local (handled out) line sent = goes_on (out ++ prompt ∷ [])
after_local not_local line sent = send_command line sent
after_local (leaves out) line sent = breaks out

abbrev pub handle_line : Bytes → Bool → Console
handle_line line sent =
    if is_blank line
    then goes_on (prompt ∷ [])
    else after_local (handle_local_command line) line sent

unfoldable pub console_round : Polled → Console
unfolding trim_newline is_blank handle_local_command print_server_response command_of
console_round (interrupted sigint) = goes_on []
console_round failed = exits []
console_round hung_up = breaks (server_closed ∷ [])
console_round (received none) = exits []
console_round (received (some [])) = breaks (server_disconnected ∷ [])
console_round (received (some (c ∷ bytes))) =
    goes_on (
      response (print_server_response (c_string (take (buffer_size - 1) (c ∷ bytes))))
      ∷ prompt
      ∷ [])
console_round (typed text sent) =
    handle_line (trim_newline (c_string (take (buffer_size - 1) text))) sent
console_round ended = goes_on (newline ∷ prompt ∷ [])
console_round unreadable = goes_on (prompt ∷ [])

abbrev pub is_sigint : Polled → Bool
is_sigint (interrupted sigint) = sigint
is_sigint _ = false

-- How the console ends: by return, by an exit, or still polling; each with all output in order.
pub data Ended : Type 0 where
  returns : List Output → Ended
  exited : List Output → Ended
  polling : List Output → Ended

abbrev pub after : List Output → Ended → Ended
after out (returns later) = returns (out ++ later)
after out (exited later) = exited (out ++ later)
after out (polling later) = polling (out ++ later)

abbrev pub continue_with : Console → Ended → Ended
continue_with (goes_on out) next = after out next
continue_with (breaks out) next = returns out
continue_with (exits out) next = exited out

-- `while (client_running)`
unfoldable pub console_loop : Bool → List Polled → Ended
unfolding console_round
console_loop client_running [] = if client_running then polling [] else returns []
console_loop client_running (p ∷ ps) =
    let next =
      continue_with (console_round p) (console_loop (client_running && not (is_sigint p)) ps) in
    if client_running then next else returns []

unfoldable pub run_console : List Polled → Ended
unfolding console_loop
run_console ps = after (banner ∷ prompt ∷ []) (console_loop true ps)
