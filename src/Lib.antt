-- ===== src/Lib.antt =====
-- TCP remote device control: a server on a Raspberry Pi that takes text commands over TCP and drives
-- an LED, a buzzer, a light sensor and a seven-segment display through plugins.
--
-- common/command.c turns a request line into a command. The device manager runs the commands on
-- plugins that it loads from shared libraries, some of them as tasks of a worker thread
-- (server/device/device_worker.c).
--
-- Base: shared names. A C string is the list of its bytes before the NUL, `int` and `long` are ℤ, and
-- NULL is `none`.
--
-- Command models common/command.h and common/command.c: Command.Tokens the calls of strtok_r,
-- Command.Number strtol and parse_int_arg, Command itself the table and command_parse. Command.Grammar
-- describes the request lines without the parser, and Command.Accepts compares the two.
--
-- DeviceResult models server/device/device_result.c.
--
-- Device models the plugins under server/device: Device.Led, Device.Light and Device.Segment. The GPIO
-- libraries are not modelled: a plugin's state keeps the trace of the calls that it makes of them, and
-- what a call returns is an argument. Mutexes that guard a single access are left out.
--
-- Worker models server/device/device_worker.c. Tasks stand in a heap at addresses (Worker.Tasks), and
-- each function is one stretch of the code that runs under the worker's lock; an access to a task that
-- is not allocated is a fault, `none`. The loop of device_worker_cancel_pending runs on fuel, and any
-- number above the length of the queue is enough. Worker.System interleaves these functions: an action is
-- one stretch of the worker's thread, of a submitter, of a canceller or of device_worker_stop. Worker.Blocked
-- is a submitter's wait while the worker's thread runs the queue, on fuel above the number of its tasks.
--
-- Plugin models server/device/plugin_loader.c (Plugin.Loader) and server/device/plugin_registry.h and
-- plugin_registry.c (Plugin.Registry). dlopen, dlsym, getenv and readlink are parameters, and any
-- functions may stand for them. Plugin.Held is the trace of what is acquired and given back.
--
-- Manager models server/device/device_manager.c: starting and stopping in Manager itself, the commands
-- in Manager.Commands, the countdown thread in Manager.Refresh as a step function whose steps lie
-- between two uses of segment_lock. The manager's state holds the plugins' handles, the three workers
-- and their tasks; a command that goes to a worker is followed up to its wait. What init of a plugin,
-- malloc and pthread_create answer is an argument. The functions of a plugin are called only while its
-- library is loaded. A join of a thread that was not told to end does not return.
--
-- Config models common/app_config.c: Config.File opens the file and cuts it into the lines that fgets
-- returns, and Config has trim, the section buffer, in which a write outside is a fault, and the
-- assignments. atoi is a parameter, which may be any function.
--
-- Execute models server/parsing.c over a record of the device manager's functions, with the state of the
-- devices as a parameter.
--
-- Wav models server/device/buzzer/wav_reader.h and wav_reader.c: the header in Wav, the samples in
-- Wav.Samples, on a stream of bytes (Wav.Reading) for the opened file; Wav.Encode writes files. The loop
-- over the chunks runs on fuel: each round reads eight bytes, so one round more than there are bytes is
-- enough.
--
-- Buzzer models server/device/buzzer/buzzer.c: the output with its lock and the delays in Buzzer itself,
-- the pitch tracker in Buzzer.Tracker, the notes in Buzzer.Melody, playing in Buzzer.Playback, and the
-- way from a file to notes with buzzer_music in Buzzer.Build. The state keeps the trace of softToneWrite
-- and delay. A list says before which uses of buzzer_lock another thread has called stop_output(true), so
-- a theorem for every list covers every interleaving. realloc, fopen and pitch_detect_note are parameters there.
-- A delay of n ms needs n + 1 rounds of fuel, and building a melody one more than there are bytes.
--
-- Pitch models server/device/buzzer/pitch_detector.h and pitch_detector.c. The operations of float and
-- double and the functions of math.h are a record of parameters, Pitch.Arithmetic, with laws only for <.
--
-- Socket models server/socket.c: socket_init in Socket.Listen, the client table, and the loop of service on the events that epoll_wait
-- reports, with what accept, epoll_ctl and recv return for each. The trace keeps what the server asks of
-- the kernel. Socket.Clients says what the kernel may report: descriptors that are open, and new ones that
-- are not. The loop is recursion on the events; it waits for more where they end.
--
-- Client models the console of client/main.c: the output and the sends of each round of the loop, for what
-- poll, recv and fgets report. Client.Start is its main.
--
-- ServerLog models server/server_log.c; the text of the time and the client's address are arguments.
--
-- Startup models server/main.c: the daemon over a kernel that is a parameter, whose descriptors behave as
-- POSIX documents (Startup.Descriptors), and main with each of its ends. device_cleanup runs on fuel, and
-- any number above the tasks then queued for the buzzer is enough.
--
-- Not modelled: the set-up of signals, printed texts but for those of the console and of the log, and
-- the debug output of the buzzer. main ignores what load_app_config returns, and so does the model of main.
pub mod Base
pub mod Command
pub mod DeviceResult
pub mod Device
pub mod Worker
pub mod Plugin
pub mod Manager
pub mod Execute
pub mod Wav
pub mod Buzzer
pub mod Pitch
pub mod Socket
pub mod Client
pub mod Startup
pub mod Config
pub mod ServerLog
mod Tests
