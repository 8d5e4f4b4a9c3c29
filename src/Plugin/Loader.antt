-- ===== src/Plugin/Loader.antt =====
-- server/device/plugin_loader.c. The dynamic linker, the environment and the link to the executable
-- are parameters.
pub mod Search
use tcpremote_device_control.Base.{
  ℕ, ◌-◌, Bool, true, false, not, ◌||◌, ◌==◌, leb, if◌then◌else◌, List, [], ◌∷◌, ◌++◌, Option, none,
  some, length, take, Bytes, codes,
}
use tcpremote_device_control.DeviceResult.{DeviceResult, ok, symbol_load_failed}
use tcpremote_device_control.Plugin.Held.{Plugin, Event, acquire, release, library}

-- `none` is NULL. dlsym returns the symbol and whether dlerror reports an error behind it; readlink
-- gets the size of its buffer and returns what it read of /proc/self/exe, `none` on an error.
pub record System : Type 0 where
  pub dlopen : Bytes → Option ℕ
  pub dlsym : ℕ → Bytes → Option ℕ × Bool
  pub getenv : Bytes → Option Bytes
  pub readlink : ℕ → Option Bytes

abbrev pub path_max : ℕ
path_max = 4096

-- snprintf into `path`.
abbrev pub path : Bytes → Bytes
path text = take (8192 - 1) text

-- The string up to its last '/', if there is one.
unfoldable pub before_last_slash : Bytes → Option Bytes
before_last_slash [] = none
before_last_slash (c ∷ s) = elim (before_last_slash s) [
  | some front ↦ some (c ∷ front)
  | none ↦ if c == 47 then some [] else none
]

abbrev link_dir : ℕ → Option Bytes → Option Bytes
link_dir size none = none
link_dir size (some link) =
    if length link == 0 || leb size (length link) then none else before_last_slash link

unfoldable pub get_executable_dir : System → ℕ → Option Bytes
get_executable_dir sys size = if size == 0 then none else link_dir size (sys.readlink (size - 1))

unfoldable pub try_open_path : System → Bytes → Option ℕ
try_open_path sys p = sys.dlopen p

-- `if (handle != NULL) return handle;`
infixr 15 ◌or_else◌
abbrev pub ◌or_else◌ : Option ℕ → Option ℕ → Option ℕ
(some handle) or_else rest = some handle
none or_else rest = rest

unfoldable pub try_open_from_base_dir : System → Option Bytes → Bytes → Option ℕ
unfolding try_open_path
try_open_from_base_dir sys none name = none
try_open_from_base_dir sys (some []) name = none
try_open_from_base_dir sys (some (c ∷ s)) name =
    try_open_path sys (path ((c ∷ s) ++ codes "/lib" ++ name ++ codes ".so"))
    or_else try_open_path sys
        (path ((c ∷ s) ++ codes "/" ++ name ++ codes "/lib" ++ name ++ codes ".so"))

abbrev try_open_beside : System → Option Bytes → Bytes → Option ℕ
unfolding try_open_path
try_open_beside sys none name = none
try_open_beside sys (some exe_dir) name =
    try_open_path sys (path (exe_dir ++ codes "/lib" ++ name ++ codes ".so"))
    or_else try_open_path sys
        (path (exe_dir ++ codes "/device/" ++ name ++ codes "/lib" ++ name ++ codes ".so"))

unfoldable pub plugin_loader_open : System → Bytes → Option ℕ
unfolding try_open_path try_open_from_base_dir
plugin_loader_open sys [] = none
plugin_loader_open sys (c ∷ s) =
    let name = c ∷ s in
    try_open_from_base_dir sys (sys.getenv (codes "PLUGIN_LIB_DIR")) name
    or_else try_open_from_base_dir sys (sys.getenv (codes "DEVICE_LIB_DIR")) name
    or_else try_open_beside sys (get_executable_dir sys path_max) name
    or_else try_open_path sys (path (codes "./lib" ++ name ++ codes ".so"))
    or_else try_open_path sys
        (path (codes "./device/" ++ name ++ codes "/lib" ++ name ++ codes ".so"))
    or_else try_open_path sys (path (codes "lib" ++ name ++ codes ".so"))

abbrev symbol_of : Option ℕ × Bool → DeviceResult × Option ℕ
symbol_of (symbol, error) = (if error then symbol_load_failed else ok, symbol)

-- The result, and what `*symbol` is set to if it is written.
unfoldable pub plugin_loader_symbol : System → Option ℕ → Bytes → DeviceResult × Option ℕ
plugin_loader_symbol sys none name = (symbol_load_failed, none)
plugin_loader_symbol sys (some handle) name = symbol_of (sys.dlsym handle name)

-- The handle behind it, and the trace.
unfoldable pub plugin_loader_close : Plugin → Option ℕ → List Event → Option ℕ × List Event
plugin_loader_close p none log = (none, log)
plugin_loader_close p (some handle) log = (none, release (library p) ∷ log)
