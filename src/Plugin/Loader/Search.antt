-- ===== src/Plugin/Loader/Search.antt =====
-- The order in which plugin_loader_open looks for a library.
use tcpremote_device_control.Base.{
  ℕ, ◌≡◌, refl, ap, ◌∙◌, sym, List, [], ◌∷◌, ◌++◌, Option, none, some, Bytes, codes, Option-cases,
  inl, inr,
}
use tcpremote_device_control.Plugin.Loader.{
  System, path_max, path, get_executable_dir, try_open_path, ◌or_else◌, try_open_from_base_dir,
  plugin_loader_open, try_open_beside,
}

-- The paths to try in a directory: the library itself, and the one in a directory of its own.
abbrev pub in_dir : Bytes → Bytes → Bytes → List Bytes
in_dir dir sub name =
    path (dir ++ codes "/lib" ++ name ++ codes ".so")
    ∷ path (dir ++ sub ++ name ++ codes "/lib" ++ name ++ codes ".so")
    ∷ []

-- A variable that is not set or empty names no directory.
abbrev from_variable : Option Bytes → Bytes → List Bytes
from_variable none name = []
from_variable (some []) name = []
from_variable (some (c ∷ s)) name = in_dir (c ∷ s) (codes "/") name

abbrev beside_server : Option Bytes → Bytes → List Bytes
beside_server none name = []
beside_server (some dir) name = in_dir dir (codes "/device/") name

abbrev pub candidates : System → Bytes → List Bytes
candidates sys name =
    from_variable (sys.getenv (codes "PLUGIN_LIB_DIR")) name
    ++ (from_variable (sys.getenv (codes "DEVICE_LIB_DIR")) name
        ++ (beside_server (get_executable_dir sys path_max) name
            ++ (in_dir (codes ".") (codes "/device/") name
                ++ path (codes "lib" ++ name ++ codes ".so") ∷ [])))

abbrev pub first_loaded : (Bytes → Option ℕ) → List Bytes → Option ℕ
first_loaded dlopen [] = none
first_loaded dlopen (p ∷ ps) = dlopen p or_else first_loaded dlopen ps

first_loaded-append :
    (f : Bytes → Option ℕ) (ps qs : List Bytes)
    → first_loaded f (ps ++ qs) ≡ (first_loaded f ps or_else first_loaded f qs)
first_loaded-append f [] qs = refl
first_loaded-append f (p ∷ ps) qs = elim (Option-cases (f p)) [
  | inl e ↦ rw (e, first_loaded-append f ps qs)
  | inr (h, e) ↦ rw e
]

or_else_none : (h : Option ℕ) → (h or_else none) ≡ h
or_else_none none = refl
or_else_none (some h) = refl

base_dir-first :
    (sys : System) (v : Option Bytes) (name : Bytes)
    → try_open_from_base_dir sys v name ≡ first_loaded sys.dlopen (from_variable v name)
unfolding try_open_from_base_dir try_open_path
base_dir-first sys none name = refl
base_dir-first sys (some []) name = refl
base_dir-first sys (some (c ∷ s)) name =
    ap (λ r. sys.dlopen (path ((c ∷ s) ++ codes "/lib" ++ name ++ codes ".so")) or_else r)
      (sym (or_else_none _))

beside-first :
    (sys : System) (v : Option Bytes) (name : Bytes)
    → try_open_beside sys v name ≡ first_loaded sys.dlopen (beside_server v name)
unfolding try_open_path
beside-first sys none name = refl
beside-first sys (some dir) name =
    ap (λ r. sys.dlopen (path (dir ++ codes "/lib" ++ name ++ codes ".so")) or_else r)
      (sym (or_else_none _))

first_of_four :
    (f : Bytes → Option ℕ) (xs bs cs ds : List Bytes)
    → first_loaded f (xs ++ (bs ++ (cs ++ ds))) ≡ (
        first_loaded f xs
        or_else first_loaded f bs
        or_else first_loaded f cs
        or_else first_loaded f ds)
first_of_four f xs bs cs ds = rw (
  first_loaded-append f xs (bs ++ (cs ++ ds)),
  first_loaded-append f bs (cs ++ ds),
  first_loaded-append f cs ds,
)

or_else_cong :
    (a a' b b' c c' d d' : Option ℕ)
    → a ≡ a'
    → b ≡ b'
    → c ≡ c'
    → d ≡ d'
    → (a or_else b or_else c or_else d) ≡ (a' or_else b' or_else c' or_else d')
or_else_cong a a' b b' c c' d d' ea eb ec ed = rw (ea, eb, ec, ed)

-- A library is the first that the dynamic linker loads from the candidate paths: the directory of
-- PLUGIN_LIB_DIR, that of DEVICE_LIB_DIR, the server's own, the current one, and the linker's search
-- path; in every directory but the last, the library itself before the one in a directory of its own.
pub plugin_loader_open-first :
    (sys : System) (c : ℕ) (s : Bytes)
    → plugin_loader_open sys (c ∷ s) ≡ first_loaded sys.dlopen (candidates sys (c ∷ s))
unfolding plugin_loader_open try_open_path
plugin_loader_open-first sys c s =
    or_else_cong _ _ _ _ _ _ _ _ (base_dir-first sys (sys.getenv (codes "PLUGIN_LIB_DIR")) (c ∷ s))
      (base_dir-first sys (sys.getenv (codes "DEVICE_LIB_DIR")) (c ∷ s))
      (beside-first sys (get_executable_dir sys path_max) (c ∷ s))
      (ap
        (λ r.
          sys.dlopen (path (codes "./lib" ++ (c ∷ s) ++ codes ".so"))
          or_else sys.dlopen
              (path (codes "./device/" ++ (c ∷ s) ++ codes "/lib" ++ (c ∷ s) ++ codes ".so"))
          or_else r)
        (sym (or_else_none _)))
    ∙ sym (
        first_of_four sys.dlopen (from_variable (sys.getenv (codes "PLUGIN_LIB_DIR")) (c ∷ s))
          (from_variable (sys.getenv (codes "DEVICE_LIB_DIR")) (c ∷ s))
          (beside_server (get_executable_dir sys path_max) (c ∷ s))
          (in_dir (codes ".") (codes "/device/") (c ∷ s)
            ++ path (codes "lib" ++ (c ∷ s) ++ codes ".so") ∷ []))
