-- ===== src/ServerLog.antt =====
-- server/server_log.c: the line that is printed for each command.
use tcpremote_device_control.Base.{
  ℕ, zero, suc, ◌<◌, ◌-◌, ◌≡◌, refl, ap, Bool, true, ◌||◌, not, ◌==◌, if◌then◌else◌, [], ◌∷◌,
  Option, none, some, Bytes, codes, length, take, ◌++◌, All, arith, Bool-cases, inl, inr, All-take,
  All-append, All-map, length-take, show_ℕ, digits-show_ℕ, is_digit,
}
use tcpremote_device_control.Execute.{buffer_size}

-- inet_ntoa and ntohs of what getpeername finds, or what stands for it.
abbrev pub peer_text : Option (Bytes × ℕ) → Bytes
peer_text none = codes "unknown:0"
peer_text (some (client_ip, client_port)) = client_ip ++ 58 ∷ show_ℕ client_port

-- The loop: `room` is how many bytes fit in front of the NUL.
unfoldable pub copy_line : ℕ → Bytes → Bytes
copy_line zero src = []
copy_line (suc room) [] = []
copy_line (suc room) (c ∷ src) = if c == 13 || c == 10 then [] else c ∷ copy_line room src

-- The string in `dest` afterwards; `none` if nothing is written.
unfoldable pub copy_single_line : ℕ → Option Bytes → Option Bytes
unfolding copy_line
copy_single_line zero src = none
copy_single_line (suc size) none = some []
copy_single_line (suc size) (some src) = some (copy_line size src)

-- The string in a buffer that was written.
abbrev pub buffer_text : Option Bytes → Bytes
buffer_text none = []
buffer_text (some s) = s

abbrev pub quoted : Bytes → Bytes
quoted text = 34 ∷ text ++ 34 ∷ []

-- The line printed. The arguments are what strftime leaves in time_text, what getpeername finds, and the
-- two strings.
unfoldable pub log_client_command : Bytes → Option (Bytes × ℕ) → Bytes → Bytes → Bytes
unfolding copy_single_line
log_client_command time_text peer request response =
    let request_text = buffer_text (copy_single_line buffer_size (some request)) in
    let response_text = buffer_text (copy_single_line buffer_size (some response)) in
    ((91 ∷ time_text ++ (codes "] " ++ (peer_text peer ++ 32 ∷ [])))
      ++ (quoted request_text ++ (codes " -> " ++ quoted response_text)))
    ++ 10 ∷ []

-- The bytes in front of the first CR or LF.
abbrev pub first_line : Bytes → Bytes
first_line [] = []
first_line (c ∷ s) = if c == 13 || c == 10 then [] else c ∷ first_line s

abbrev pub in_line : ℕ → Bool
in_line c = not (c == 13 || c == 10)

copy_line-first : (room : ℕ) (src : Bytes) → copy_line room src ≡ take room (first_line src)
unfolding copy_line
copy_line-first zero src = refl
copy_line-first (suc room) [] = refl
copy_line-first (suc room) (c ∷ src) = elim (Bool-cases (c == 13 || c == 10)) [
  | inl e ↦ simp e
  | inr e ↦ simp e (ap (◌∷◌ c) (copy_line-first room src))
]

first_line-in_line : (s : Bytes) → All (λ c. in_line c ≡ true) (first_line s)
first_line-in_line [] = tt
first_line-in_line (c ∷ s) = elim (Bool-cases (c == 13 || c == 10)) [
  | inl e ↦ simp e tt
  | inr e ↦ simp e (refl, first_line-in_line s)
]

take-in_line :
    (n : ℕ) (s : Bytes) → All (λ c. in_line c ≡ true) s → All (λ c. in_line c ≡ true) (take n s)
take-in_line n s h = All-take (λ c. in_line c ≡ true) n s h

-- A string is copied up to its first CR or LF or to the end of the buffer, whichever comes first:
-- the copy fits the buffer with its NUL and is one line.
pub copy_single_line-one_line :
    (size : ℕ) (src : Bytes)
    → (copy_single_line (suc size) (some src) ≡ some (take size (first_line src)))
      × (length (take size (first_line src)) < suc size)
      × All (λ c. in_line c ≡ true) (take size (first_line src))
unfolding copy_single_line
copy_single_line-one_line size src = (
  ap some (copy_line-first size src),
  omega (arith, length-take size (first_line src)),
  take-in_line size (first_line src) (first_line-in_line src),
)

-- No line end.
abbrev pub IsLine : Bytes → Type 0
IsLine = All (λ c. in_line c ≡ true)

-- No line end in the address, where there is one.
abbrev pub IsPeer : Option (Bytes × ℕ) → Type 0
IsPeer none = Unit {0}
IsPeer (some (client_ip, client_port)) = IsLine client_ip

digit-in_line : (c : ℕ) → is_digit c ≡ true → in_line c ≡ true
digit-in_line c h = ground arith

IsLine-append : (s t : Bytes) → IsLine s → IsLine t → IsLine (s ++ t)
IsLine-append s t h k = All-append (λ c. in_line c ≡ true) s t h k

peer_text-IsLine : (peer : Option (Bytes × ℕ)) → IsPeer peer → IsLine (peer_text peer)
peer_text-IsLine none h = (refl, (refl, (refl, (refl, (refl, (refl, (refl, (refl, (refl, tt)))))))))
peer_text-IsLine (some (ip, port)) h = IsLine-append ip (58 ∷ show_ℕ port) h (
  refl,
  All-map (λ c. is_digit c ≡ true) (λ c. in_line c ≡ true) (show_ℕ port) digit-in_line
      (digits-show_ℕ port),
)

-- Up to its first line end and to the size of the buffer.
abbrev pub cut_line : Bytes → Bytes
cut_line text = take (buffer_size - 1) (first_line text)

cut_line-IsLine : (text : Bytes) → IsLine (cut_line text)
cut_line-IsLine text = take-in_line (buffer_size - 1) (first_line text) (first_line-in_line text)

quoted-IsLine : (text : Bytes) → IsLine text → IsLine (quoted text)
quoted-IsLine text h = (refl, IsLine-append text (34 ∷ []) h (refl, tt))

-- Whatever bytes a client sends and is sent, one line is printed, if the time and the address have no
-- line end: it ends with the first lines of the two texts, cut to 1023 bytes and quoted, and a newline,
-- and has no other line end.
pub log_client_command-IsLine :
    (time_text : Bytes) (peer : Option (Bytes × ℕ)) (request response : Bytes)
    → IsLine time_text
    → IsPeer peer
    → (front : Bytes) × (log_client_command time_text peer request response
        ≡ (front ++ (quoted (cut_line request) ++ (codes " -> " ++ quoted (cut_line response))))
          ++ 10 ∷ [])
      × IsLine
          (front ++ (quoted (cut_line request) ++ (codes " -> " ++ quoted (cut_line response))))
unfolding log_client_command copy_single_line
log_client_command-IsLine time_text peer request response t p =
    let texts = quoted (cut_line request) ++ (codes " -> " ++ quoted (cut_line response)) in
    let front = 91 ∷ time_text ++ (codes "] " ++ (peer_text peer ++ 32 ∷ [])) in
    (
      front,
      rw (copy_line-first (buffer_size - 1) request, copy_line-first (buffer_size - 1) response)
          refl,
      IsLine-append front texts
          (
            refl,
            IsLine-append time_text _ t (
              refl,
              (refl, IsLine-append (peer_text peer) (32 ∷ []) (peer_text-IsLine peer p) (refl, tt)),
            ),
          )
          (IsLine-append (quoted (cut_line request)) _
            (quoted-IsLine (cut_line request) (cut_line-IsLine request))
            (
              refl,
              (refl, (refl, (refl, quoted-IsLine (cut_line response) (cut_line-IsLine response)))),
            )),
    )
