-- ===== src/Socket/Clients.antt =====
-- The client table holds the open clients.
use tcpremote_device_control.Base.{
  ℕ, zero, suc, ◌+◌, ◌<◌, ◌≤◌, ◌≡◌, refl, sym, ap, ◌∙◌, subst, inl, inr, Bool, true, false,
  Bool-cases, List, [], ◌∷◌, length, none, some, ℤ, eqb_ℤ, eqb_ℤ_iff, arith, if◌then◌else◌,
}
use tcpremote_device_control.Execute.{Devices}
use tcpremote_device_control.Socket.{
  add_client, remove_client, no_client, fill, max_clients, Server, Event, accepts, receives, handle,
}

abbrev pub count_if : Bool → ℕ
count_if b = if b then 1 else 0

-- How often a descriptor stands in a list.
abbrev pub count : ℤ → List ℤ → ℕ
count fd [] = 0
count fd (x ∷ xs) = count_if (eqb_ℤ x fd) + count fd xs

pub count-fill : (fd : ℤ) (n : ℕ) → eqb_ℤ no_client fd ≡ false → count fd (fill n) ≡ 0
count-fill fd zero e = refl
count-fill fd (suc n) e = simp (e, count-fill fd n e) (omega arith)

eqb_ℤ_swap : (a b : ℤ) → eqb_ℤ a b ≡ eqb_ℤ b a
eqb_ℤ_swap a b = elim (Bool-cases (eqb_ℤ a b)) [
  | inl e ↦ let same = (eqb_ℤ_iff a b).0 e in e ∙ sym ((eqb_ℤ_iff b a).1 (sym same))
  | inr e ↦ elim (Bool-cases (eqb_ℤ b a)) [
    | inl f ↦ let same = (eqb_ℤ_iff b a).0 f in (eqb_ℤ_iff a b).1 (sym same) ∙ sym f
    | inr f ↦ e ∙ sym f
  ]
]

pub count-rest :
    (fd x : ℤ) (xs : List ℤ) → 0 < count fd (x ∷ xs) → eqb_ℤ x fd ≡ false → 0 < count fd xs
count-rest fd x xs h e =
    let k : 0 < 0 + count fd xs = subst (λ b. 0 < count_if b + count fd xs) e h in omega arith

-- A free cell is used up for the new client.
count-add_client :
    (fd client_fd : ℤ) (fds : List ℤ)
    → 0 < count no_client fds
    → count fd (add_client client_fd fds) + count_if (eqb_ℤ no_client fd)
      ≡ count fd fds + count_if (eqb_ℤ client_fd fd)
unfolding add_client
count-add_client fd client_fd [] h = absurd (omega arith)
count-add_client fd client_fd (x ∷ xs) h = elim (Bool-cases (eqb_ℤ x no_client)) [
  | inl e ↦ let same : x ≡ no_client = (eqb_ℤ_iff x no_client).0 e in simp e (rw same (omega arith))
  | inr e ↦
      let rest : 0 < count no_client xs = count-rest no_client x xs h e in
      simp e (omega (arith, count-add_client fd client_fd xs rest))
]

-- One cell of the client is free again.
count-remove_client :
    (fd client_fd : ℤ) (fds : List ℤ)
    → 0 < count client_fd fds
    → count fd (remove_client client_fd fds) + count_if (eqb_ℤ client_fd fd)
      ≡ count fd fds + count_if (eqb_ℤ no_client fd)
unfolding remove_client
count-remove_client fd client_fd [] h = absurd (omega arith)
count-remove_client fd client_fd (x ∷ xs) h = elim (Bool-cases (eqb_ℤ x client_fd)) [
  | inl e ↦ let same : x ≡ client_fd = (eqb_ℤ_iff x client_fd).0 e in simp e (rw same (omega arith))
  | inr e ↦
      let rest : 0 < count client_fd xs = count-rest client_fd x xs h e in
      simp e (omega (arith, count-remove_client fd client_fd xs rest))
]

-- The open descriptors without one of them.
abbrev pub without : ℤ → List ℤ → List ℤ
without fd [] = []
without fd (x ∷ xs) = if eqb_ℤ x fd then xs else x ∷ without fd xs

count-without :
    (fd client_fd : ℤ) (xs : List ℤ)
    → 0 < count client_fd xs
    → count fd (without client_fd xs) + count_if (eqb_ℤ client_fd fd) ≡ count fd xs
count-without fd client_fd [] h = absurd (omega arith)
count-without fd client_fd (x ∷ xs) h = elim (Bool-cases (eqb_ℤ x client_fd)) [
  | inl e ↦ let same : x ≡ client_fd = (eqb_ℤ_iff x client_fd).0 e in simp e (rw same (omega arith))
  | inr e ↦
      let rest : 0 < count client_fd xs = count-rest client_fd x xs h e in
      simp e (omega (arith, count-without fd client_fd xs rest))
]

length-without : (fd : ℤ) (xs : List ℤ) → 0 < count fd xs → suc (length (without fd xs)) ≡ length xs
length-without fd [] h = absurd (omega arith)
length-without fd (x ∷ xs) h = elim (Bool-cases (eqb_ℤ x fd)) [
  | inl e ↦ simp e refl
  | inr e ↦
      let rest : 0 < count fd xs = count-rest fd x xs h e in
      simp e (ap suc (length-without fd xs rest))
]

-- Descriptors are not negative.
abbrev pub IsDescriptor : ℤ → Type 0
IsDescriptor fd = eqb_ℤ no_client fd ≡ false

-- The table holds each open client once and else free cells, of which there are as many as clients may
-- still come.
pub record HoldsOpen (opened fds : List ℤ) : Type 0 where
  pub holds : (fd : ℤ) → IsDescriptor fd → count fd fds ≡ count fd opened
  pub once : (fd : ℤ) → count fd opened ≤ 1
  pub descriptors : count no_client opened ≡ 0
  pub room : count no_client fds + length opened ≡ max_clients

pub add_client-HoldsOpen :
    (client_fd : ℤ) (opened fds : List ℤ)
    → HoldsOpen opened fds
    → IsDescriptor client_fd
    → count client_fd opened ≡ 0
    → length opened < max_clients
    → HoldsOpen (client_fd ∷ opened) (add_client client_fd fds)
add_client-HoldsOpen client_fd opened fds h e new few =
    let free : 0 < count no_client fds = omega (arith, h.room) in
    let e' : eqb_ℤ client_fd no_client ≡ false = eqb_ℤ_swap client_fd no_client ∙ e in
    record {
      holds = λ fd i.
          let k = count-add_client fd client_fd fds free in
          let zeroed : count_if (eqb_ℤ no_client fd) ≡ 0 = ap count_if i in
          omega (arith, k, zeroed, h.holds fd i);
      once = λ fd. elim (Bool-cases (eqb_ℤ client_fd fd)) [
        | inl f ↦
            let same : client_fd ≡ fd = (eqb_ℤ_iff client_fd fd).0 f in
            let none_yet : count fd opened ≡ 0 = subst (λ x. count x opened ≡ 0) same new in
            simp (f, none_yet) (omega arith)
        | inr f ↦ simp f (omega (arith, h.once fd))
      ];
      descriptors = simp (e', h.descriptors) (omega arith);
      room =
          let k = count-add_client no_client client_fd fds free in
          let zeroed : count_if (eqb_ℤ client_fd no_client) ≡ 0 = ap count_if e' in
          omega (arith, k, zeroed, h.room);
    }

pub remove_client-HoldsOpen :
    (client_fd : ℤ) (opened fds : List ℤ)
    → HoldsOpen opened fds
    → IsDescriptor client_fd
    → 0 < count client_fd opened
    → HoldsOpen (without client_fd opened) (remove_client client_fd fds)
remove_client-HoldsOpen client_fd opened fds h e there =
    let held : 0 < count client_fd fds = omega (arith, h.holds client_fd e) in
    let e' : eqb_ℤ client_fd no_client ≡ false = eqb_ℤ_swap client_fd no_client ∙ e in
    record {
      holds = λ fd i.
          let k = count-remove_client fd client_fd fds held in
          let w = count-without fd client_fd opened there in
          let zeroed : count_if (eqb_ℤ no_client fd) ≡ 0 = ap count_if i in
          omega (arith, k, w, zeroed, h.holds fd i);
      once = λ fd. omega (arith, count-without fd client_fd opened there, h.once fd);
      descriptors =
          let w = count-without no_client client_fd opened there in omega (arith, w, h.descriptors);
      room =
          let k = count-remove_client no_client client_fd fds held in
          let zeroed : count_if (eqb_ℤ client_fd no_client) ≡ 0 = ap count_if e' in
          let l = length-without client_fd opened there in omega (arith, k, zeroed, l, h.room);
    }

-- What the kernel reports: a new descriptor is not open yet, and only open ones are read. The clients
-- are at most as many as the table has cells.
abbrev pub IsPossible : Event → List ℤ → Type 0
IsPossible (accepts fd watched) opened =
    IsDescriptor fd × (count fd opened ≡ 0) × (length opened < max_clients)
IsPossible (receives fd bytes) opened = IsDescriptor fd × (0 < count fd opened)
IsPossible e opened = Unit {0}

-- The open descriptors behind an event.
abbrev pub still_open : Event → List ℤ → List ℤ
still_open (accepts fd true) opened = fd ∷ opened
still_open (receives fd none) opened = without fd opened
still_open (receives fd (some [])) opened = without fd opened
still_open e opened = opened

module _ {S : Type 0} (d : Devices S) where
  -- The states of the loop, each with the open descriptors.
  pub data Reaches (start : Server S) : Server S → List ℤ → Type 0 where
    started : Reaches start start []
    handled :
        (e : Event) (s s' : Server S) (opened : List ℤ)
        → Reaches start s opened
        → IsPossible e opened
        → handle d e s ≡ some s'
        → Reaches start s' (still_open e opened)
