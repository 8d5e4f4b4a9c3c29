-- ===== src/Socket/Full.antt =====
-- A client too many.
use tcpremote_device_control.Base.{
  ℕ, ◌+◌, ◌≡◌, refl, ap, ◌∙◌, subst, inl, inr, true, false, not, ◌&&◌, Bool-cases, List, [], ◌∷◌,
  Option, none, some, Bytes, ℤ, eqb_ℤ, arith, if◌then◌else◌, All, if-holds,
}
use tcpremote_device_control.Execute.{Devices, exec_command}
use tcpremote_device_control.Socket.{
  add_client, remove_client, no_client, Server, SocketCall, Event, log, send, accepts, refuses,
  receives, other, handle, handle_all, take_client, drop_client, answer, send_message, send_in,
  call,
}
use tcpremote_device_control.Socket.Clients.{count, count_if, IsDescriptor}

module _ {S : Type 0} where
  send_in_unlisted :
      (fds : List ℤ) (fd : ℤ) (str : Bytes) (s : Server S)
      → count fd fds ≡ 0
      → send_in fds fd str s ≡ s
  send_in_unlisted [] fd str s e = refl
  send_in_unlisted (x ∷ xs) fd str s e = elim (Bool-cases (eqb_ℤ x fd)) [
    | inl f ↦
        let one : count_if true + count fd xs ≡ 0 = subst (λ b. count_if b + count fd xs ≡ 0) f e in
        absurd (omega arith)
    | inr f ↦
        let rest : 0 + count fd xs ≡ 0 = subst (λ b. count_if b + count fd xs ≡ 0) f e in
        elim (Bool-cases (eqb_ℤ x no_client)) [
          | inl g ↦ simp g (send_in_unlisted xs fd str s (omega arith))
          | inr g ↦ simp (g, f) (send_in_unlisted xs fd str s (omega arith))
        ]
  ]

add_client_full : (fd : ℤ) (fds : List ℤ) → count no_client fds ≡ 0 → add_client fd fds ≡ fds
unfolding add_client
add_client_full fd [] e = refl
add_client_full fd (x ∷ xs) e = elim (Bool-cases (eqb_ℤ x no_client)) [
  | inl f ↦
      let one : count_if true + count no_client xs ≡ 0 =
        subst (λ b. count_if b + count no_client xs ≡ 0) f e in
      absurd (omega arith)
  | inr f ↦
      let rest : 0 + count no_client xs ≡ 0 =
        subst (λ b. count_if b + count no_client xs ≡ 0) f e in
      simp f (ap (λ l. x ∷ l) (add_client_full fd xs (omega arith)))
]

unlisted-add :
    (fd x : ℤ) (fds : List ℤ)
    → eqb_ℤ x fd ≡ false
    → count fd fds ≡ 0
    → count fd (add_client x fds) ≡ 0
unfolding add_client
unlisted-add fd x [] n e = refl
unlisted-add fd x (y ∷ ys) n e = elim (Bool-cases (eqb_ℤ y no_client)) [
  | inl f ↦ simp (f, n) (omega arith)
  | inr f ↦ let rest = unlisted-add fd x ys n (omega arith) in simp f (omega (arith, rest))
]

unlisted-remove :
    (fd x : ℤ) (fds : List ℤ)
    → IsDescriptor fd
    → count fd fds ≡ 0
    → count fd (remove_client x fds) ≡ 0
unfolding remove_client
unlisted-remove fd x [] i e = refl
unlisted-remove fd x (y ∷ ys) i e = elim (Bool-cases (eqb_ℤ y x)) [
  | inl f ↦ simp (f, i) (omega arith)
  | inr f ↦ let rest = unlisted-remove fd x ys i (omega arith) in simp f (omega (arith, rest))
]

-- How often something was sent to a descriptor.
abbrev pub sends_to : ℤ → List SocketCall → ℕ
sends_to fd [] = 0
sends_to fd (send x str ∷ calls) = count_if (eqb_ℤ x fd) + sends_to fd calls
sends_to fd (_ ∷ calls) = sends_to fd calls

-- The kernel does not hand out the descriptor again.
abbrev pub NotAccepted : ℤ → Event → Type 0
NotAccepted fd (accepts x watched) = eqb_ℤ x fd ≡ false
NotAccepted fd _ = Unit {0}

module _ {S : Type 0} (d : Devices S) (fd : ℤ) (real : IsDescriptor fd) where
  -- A server that does not have the descriptor in its table and has sent n times to it.
  record IsMute (n : ℕ) (s : Server S) : Type 0 where
    unlisted : count fd s.client_fds ≡ 0
    unsent : sends_to fd s.calls ≡ n

  abbrev IsMuteIf : ℕ → Option (Server S) → Type 0
  IsMuteIf n none = Unit {0}
  IsMuteIf n (some s) = IsMute n s

  send_in-IsMute :
      (n : ℕ) (fds : List ℤ) (x : ℤ) (str : Bytes) (s : Server S)
      → count fd fds ≡ 0
      → IsMute n s
      → IsMute n (send_in fds x str s)
  send_in-IsMute n [] x str s e m = m
  send_in-IsMute n (y ∷ ys) x str s e m =
      if-holds (IsMute n) (not (eqb_ℤ y no_client) && eqb_ℤ y x) _ _
        (λ f. record { unlisted = m.unlisted; unsent = omega (arith, m.unsent) })
        (λ f. send_in-IsMute n ys x str s (omega arith) m)

  handle-IsMute :
      (n : ℕ) (e : Event) (s : Server S) → NotAccepted fd e → IsMute n s → IsMuteIf n (handle d e s)
  unfolding handle take_client drop_client answer send_message
  handle-IsMute n (accepts x watched) s new m =
      if-holds (IsMute n) watched _ _
        (λ f. record {
          unlisted = unlisted-add fd x s.client_fds new m.unlisted;
          unsent = m.unsent;
        })
        (λ f. record { unlisted = m.unlisted; unsent = m.unsent })
  handle-IsMute n refuses s new m = tt
  handle-IsMute n (receives x none) s new m = record {
    unlisted = unlisted-remove fd x s.client_fds real m.unlisted;
    unsent = m.unsent;
  }
  handle-IsMute n (receives x (some [])) s new m = record {
    unlisted = unlisted-remove fd x s.client_fds real m.unlisted;
    unsent = m.unsent;
  }
  handle-IsMute n (receives x (some (c ∷ bytes))) s new m =
      send_in-IsMute n s.client_fds x _ _ m.unlisted
        (record { unlisted = m.unlisted; unsent = m.unsent })
  handle-IsMute n (other x) s new m = m

  handle_all-IsMute :
      (n : ℕ) (es : List Event) (s s' : Server S)
      → All (NotAccepted fd) es
      → handle_all d es s ≡ some s'
      → IsMute n s
      → IsMute n s'
  unfolding handle_all
  handle_all-IsMute n [] s s' new goes m = subst (IsMuteIf n) goes m
  handle_all-IsMute n (e ∷ es) s s' new goes m =
      rest (handle d e s) goes (handle-IsMute n e s new.0 m)
        (λ t k q. handle_all-IsMute n es t s' new.1 k q)
    where
      rest :
          (o : Option (Server S))
          → elim o [ none ↦ none | some t ↦ handle_all d es t ] ≡ some s'
          → IsMuteIf n o
          → ((t : Server S) → handle_all d es t ≡ some s' → IsMute n t → IsMute n s')
          → IsMute n s'
      rest none k q f = absurd cc
      rest (some t) k q f = f t k q

  -- A client that is accepted while the table is full, and whose descriptor is not accepted again: however
  -- the service goes on, nothing is sent to it any more; and each of its requests is executed and logged.
  pub take_client_full :
      (es : List Event) (s s' : Server S)
      → count no_client s.client_fds ≡ 0
      → count fd s.client_fds ≡ 0
      → All (NotAccepted fd) es
      → handle_all d (accepts fd true ∷ es) s ≡ some s'
      → (sends_to fd s'.calls ≡ sends_to fd s.calls)
        × ((request : Bytes)
            → let r = exec_command d request s'.devices in
              let t = answer d fd request s' in
              (t.devices ≡ r.devices) × (t.calls ≡ log fd request r.reply ∷ s'.calls))
  unfolding handle_all handle take_client answer send_message
  take_client_full es s s' full unlisted new goes =
      let same = add_client_full fd s.client_fds full in
      let m =
        handle_all-IsMute (sends_to fd s.calls) es (take_client fd true s) s' new goes
          (record { unlisted = ap (count fd) same ∙ unlisted; unsent = refl }) in
      (
        m.unsent,
        λ request.
            let silent =
              send_in_unlisted s'.client_fds fd (exec_command d request s'.devices).reply
                (call (log fd request (exec_command d request s'.devices).reply) (record s' {
                  running =
                      if (exec_command d request s'.devices).raised then false else s'.running;
                  devices = (exec_command d request s'.devices).devices;
                }))
                m.unlisted in
            (ap (λ (t : Server S). t.devices) silent, ap (λ (t : Server S). t.calls) silent),
      )
