-- ===== src/Socket/Replies.antt =====
-- Every request of an open client is answered.
use tcpremote_device_control.Base.{
  ℕ, ◌-◌, ◌<◌, ◌≡◌, refl, sym, ap, ◌∙◌, subst, inl, inr, true, false, not, ◌&&◌, Bool-cases, List,
  [], ◌∷◌, take, none, some, Bytes, ℤ, eqb_ℤ, eqb_ℤ_iff, arith, c_string, ◌⊎◌, Gives, if-holds,
  true≢false,
}
use tcpremote_device_control.Execute.{Devices, exec_command, buffer_size}
use tcpremote_device_control.Execute.Pieces.{IsAnswer}
use tcpremote_device_control.Execute.Answers.{exec_command-IsAnswer}
use tcpremote_device_control.Socket.{
  no_client, init_clients, max_clients, Server, Event, log, send, accepts, refuses, receives, other,
  handle, take_client, drop_client, answer, send_message, send_in,
}
use tcpremote_device_control.Socket.Clients.{
  count, count-rest, IsDescriptor, HoldsOpen, add_client-HoldsOpen, remove_client-HoldsOpen,
  IsPossible, still_open, Reaches, started, handled, count-fill,
}

-- A server whose loop begins.
abbrev pub new_server : {S : Type 0} → S → Server S
new_server devices = record {
  running = true;
  client_fds = init_clients;
  devices = devices;
  calls = [];
}

init_clients-HoldsOpen : HoldsOpen [] init_clients
init_clients-HoldsOpen = record {
  holds = λ fd i. count-fill fd max_clients i;
  once = λ fd. omega arith;
  descriptors = refl;
  room = refl;
}

module _ {S : Type 0} where
  send_in_table :
      (fds : List ℤ) (fd : ℤ) (str : Bytes) (s : Server S)
      → (send_in fds fd str s).client_fds ≡ s.client_fds
  send_in_table [] fd str s = refl
  send_in_table (x ∷ xs) fd str s =
      if-holds (λ (s' : Server S). s'.client_fds ≡ s.client_fds)
        (not (eqb_ℤ x no_client) && eqb_ℤ x fd) _ _ (λ e. refl) (λ e. send_in_table xs fd str s)

  pub send_in_calls :
      (fds : List ℤ) (fd : ℤ) (str : Bytes) (s : Server S)
      → IsDescriptor fd
      → 0 < count fd fds
      → (send_in fds fd str s).calls ≡ send fd str ∷ s.calls
  send_in_calls [] fd str s i h = absurd (omega arith)
  send_in_calls (x ∷ xs) fd str s i h = elim (Bool-cases (eqb_ℤ x fd)) [
    | inl e ↦
        let same : x ≡ fd = (eqb_ℤ_iff x fd).0 e in
        let no : eqb_ℤ x no_client ≡ false = not_free x fd same i in
        simp (e, no) (ap (λ y. send y str ∷ s.calls) same)
    | inr e ↦ elim (Bool-cases (eqb_ℤ x no_client)) [
      | inl f ↦ simp (f) (send_in_calls xs fd str s i (count-rest fd x xs h e))
      | inr f ↦ simp (f, e) (send_in_calls xs fd str s i (count-rest fd x xs h e))
    ]
  ]
    where
      not_free : (x fd : ℤ) → x ≡ fd → eqb_ℤ no_client fd ≡ false → eqb_ℤ x no_client ≡ false
      not_free x fd same i = elim (Bool-cases (eqb_ℤ x no_client)) [
        | inl f ↦
            let free : x ≡ no_client = (eqb_ℤ_iff x no_client).0 f in
            absurd (true≢false (sym ((eqb_ℤ_iff no_client fd).1 (sym free ∙ same)) ∙ i))
        | inr f ↦ f
      ]

module _ {S : Type 0} (d : Devices S) where
  handle-HoldsOpen :
      (e : Event) (s : Server S) (opened : List ℤ)
      → IsPossible e opened
      → HoldsOpen opened s.client_fds
      → Gives (λ s'. HoldsOpen (still_open e opened) s'.client_fds) (handle d e s)
        ⊎ (handle d e s ≡ none)
  unfolding handle take_client drop_client answer send_message
  handle-HoldsOpen (accepts fd true) s opened (i, new, few) h =
      inl (add_client-HoldsOpen fd opened s.client_fds h i new few)
  handle-HoldsOpen (accepts fd false) s opened p h = inl h
  handle-HoldsOpen refuses s opened p h = inr refl
  handle-HoldsOpen (receives fd none) s opened (i, there) h =
      inl (remove_client-HoldsOpen fd opened s.client_fds h i there)
  handle-HoldsOpen (receives fd (some [])) s opened (i, there) h =
      inl (remove_client-HoldsOpen fd opened s.client_fds h i there)
  handle-HoldsOpen (receives fd (some (c ∷ bytes))) s opened p h =
      inl (subst (HoldsOpen opened) (sym (send_in_table s.client_fds fd _ _)) h)
  handle-HoldsOpen (other fd) s opened p h = inl h

  -- In every state that the loop reaches, with at most as many clients at a time as the table has cells,
  -- the table holds each open client once, and the other cells are free.
  pub Reaches-HoldsOpen :
      (devices : S) (s : Server S) (opened : List ℤ)
      → Reaches d (new_server devices) s opened
      → HoldsOpen opened s.client_fds
  Reaches-HoldsOpen devices s opened started = init_clients-HoldsOpen
  Reaches-HoldsOpen devices s' opened' (handled e s t opened r p same) =
      elim (handle-HoldsOpen e s opened p (Reaches-HoldsOpen devices s opened r)) [
        | inl h ↦ subst (Gives (λ t. HoldsOpen (still_open e opened) t.client_fds)) same h
        | inr f ↦ absurd (some≢none s' (sym same ∙ f))
      ]
    where
      some≢none : (t : Server S) → (some t ≡ none) → ⊥
      some≢none t q = subst (Gives (λ u. Unit {0})) q tt

  -- In every state that the loop reaches, an open client that sends something is sent the answer to it,
  -- one line that begins with OK, ERR or DATA, and nothing else is sent.
  pub handle-answers :
      (devices : S) (s : Server S) (opened : List ℤ) (fd : ℤ) (c : ℕ) (bytes : Bytes)
      → Reaches d (new_server devices) s opened
      → IsDescriptor fd
      → 0 < count fd opened
      → Gives
          (λ s'.
            let request = c_string (take (buffer_size - 1) (c ∷ bytes)) in
            let reply = (exec_command d request s.devices).reply in
            (s'.calls ≡ send fd reply ∷ log fd request reply ∷ s.calls) × IsAnswer reply)
          (handle d (receives fd (some (c ∷ bytes))) s)
  unfolding handle answer send_message
  handle-answers devices s opened fd c bytes r i there =
      let h = Reaches-HoldsOpen devices s opened r in
      let request = c_string (take (buffer_size - 1) (c ∷ bytes)) in
      (
        send_in_calls s.client_fds fd _ _ i (omega (arith, h.holds fd i)),
        exec_command-IsAnswer d request s.devices,
      )
