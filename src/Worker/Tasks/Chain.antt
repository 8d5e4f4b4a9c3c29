-- ===== src/Worker/Tasks/Chain.antt =====
-- Singly linked lists of tasks in the heap.
use tcpremote_device_control.Base.{
  ℕ, ◌<◌, ◌≡◌, ◌≢◌, refl, ◌∙◌, List, [], ◌∷◌, ◌++◌, Option, none, some, All, arith,
}
use tcpremote_device_control.Worker.Tasks.{Task, update}

-- Addresses with their tasks; the `next` of a task here is of no account.
abbrev pub Cells : Type 0 → Type 0
Cells J = List (ℕ × Task J)

module _ {J : Type 0} where
  abbrev pub linked : Task J → Option ℕ → Task J
  linked t n = record t { next = n }

  -- The tasks reached from a pointer.
  abbrev pub Chain : (ℕ → Option (Task J)) → Option ℕ → Cells J → Type 0
  Chain f p [] = p ≡ none
  Chain f p ((x, t) ∷ cs) =
      (p ≡ some x) × ((n : Option ℕ) × (f x ≡ some (linked t n)) × Chain f n cs)

  abbrev pub Apart : ℕ → Cells J → Type 0
  Apart a = All (λ c. a ≢ c.0)

  abbrev pub Distinct : Cells J → Type 0
  Distinct [] = Unit {0}
  Distinct ((x, t) ∷ cs) = Apart x cs × Distinct cs

  abbrev pub last_address : Cells J → Option ℕ
  last_address [] = none
  last_address ((x, t) ∷ []) = some x
  last_address ((x, t) ∷ c ∷ cs) = last_address (c ∷ cs)

  pub update_ne :
      (f : ℕ → Option (Task J)) (a b : ℕ) (c : Option (Task J)) → a ≢ b → update f a c b ≡ f b
  update_ne f a b c h = ground arith

  pub update_self : (f : ℕ → Option (Task J)) (a : ℕ) (c : Option (Task J)) → update f a c a ≡ c
  update_self f a c = ground arith

  -- A write elsewhere leaves a chain alone.
  pub Chain-frame :
      (f : ℕ → Option (Task J)) (a : ℕ) (c : Option (Task J)) (p : Option ℕ) (cs : Cells J)
      → Apart a cs
      → Chain f p cs
      → Chain (update f a c) p cs
  Chain-frame f a c p [] h e = e
  Chain-frame f a c p ((x, t) ∷ cs) h (e, (n, g, r)) =
      (e, (n, update_ne f a x c h.0 ∙ g, Chain-frame f a c n cs h.1 r))

  pub last_Apart :
      (x y : ℕ) (c : ℕ × Task J) (cs : Cells J)
      → Apart x (c ∷ cs)
      → last_address (c ∷ cs) ≡ some y
      → y ≢ x
  last_Apart x y (z, t) [] h e q = h.0 (cc)
  last_Apart x y (z, t) (c ∷ cs) h e q = last_Apart x y c cs h.1 e q

  abbrev pub link : (ℕ → Option (Task J)) → ℕ → Task J → ℕ → ℕ → Option (Task J)
  link f y last z = update f y (some (linked last (some z)))

  -- Linking a new task behind the last one.
  pub Chain-append :
      (f : ℕ → Option (Task J)) (p : Option ℕ) (c : ℕ × Task J) (cs : Cells J) (y z : ℕ)
      (new : Task J)
      → Chain f p (c ∷ cs)
      → Distinct (c ∷ cs)
      → Apart z (c ∷ cs)
      → last_address (c ∷ cs) ≡ some y
      → f z ≡ some (linked new none)
      → (last : Task J) × (f y ≡ some last) × Chain (link f y last z) p (c ∷ (cs ++ (z, new) ∷ []))
  Chain-append f p (x, t) [] y z new (e, (n, g, r)) d h l fz =
      let same : x ≡ y = cc in
      let start : link f y (linked t n) z x ≡ some (linked t (some z)) =
        rw same (update_self f y _) in
      let new_there : link f y (linked t n) z z ≡ some (linked new none) =
        update_ne f y z _ (λ q. h.0 (cc)) ∙ fz in
      (linked t n, rw (← same) g, (e, (some z, start, (refl, (none, new_there, refl)))))
  Chain-append f p (x, t) (c ∷ cs) y z new (e, (n, g, r)) d h l fz =
      let (last, fy, rest) = Chain-append f n c cs y z new r d.1 h.1 l fz in
      let kept : link f y last z x ≡ some (linked t n) =
        update_ne f y x _ (last_Apart x y c cs d.0 l) ∙ g in
      (last, fy, (e, (n, kept, rest)))

  -- Two heaps that agree on the addresses of a chain hold the same chain.
  pub Chain-agree :
      (f g : ℕ → Option (Task J)) (n : ℕ) (p : Option ℕ) (cs : Cells J)
      → ((b : ℕ) → b < n → g b ≡ f b)
      → All (λ c. c.0 < n) cs
      → Chain f p cs
      → Chain g p cs
  Chain-agree f g n p [] same b e = e
  Chain-agree f g n p ((x, t) ∷ cs) same (b, bs) (e, (m, h, r)) =
      (e, (m, same x b ∙ h, Chain-agree f g n m cs same bs r))

  pub Chain-same :
      (f g : ℕ → Option (Task J)) (p : Option ℕ) (cs : Cells J)
      → All (λ c. g c.0 ≡ f c.0) cs
      → Chain f p cs
      → Chain g p cs
  Chain-same f g p [] same e = e
  Chain-same f g p ((x, t) ∷ cs) (s, rest) (e, (m, h, r)) =
      (e, (m, s ∙ h, Chain-same f g m cs rest r))

  pub Apart-same :
      (f g : ℕ → Option (Task J)) (x : ℕ) (cs : Cells J)
      → ((b : ℕ) → x ≢ b → g b ≡ f b)
      → Apart x cs
      → All (λ c. g c.0 ≡ f c.0) cs
  Apart-same f g x [] same a = tt
  Apart-same f g x ((y, t) ∷ cs) same (a, rest) = (same y a, Apart-same f g x cs same rest)
