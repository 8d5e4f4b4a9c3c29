-- ===== src/Config/Trim.antt =====
-- What trim leaves of a string.
use tcpremote_device_control.Base.{
  ℕ, ◌≡◌, refl, ap, ◌∙◌, true, false, [], ◌∷◌, ◌++◌, All, is_space, Bytes, Bool-cases, inl, inr,
}
use tcpremote_device_control.Config.{skip_space, put_front, cut_end, trim, last_or}

abbrev pub Blank : Bytes → Type 0
Blank s = All (λ c. is_space c ≡ true) s

-- Neither the first nor the last byte, if there is one, is white space.
abbrev pub StartsSolid : Bytes → Type 0
StartsSolid [] = Unit {0}
StartsSolid (c ∷ s) = is_space c ≡ false

abbrev pub EndsSolid : Bytes → Type 0
EndsSolid [] = Unit {0}
EndsSolid (c ∷ s) = is_space (last_or c s) ≡ false

skip_space-front :
    (s : Bytes)
    → (front : Bytes) × (s ≡ front ++ skip_space s) × Blank front × StartsSolid (skip_space s)
unfolding skip_space
skip_space-front [] = ([], refl, tt, tt)
skip_space-front (c ∷ s) = elim (Bool-cases (is_space c)) [
  | inl e ↦
      let (front, eq, blank, solid) = skip_space-front s in
      (c ∷ front, simp e (ap (◌∷◌ c) eq), (e, blank), simp e solid)
  | inr e ↦ ([], simp e, tt, simp e)
]

-- One more byte in front of what is left and what is cut off.
put_front-back :
    (c : ℕ) (s t back : Bytes)
    → s ≡ t ++ back
    → Blank back
    → EndsSolid t
    → (back' : Bytes) × (c ∷ s ≡ put_front c t ++ back') × Blank back' × EndsSolid (put_front c t)
put_front-back c s [] back e blank solid = elim (Bool-cases (is_space c)) [
  | inl h ↦ (c ∷ back, simp h (ap (◌∷◌ c) e), (h, blank), simp h tt)
  | inr h ↦ (back, simp h (ap (◌∷◌ c) e), blank, simp h)
]
put_front-back c s (d ∷ t) back e blank solid = (back, ap (◌∷◌ c) e, blank, solid)

cut_end-back :
    (s : Bytes) → (back : Bytes) × (s ≡ cut_end s ++ back) × Blank back × EndsSolid (cut_end s)
unfolding cut_end
cut_end-back [] = ([], refl, tt, tt)
cut_end-back (c ∷ s) =
    let (back, e, blank, solid) = cut_end-back s in
    put_front-back c s (cut_end s) back e blank solid

put_front-start : (c : ℕ) (t : Bytes) → is_space c ≡ false → StartsSolid (put_front c t)
put_front-start c [] e = simp e
put_front-start c (d ∷ t) e = e

cut_end-start : (s : Bytes) → StartsSolid s → StartsSolid (cut_end s)
unfolding cut_end
cut_end-start [] h = tt
cut_end-start (c ∷ s) h = put_front-start c (cut_end s) h

-- A string is what trim leaves of it between two runs of white space, and what is left neither
-- starts nor ends with white space.
pub trim-solid :
    (s : Bytes)
    → (front : Bytes) × (back : Bytes) × (s ≡ front ++ (trim s ++ back))
      × Blank front
      × Blank back
      × StartsSolid (trim s)
      × EndsSolid (trim s)
unfolding trim
trim-solid s =
    let (front, e, blank, solid) = skip_space-front s in
    let (back, e', blank', solid') = cut_end-back (skip_space s) in
    (
      front,
      back,
      e ∙ ap (λ t. front ++ t) e',
      blank,
      blank',
      cut_end-start (skip_space s) solid,
      solid',
    )
