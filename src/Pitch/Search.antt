-- ===== src/Pitch/Search.antt =====
-- The loop over the notes finds one that no other beats.
use tcpremote_device_control.Base.{
  ℕ, zero, suc, ◌+◌, ◌≤◌, ◌<◌, ◌≡◌, ◌⊎◌, inl, inr, refl, sym, ◌∙◌, subst, Bool, true, false,
  Bool-cases, Option, none, some, arith, true≢false, if-holds,
}
use tcpremote_device_control.Pitch.{Best, better, search_notes}
use tcpremote_device_control.Pitch.Arithmetic.{Floats, IsOrdered}

module _ {F D : Type 0} (fl : Floats F D) (ordered : IsOrdered fl) (breaks : ℕ → Bool)
    (score : ℕ → F) (first : ℕ) where
  -- The best note, if there is one, is a note that was tried, with its score; without one the score is 0.
  abbrev pub IsTried : ℕ → Option ℕ → F → Type 0
  IsTried last none s = s ≡ fl.literal 0 0
  IsTried last (some b) s = (first ≤ b) × (b < last) × (s ≡ score b)

  -- The notes from `first` up to `last` have been tried.
  pub record IsBest (last : ℕ) (best : Best fl) : Type 0 where
    pub tried : IsTried last best.midi_note best.score
    pub unbeaten : (k : ℕ) → first ≤ k → k < last → fl.lt best.score (score k) ≡ false

  unbeaten_still : (a b c : F) → fl.lt a b ≡ true → fl.lt a c ≡ false → fl.lt b c ≡ false
  unbeaten_still a b c l n = elim (Bool-cases (fl.lt b c)) [
    | inl e ↦ absurd (true≢false (sym (ordered.trans a b c l e) ∙ n))
    | inr e ↦ e
  ]

  -- k is the new note, or one of those before.
  up_to :
      (P : ℕ → Type 0) (last : ℕ)
      → ((k : ℕ) → first ≤ k → k < last → P k)
      → P last
      → (k : ℕ) → first ≤ k
      → k < suc last
      → P k
  up_to P last before here k l u = elim (cases k last u) [
    | inl e ↦ subst P (sym e) here
    | inr b ↦ before k l b
  ]
    where
      cases : (k last : ℕ) → k < suc last → (k ≡ last) ⊎ (k < last)
      cases k last u = ground arith

  IsTried-more : (last : ℕ) (o : Option ℕ) (s : F) → IsTried last o s → IsTried (suc last) o s
  IsTried-more last none s h = h
  IsTried-more last (some b) s (l, u, e) = (l, omega arith, e)

  better-IsBest :
      (last : ℕ) (best : Best fl)
      → first ≤ last
      → IsBest last best
      → IsBest (suc last) (better fl best last (score last))
  better-IsBest last best l h =
      if-holds (IsBest (suc last)) (fl.lt best.score (score last)) _ _
        (λ e. record {
          tried = (l, omega arith, refl);
          unbeaten =
              up_to (λ k. fl.lt (score last) (score k) ≡ false) last
                (λ k m u. unbeaten_still best.score (score last) (score k) e (h.unbeaten k m u))
                (ordered.irrefl (score last));
        })
        (λ e. record {
          tried = IsTried-more last best.midi_note best.score h.tried;
          unbeaten = up_to (λ k. fl.lt best.score (score k) ≡ false) last h.unbeaten e;
        })

  -- The loop ends behind the last note, or at one where it breaks.
  pub record Searched (last : ℕ) (best : Best fl) : Type 0 where
    pub end : ℕ
    pub at_least : first ≤ end
    pub at_most : end ≤ last
    pub stopped : (end ≡ last) ⊎ (breaks end ≡ true)
    pub heard : (k : ℕ) → first ≤ k → k < end → breaks k ≡ false
    pub is_best : IsBest end best

  pub search_notes-Searched :
      (n midi_note : ℕ) (best : Best fl)
      → first ≤ midi_note
      → ((k : ℕ) → first ≤ k → k < midi_note → breaks k ≡ false)
      → IsBest midi_note best
      → Searched (midi_note + n) (search_notes fl breaks score n midi_note best)
  unfolding search_notes
  search_notes-Searched zero midi_note best l h b = record {
    end = midi_note;
    at_least = l;
    at_most = omega arith;
    stopped = inl (omega arith);
    heard = h;
    is_best = b;
  }
  search_notes-Searched (suc n) midi_note best l h b =
      if-holds (Searched (midi_note + suc n)) (breaks midi_note) _ _
        (λ e. record {
          end = midi_note;
          at_least = l;
          at_most = omega arith;
          stopped = inr e;
          heard = h;
          is_best = b;
        })
        (λ e.
          let next = better fl best midi_note (score midi_note) in
          let r =
            search_notes-Searched n (suc midi_note) next (omega arith)
              (up_to (λ k. breaks k ≡ false) midi_note h e) (better-IsBest midi_note best l b) in
          let same : suc midi_note + n ≡ midi_note + suc n = omega arith in
          subst (λ m. Searched m (search_notes fl breaks score n (suc midi_note) next)) same r)
