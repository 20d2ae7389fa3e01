-- ===== src/OptionLoop.antt =====
-- `while let Some(_) = reader.next() {}`, the loop by which the option readers check all the bytes, over
-- any reader.
use rpkt.Base.{
  ℕ, zero, suc, ◌<◌, Bool, Option, none, some, Outcome, ok, ◌>>=◌, ◌≡◌, refl, ◌⊎◌, inl, inr, ap,
  ◌∙◌, arith,
}

module _ {Opt It : Type 0} (next : It → Outcome (Option Opt × It)) (is_valid : It → Bool)
    (size : It → ℕ) where
  -- The loop, then `reader.valid`. `none` means that the fuel ran out.
  pub check_loop : ℕ → It → Outcome (Option Bool)
  check_loop zero it = ok none
  check_loop (suc fuel) it =
      next it >>= λ s. elim s.0 [ none ↦ ok (some (is_valid s.1)) | some opt ↦ check_loop fuel s.1 ]

  -- What one call of `next` does: it returns, and it gives nothing, or takes bytes, or leaves the
  -- reader as it is.
  abbrev pub Makes : It → Outcome (Option Opt × It) → Type 0
  Makes it o =
      (s : Option Opt × It) × (o ≡ ok s) × ((s.0 ≡ none) ⊎ ((size s.1 < size it) ⊎ (s.1 ≡ it)))

  check_loop-step :
      (fuel : ℕ) (it : It) (opt : Opt) (rest : It)
      → next it ≡ ok (some opt, rest)
      → check_loop (suc fuel) it ≡ check_loop fuel rest
  unfolding check_loop
  check_loop-step fuel it opt rest e = rw e

  check_loop-done :
      (fuel : ℕ) (it rest : It)
      → next it ≡ ok (none, rest)
      → check_loop (suc fuel) it ≡ ok (some (is_valid rest))
  unfolding check_loop
  check_loop-done fuel it rest e = rw e

  -- A reader that gives an option and stays as it is gives that option for ever.
  pub stalled :
      (it : It) (opt : Opt) → next it ≡ ok (some opt, it) → (n : ℕ) → check_loop n it ≡ ok none
  stalled it opt e zero = unfold check_loop in refl
  stalled it opt e (suc n) = check_loop-step n it opt it e ∙ stalled it opt e n

  carries_on :
      (it rest : It) (opt : Opt)
      → next it ≡ ok (some opt, rest)
      → ((n : ℕ) → check_loop n rest ≡ ok none)
      → (n : ℕ) → check_loop n it ≡ ok none
  carries_on it rest opt e h zero = unfold check_loop in refl
  carries_on it rest opt e h (suc n) = check_loop-step n it opt rest e ∙ h n

  abbrev pub Decides : ℕ → It → Type 0
  Decides fuel it =
      ((b : Bool) × (check_loop fuel it ≡ ok (some b))) ⊎ ((n : ℕ) → check_loop n it ≡ ok none)

  Decides-step :
      (fuel : ℕ) (it : It) (opt : Option Opt) (rest : It)
      → next it ≡ ok (opt, rest)
      → (opt ≡ none) ⊎ ((size rest < size it) ⊎ (rest ≡ it))
      → (size rest < size it → Decides fuel rest)
      → Decides (suc fuel) it
  Decides-step fuel it none rest e how ih = inl (is_valid rest, check_loop-done fuel it rest e)
  Decides-step fuel it (some opt) rest e (inl gone) ih = cc
  Decides-step fuel it (some opt) rest e (inr (inr same)) ih =
      inr (stalled it opt (e ∙ ap (λ r. ok (some opt, r)) same))
  Decides-step fuel it (some opt) rest e (inr (inl less)) ih = elim (ih less) [
    | inl (b, f) ↦ inl (b, check_loop-step fuel it opt rest e ∙ f)
    | inr never ↦ inr (carries_on it rest opt e never)
  ]

  pub check_loop-Decides :
      ((it : It) → Makes it (next it)) → (fuel : ℕ) (it : It) → size it < fuel → Decides fuel it
  check_loop-Decides makes zero it h = absurd (omega arith)
  check_loop-Decides makes (suc fuel) it h =
      let (s, e, how) = makes it in
      Decides-step fuel it s.0 s.1 e how (λ less. check_loop-Decides makes fuel s.1 (omega arith))

  -- A reader that takes bytes whenever it gives an option is done within one round more than there are
  -- bytes.
  pub check_loop-Returns :
      ((it : It) → (s : Option Opt × It) × (next it ≡ ok s) × ((s.0 ≡ none) ⊎ (size s.1 < size it)))
      → (fuel : ℕ) (it : It) → size it < fuel
      → (b : Bool) × (check_loop fuel it ≡ ok (some b))
  check_loop-Returns takes zero it h = absurd (omega arith)
  check_loop-Returns takes (suc fuel) it h =
      let (s, e, how) = takes it in
      at s.0 s.1 e how (λ less. check_loop-Returns takes fuel s.1 (omega arith))
    where
      at :
          (opt : Option Opt) (rest : It)
          → next it ≡ ok (opt, rest)
          → (opt ≡ none) ⊎ (size rest < size it)
          → (size rest < size it → (b : Bool) × (check_loop fuel rest ≡ ok (some b)))
          → (b : Bool) × (check_loop (suc fuel) it ≡ ok (some b))
      at none rest e how ih = (is_valid rest, check_loop-done fuel it rest e)
      at (some opt) rest e (inl gone) ih = cc
      at (some opt) rest e (inr less) ih =
          let (b, f) = ih less in (b, check_loop-step fuel it opt rest e ∙ f)
