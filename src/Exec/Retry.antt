-- ===== src/Exec/Retry.antt =====
-- Loops that try until an attempt ends them, on fuel.
use ethereum_fetcher.Prelude.{
  ℕ, zero, suc, ◌+◌, ◌≤◌, ◌<◌, ◌≡◌, refl, subst, ◌∙◌, ◌⊎◌, inl, inr, Option, none, some, arith,
  Option-cases,
}

module _ {A : Type 0} (attempt : ℕ → Option A) where
  -- `attempt i` ends the loop with a value, or is followed by the next one.
  unfoldable pub retry : (fuel i : ℕ) → Option A
  retry zero i = none
  retry (suc fuel) i =
      let rest = retry fuel (suc i) in elim (attempt i) [ none ↦ rest | some a ↦ some a ]

  -- The attempt `n` is the first from `i` on that ends the loop, and ends it with `a`.
  abbrev pub EndsAt : (i n : ℕ) → A → Type 0
  EndsAt i n a = (attempt n ≡ some a) × ((m : ℕ) → i ≤ m → m < n → attempt m ≡ none)

  retry_again : (fuel i : ℕ) → attempt i ≡ none → retry (suc fuel) i ≡ retry fuel (suc i)
  unfolding retry
  retry_again fuel i e = rw (e, retry) refl

  retry_done : (fuel i : ℕ) (a : A) → attempt i ≡ some a → retry (suc fuel) i ≡ some a
  unfolding retry
  retry_done fuel i a e = rw (e, retry) refl

  pub retry-EndsAt :
      (fuel i k : ℕ) (b : A)
      → i ≤ k
      → k < i + fuel
      → attempt k ≡ some b
      → (n : ℕ) × (a : A) × (n ≤ k) × EndsAt i n a × (retry fuel i ≡ some a)
  retry-EndsAt zero i k b low high e = absurd (omega arith)
  retry-EndsAt (suc fuel) i k b low high e = elim (Option-cases (attempt i)) [
    | inl again ↦ elim (le-cases i k low) [
      | inl same ↦ absurd (ended k b e (same_attempt i k same again))
      | inr later ↦
          let (n, a, below, (at_n, before), found) =
            retry-EndsAt fuel (suc i) k b later (omega arith) e in
          (n, a, below, (at_n, λ m. earlier m i n again before), retry_again fuel i again ∙ found)
    ]
    | inr (a, ends) ↦
        (i, a, low, (ends, λ m from until. absurd (omega arith)), retry_done fuel i a ends)
  ]
    where
      le-cases : (i k : ℕ) → i ≤ k → (i ≡ k) ⊎ (suc i ≤ k)
      le-cases i k h = ground arith

      same_attempt : (i k : ℕ) → i ≡ k → attempt i ≡ none → attempt k ≡ none
      same_attempt i k p = subst (λ m. attempt m ≡ none) p

      ended : (k : ℕ) (b : A) → attempt k ≡ some b → attempt k ≡ none → ⊥
      ended k b e e' = cc

      earlier :
          (m i n : ℕ)
          → attempt i ≡ none
          → ((m : ℕ) → suc i ≤ m → m < n → attempt m ≡ none)
          → i ≤ m
          → m < n
          → attempt m ≡ none
      earlier m i n again before from until = elim (le-cases i m from) [
        | inl same ↦ same_attempt i m same again
        | inr later ↦ before m later until
      ]

  pub retry-none : ((i : ℕ) → attempt i ≡ none) → (fuel i : ℕ) → retry fuel i ≡ none
  unfolding retry
  retry-none never zero i = refl
  retry-none never (suc fuel) i = retry_again fuel i (never i) ∙ retry-none never fuel (suc i)
