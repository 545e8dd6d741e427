-- ===== src/Network/RateLimiter/Bounds.antt =====
-- How many requests the limiter lets through.
use ethereum_fetcher.Prelude.{
  ℕ, zero, suc, ◌+◌, ◌*◌, ◌/◌, ◌≤◌, ◌<◌, ◌≡◌, refl, ℤ, pos, negsuc, ◌∙◌, Bool-cases, ◌⊎◌, inl, inr,
  List, [], ◌∷◌, some, none, Option, arith, ◌==◌, Bool, ltb, true, false,
}
use ethereum_fetcher.Network.RateLimiter.{
  RateLimiter, Label, allowed, added, Step, consume, refuse_done, refuse_empty, add, stop, full,
  end, Run, start, next, effective_credits, prefill, new_rate_limiter,
}

-- How often a label stands in a history.
abbrev pub count_allowed : List Label → ℕ
count_allowed [] = 0
count_allowed (allowed ∷ ls) = suc (count_allowed ls)
count_allowed (_ ∷ ls) = count_allowed ls

abbrev pub count_added : List Label → ℕ
count_added [] = 0
count_added (added ∷ ls) = suc (count_added ls)
count_added (_ ∷ ls) = count_added ls

-- The channel never holds more than its capacity.
abbrev pub IsWithin : RateLimiter → Type 0
IsWithin rl = rl.credits ≤ rl.max_credits

Step-IsWithin :
    {rl s : RateLimiter} {l : Label}
    → Step rl l s
    → IsWithin rl
    → (IsWithin s) × (s.max_credits ≡ rl.max_credits)
Step-IsWithin (consume h) w = omega arith
Step-IsWithin (refuse_done c) w = omega arith
Step-IsWithin (refuse_empty e c) w = omega arith
Step-IsWithin (add r h) w = omega arith
Step-IsWithin (stop r c) w = omega arith
Step-IsWithin (full r e c) w = omega arith
Step-IsWithin end w = omega arith

Run-IsWithin :
    {rl s : RateLimiter} {ls : List Label}
    → Run rl ls s
    → IsWithin rl
    → (IsWithin s) × (s.max_credits ≡ rl.max_credits)
Run-IsWithin start w = omega arith
Run-IsWithin (next st r) w = let (w', same) = Step-IsWithin st w in omega (arith, Run-IsWithin r w')

-- Credits are neither made nor lost: what was there and what was added is what was taken and what
-- is left.
Run-conserves :
    {rl s : RateLimiter} {ls : List Label}
    → Run rl ls s
    → rl.credits + count_added ls ≡ s.credits + count_allowed ls
Run-conserves start = refl
Run-conserves (next (consume h) r) = omega (arith, Run-conserves r)
Run-conserves (next (refuse_done c) r) = omega (arith, Run-conserves r)
Run-conserves (next (refuse_empty e c) r) = omega (arith, Run-conserves r)
Run-conserves (next (add r' h) r) = omega (arith, Run-conserves r)
Run-conserves (next (stop r' c) r) = omega (arith, Run-conserves r)
Run-conserves (next (full r' e c) r) = omega (arith, Run-conserves r)
Run-conserves (next end r) = omega (arith, Run-conserves r)

prefill_lem :
    (n : ℕ) (rl : RateLimiter)
    → ((prefill n rl).credits ≡ rl.credits + n)
      × ((prefill n rl).max_credits ≡ rl.max_credits)
      × ((prefill n rl).wait ≡ rl.wait)
      × ((prefill n rl).refilling ≡ rl.refilling)
      × ((prefill n rl).cancelled ≡ rl.cancelled)
unfolding prefill
prefill_lem zero rl = (omega arith, refl, refl, refl, refl)
prefill_lem (suc n) rl = ground (arith, prefill_lem n (record rl { credits = rl.credits + 1 }))

effective_credits-pos : (k : ℤ) → 0 < effective_credits k
unfolding effective_credits
effective_credits-pos (pos zero) = omega arith
effective_credits-pos (pos (suc n)) = omega arith
effective_credits-pos (negsuc n) = omega arith

period_bounds :
    (interval n : ℕ) → 0 < n → (interval / n * n ≤ interval) × (interval < (interval / n + 1) * n)
period_bounds interval n h = grind arith

lt_of_period-zero : (interval n : ℕ) → 0 < n → interval / n ≡ 0 → interval < n
lt_of_period-zero interval n h e = grind (arith, (period_bounds interval n h).1)

abbrev is_positive : ℤ → Bool
is_positive (pos n) = ltb 0 n
is_positive (negsuc n) = false

-- The credits that are asked for where their number is positive, and else 10.
abbrev pub AreCredits : ℤ → ℕ → Type 0
AreCredits k n = ((is_positive k ≡ true) × (k ≡ pos n)) ⊎ ((is_positive k ≡ false) × (n ≡ 10))

-- A limiter of `n` credits is full, and its period is the interval divided by the credits, rounded
-- down. There is none exactly where that period would be zero.
abbrev pub Starts : Option RateLimiter → (n interval : ℕ) → Type 0
Starts made n interval =
    ((made ≡ none) × (interval < n))
    ⊎ ((rl : RateLimiter) × (made ≡ some rl)
        × (rl.credits ≡ n)
        × (rl.max_credits ≡ n)
        × (0 < rl.wait)
        × (rl.wait * n ≤ interval)
        × (interval < (rl.wait + 1) * n))

effective_credits-AreCredits : (k : ℤ) → AreCredits k (effective_credits k)
unfolding effective_credits
effective_credits-AreCredits (pos zero) = inr (refl, refl)
effective_credits-AreCredits (pos (suc n)) = inl (ground arith, refl)
effective_credits-AreCredits (negsuc n) = inr (refl, refl)

new_rate_limiter-Starts :
    (k : ℤ) (interval : ℕ) → Starts (new_rate_limiter k interval) (effective_credits k) interval
unfolding new_rate_limiter
new_rate_limiter-Starts k interval = elim (Bool-cases (interval / effective_credits k == 0)) [
  | inl zero_period ↦ inl (
    rw zero_period,
    lt_of_period-zero interval (effective_credits k) (effective_credits-pos k) (ground arith),
  )
  | inr ticks ↦
      let fresh : RateLimiter = record {
        credits = 0;
        max_credits = effective_credits k;
        wait = interval / effective_credits k;
        refilling = true;
        cancelled = false;
      } in
      let (filled, cap, period, _, _) = prefill_lem (effective_credits k) fresh in
      let (below, above) = period_bounds interval (effective_credits k) (effective_credits-pos k) in
      inr (
        prefill (effective_credits k) fresh,
        rw ticks,
        filled ∙ omega arith,
        cap,
        rw period (ground arith),
        rw period below,
        rw period above,
      )
]

-- A new limiter is full; it has the number of credits that is asked for, or 10 where that is not
-- positive; its period is the interval divided by the credits, rounded down. The constructor panics
-- exactly when that period would be zero.
pub new_rate_limiter_state :
    (k : ℤ) (interval : ℕ)
    → (n : ℕ) × AreCredits k n × Starts (new_rate_limiter k interval) n interval
new_rate_limiter_state k interval =
    (effective_credits k, effective_credits-AreCredits k, new_rate_limiter-Starts k interval)

fresh_is_full :
    (k : ℤ) (interval : ℕ) {rl : RateLimiter}
    → new_rate_limiter k interval ≡ some rl
    → (rl.credits ≡ effective_credits k) × (rl.max_credits ≡ effective_credits k)
fresh_is_full k interval {rl} new = elim (new_rate_limiter-Starts k interval) [
  | inl (crashed, _) ↦ absurd (cc)
  | inr (made, e, full_credits, cap, _, _, _) ↦
      let same : made ≡ rl = cc in (rw same at full_credits, rw same at cap)
]

-- In any window of the life of a limiter, the requests that it lets through are at most its credits
-- and the ticks of that window that added one: what it lets through is exactly what it held at the
-- start of the window and what was added, less what it holds at the end.
pub window_bound :
    (k : ℤ) (interval : ℕ) {rl s t : RateLimiter} {before window : List Label}
    → new_rate_limiter k interval ≡ some rl
    → Run rl before s
    → Run s window t
    → (count_allowed window + t.credits ≡ s.credits + count_added window)
      × (count_allowed window ≤ effective_credits k + count_added window)
window_bound k interval new r r' =
    let (full_credits, cap) = fresh_is_full k interval new in
    let (within, same) = Run-IsWithin r (omega arith) in omega (arith, Run-conserves r')
