-- ===== src/Network/RateLimiter/Tests.antt =====
-- The limiter at small sizes.
use ethereum_fetcher.Prelude.{
  ℕ, ◌+◌, ◌≤◌, ◌≡◌, refl, pos, negsuc, true, false, none, some, [], ◌∷◌, arith,
}
use ethereum_fetcher.Network.RateLimiter.{
  RateLimiter, allowed, denied, added, consume, refuse_empty, add, Run, start, next,
  effective_credits, new_rate_limiter,
}
use ethereum_fetcher.Network.RateLimiter.Bounds.{
  count_allowed, AreCredits, Starts, new_rate_limiter_state, window_bound,
}
use ethereum_fetcher.Network.RateLimiter.Shutdown.{stopped_bound}

abbrev limiter : ℕ → RateLimiter
limiter n = record { credits = n; max_credits = 2; wait = 500; refilling = true; cancelled = false }

abbrev off : RateLimiter
off = record (limiter 1) { refilling = false; cancelled = true }

default_is_used : effective_credits (negsuc 4) ≡ 10
unfolding effective_credits
default_is_used = refl

new_limiter : new_rate_limiter (pos 2) 1000 ≡ some (limiter 2)
unfolding new_rate_limiter
new_limiter = refl

period_of_zero : new_rate_limiter (pos 2000) 1000 ≡ none
unfolding new_rate_limiter
period_of_zero = refl

drained : Run (limiter 2) (allowed ∷ allowed ∷ []) (limiter 0)
drained = next (consume (omega arith)) (next (consume (omega arith)) start)

refilled : Run (limiter 0) (denied ∷ added ∷ allowed ∷ []) (limiter 0)
refilled =
    next (refuse_empty refl refl)
      (next (add refl (omega arith)) (next (consume (omega arith)) start))

new_rate_limiter_state_example :
    (n : ℕ) × AreCredits (negsuc 4) n × Starts (new_rate_limiter (negsuc 4) 1000) n 1000
new_rate_limiter_state_example = new_rate_limiter_state (negsuc 4) 1000

window_bound_example :
    (count_allowed (denied ∷ added ∷ allowed ∷ []) + 0 ≡ 0 + 1)
    × (count_allowed (denied ∷ added ∷ allowed ∷ []) ≤ effective_credits (pos 2) + 1)
window_bound_example = window_bound (pos 2) 1000 new_limiter drained refilled

last_credit : Run off (allowed ∷ []) (record off { credits = 0 })
last_credit = next (consume (omega arith)) start

stopped_bound_example : count_allowed (allowed ∷ []) ≤ 1
stopped_bound_example = stopped_bound {rl = off} refl last_credit
