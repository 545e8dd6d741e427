-- ===== src/Network/RateLimiter.antt =====
-- internal/network/ratelimiter.go: the credits channel, the goroutine that refills it, and the
-- callers that take from it, as steps that may interleave in any order. A `select` with more than
-- one ready case may take any of them.
pub mod Bounds
pub mod Shutdown
mod Tests
use ethereum_fetcher.Prelude.{
  ℕ, zero, suc, ◌+◌, ◌-◌, ◌*◌, ◌/◌, ◌<◌, ◌≤◌, ◌≡◌, ℤ, pos, negsuc, Bool, true, false, Option, none,
  some, List, [], ◌∷◌, ◌==◌, ltb, if◌then◌else◌,
}

-- `DefaultNodeCredit` of cmd/config.go
abbrev pub default_node_credit : ℕ
default_node_credit = 10

-- `credits` is the number of values in the channel and `max_credits` its capacity; `refilling`
-- says that the goroutine of the constructor still runs, `cancelled` that the context is done.
pub record RateLimiter : Type 0 where
  pub credits : ℕ
  pub max_credits : ℕ
  pub wait : ℕ
  pub refilling : Bool
  pub cancelled : Bool

-- `if maxCredits <= 0 { maxCredits = cmd.DefaultNodeCredit }`
unfoldable pub effective_credits : ℤ → ℕ
effective_credits (pos zero) = default_node_credit
effective_credits (pos (suc n)) = suc n
effective_credits (negsuc n) = default_node_credit

-- the loop that prefills the channel, with the sends still to do
unfoldable pub prefill : ℕ → RateLimiter → RateLimiter
prefill zero rl = rl
prefill (suc n) rl = prefill n (record rl { credits = rl.credits + 1 })

-- `NewRateLimiter`, the interval in nanoseconds; `none` is the panic of `time.NewTicker` at a
-- period that is not positive. (That panic is in the goroutine, and ends the program.)
unfoldable pub new_rate_limiter : ℤ → ℕ → Option RateLimiter
unfolding effective_credits prefill
new_rate_limiter max_credits refill_interval =
    let n = effective_credits max_credits in
    let period = refill_interval / n in
    if period == 0
    then none
    else some (
        prefill n (record {
          credits = 0;
          max_credits = n;
          wait = period;
          refilling = true;
          cancelled = false;
        }))

-- What `Allow` returned, or what the refilling goroutine did at a tick.
pub data Label : Type 0 where
  allowed denied added dropped stopped cancel : Label

pub data Step (rl : RateLimiter) : Label → RateLimiter → Type 0 where
  -- `Allow`
  consume : 0 < rl.credits → Step rl allowed (record rl { credits = rl.credits - 1 })
  refuse_done : rl.cancelled ≡ true → Step rl denied rl
  refuse_empty : rl.credits ≡ 0 → rl.cancelled ≡ false → Step rl denied rl
  -- a tick of the refilling goroutine
  add :
      rl.refilling ≡ true
      → rl.credits < rl.max_credits
      → Step rl added (record rl { credits = rl.credits + 1 })
  stop :
      rl.refilling ≡ true → rl.cancelled ≡ true → Step rl stopped (record rl { refilling = false })
  full :
      rl.refilling ≡ true → rl.credits ≡ rl.max_credits → rl.cancelled ≡ false → Step rl dropped rl
  -- the application's context
  end : Step rl cancel (record rl { cancelled = true })

-- The steps of a history, oldest first.
pub data Run : RateLimiter → List Label → RateLimiter → Type 0 where
  start : {rl : RateLimiter} → Run rl [] rl
  next :
      {rl s t : RateLimiter} {l : Label} {ls : List Label}
      → Step rl l s
      → Run s ls t
      → Run rl (l ∷ ls) t

unfoldable pub wait_duration : RateLimiter → ℕ
wait_duration rl = rl.wait
