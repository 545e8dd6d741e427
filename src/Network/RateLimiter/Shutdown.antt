-- ===== src/Network/RateLimiter/Shutdown.antt =====
-- The limiter after the application's context is cancelled.
use ethereum_fetcher.Prelude.{◌≤◌, ◌≡◌, List, arith, false}
use ethereum_fetcher.Network.RateLimiter.{
  RateLimiter, Label, consume, refuse_done, refuse_empty, add, stop, full, end, Run, start, next,
}
use ethereum_fetcher.Network.RateLimiter.Bounds.{count_allowed}

-- Once the refilling goroutine has stopped, no more requests are let through than credits are left,
-- however often `Allow` is called: with none left it never returns true again.
pub stopped_bound :
    {rl s : RateLimiter} {ls : List Label}
    → rl.refilling ≡ false
    → Run rl ls s
    → count_allowed ls ≤ rl.credits
stopped_bound off start = omega arith
stopped_bound off (next (consume h) r) = omega (arith, stopped_bound off r)
stopped_bound off (next (refuse_done c) r) = stopped_bound off r
stopped_bound off (next (refuse_empty e c) r) = stopped_bound off r
stopped_bound off (next (add on h) r) = cc
stopped_bound off (next (stop on c) r) = cc
stopped_bound off (next (full on e c) r) = cc
stopped_bound off (next end r) = stopped_bound off r
