-- ===== src/Network.antt =====
-- internal/network: the rate limiter, and the node that fetches transactions.
pub mod RateLimiter
pub mod Node
pub mod Fetch
