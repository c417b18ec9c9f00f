-- ===== src/Algorithms.antt =====
-- app/services/algorithms.py. Times and counts are natural numbers; a test `value > now - window`
-- is written with the sum, since a difference of natural numbers stops at 0, while
-- `max(0, a - b)` is that difference. `reset_at_ms` is a natural number, and `retry_after_ms`
-- is an integer, since the token bucket takes it from `math.ceil` with no bound below.
pub mod FixedWindow
pub mod SlidingWindow
pub mod TokenBucket
use distributed_rate_limiter.Base.{ℕ, Bool}
use distributed_rate_limiter.Base.Int.{ℤ}

pub record RateLimitComputation (F : Type 0) : Type 0 where
  pub allowed : Bool
  pub remaining : ℕ
  pub reset_at_ms : ℕ
  pub retry_after_ms : ℤ
  pub observed_value : F
