-- ===== src/Redis/Scripts/Replies.antt =====
-- The reply of a script that a computation of app/services/algorithms.py stands for.
use distributed_rate_limiter.Base.{if◌then◌else◌, ℕ}
use distributed_rate_limiter.Base.Int.{pos}
use distributed_rate_limiter.Algorithms.{RateLimitComputation}
use distributed_rate_limiter.Redis.Scripts.{Reply}

-- The answer that a computation of app/services/algorithms.py stands for.
abbrev pub reply_of : {F : Type 0} → ℕ → RateLimitComputation F → Reply
reply_of limit c = record {
  allowed = if c.allowed then 1 else 0;
  limit = limit;
  remaining = pos c.remaining;
  reset_at_ms = pos c.reset_at_ms;
  retry_ms = c.retry_after_ms;
}
