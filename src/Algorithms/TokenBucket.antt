-- ===== src/Algorithms/TokenBucket.antt =====
-- `apply_token_bucket`, over the interface of `float`.
pub mod Bounds
pub mod Burst
use distributed_rate_limiter.Base.{
  Bool, List, Option, [], if◌then◌else◌, none, some, ℕ, ◌+◌, ◌-◌, ◌∷◌,
}
use distributed_rate_limiter.Base.Int.{pos, pos_part}
use distributed_rate_limiter.Float.{Float, fmin, fmax}
use distributed_rate_limiter.Algorithms.{RateLimitComputation}

pub record TokenBucketState (F : Type 0) : Type 0 where
  pub tokens : F
  pub last_refill_ms : ℕ

module _ (fl : Float) where
  open fl use {F, of_int, add, sub, mul, div, le, floor, ceil}

  -- `if state is None: state = TokenBucketState(...)`
  abbrev pub bucket_or_full : Option (TokenBucketState F) → ℕ → ℕ → TokenBucketState F
  bucket_or_full none capacity now_ms = record { tokens = of_int capacity; last_refill_ms = now_ms }
  bucket_or_full (some s) capacity now_ms = s

  -- `min(float(capacity), state.tokens + refill_amount)`
  unfoldable pub available : TokenBucketState F → ℕ → ℕ → F → F
  available s capacity now_ms refill =
      fmin fl (of_int capacity)
        (add s.tokens (mul (div (of_int (now_ms - s.last_refill_ms)) (of_int 1000)) refill))

  unfoldable pub apply_token_bucket :
      ℕ → Option (TokenBucketState F) → ℕ → F → F → TokenBucketState F × RateLimitComputation F
  apply_token_bucket now_ms state capacity refill requested =
      let s = bucket_or_full state capacity now_ms in
      let before = available s capacity now_ms refill in
      let allowed = le requested before in
      let tokens = if allowed then sub before requested else before in
      let missing = fmax fl (of_int 0) (sub requested tokens) in
      let retry = if allowed then pos 0 else ceil (mul (div missing refill) (of_int 1000)) in
      let refill_to_full_ms =
        ceil (mul (div (sub (of_int capacity) tokens) refill) (of_int 1000)) in
      (
        record { tokens = tokens; last_refill_ms = now_ms },
        record {
          allowed = allowed;
          remaining = pos_part (floor tokens);
          reset_at_ms = now_ms + pos_part refill_to_full_ms;
          retry_after_ms = retry;
          observed_value = tokens;
        },
      )

  -- Requests for one token at the given times, in turn: the decisions and the last state.
  unfoldable pub run_token_bucket :
      ℕ → F → TokenBucketState F → List ℕ → List Bool × TokenBucketState F
  run_token_bucket capacity refill s [] = ([], s)
  run_token_bucket capacity refill s (t ∷ ts) =
      let (s', c) = apply_token_bucket t (some s) capacity refill (of_int 1) in
      let (rest, end) = run_token_bucket capacity refill s' ts in (c.allowed ∷ rest, end)
