-- ===== src/Policy/Validation.antt =====
-- What a payload that passes the schema's checks guarantees to the limiter.
use distributed_rate_limiter.Base.{ℕ, ◌<◌, ◌≡◌, ◌≢◌, true, none, some, arith}
use distributed_rate_limiter.Policy.{PolicyCreate, token_bucket, validate}

-- What the rest of the program relies on.
pub record IsValid (p : PolicyCreate) : Type 0 where
  pub rate_pos : 0 < p.rate
  pub window_pos : 0 < p.window_seconds
  pub burst_pos : {n : ℕ} → p.burst_capacity ≡ some n → 0 < n
  pub only_bucket : p.algorithm ≢ token_bucket → p.burst_capacity ≡ none

-- A payload that passes every check of the schema has a positive rate, window and capacity, and
-- has a capacity only if it is a token bucket.
pub validate-IsValid : (p : PolicyCreate) → validate p ≡ true → IsValid p
unfolding validate
validate-IsValid p h = record {
  rate_pos = ground arith;
  window_pos = ground arith;
  burst_pos = λ e. ground arith;
  only_bucket = λ ne. ground arith;
}
