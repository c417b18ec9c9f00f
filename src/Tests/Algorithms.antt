-- ===== src/Tests/Algorithms.antt =====
-- The algorithms at concrete inputs.
use distributed_rate_limiter.Base.{
  List, Option, [], arith, count_if, false, min, none, refl, some, subst, true, ℕ, ◌*◌, ◌∷◌, ◌≡◌,
  ◌≤◌,
}
use distributed_rate_limiter.Float.Fixed.{fixed, fixed-IsIeee}
use distributed_rate_limiter.Algorithms.FixedWindow.{run_fixed_window, apply_fixed_window}
use distributed_rate_limiter.Algorithms.FixedWindow.Quota.{
  admitted_in, fixed_window_le_limit, fixed_window_exact,
}
use distributed_rate_limiter.Algorithms.SlidingWindow.{is_active, run_sliding_window}
use distributed_rate_limiter.Algorithms.SlidingWindow.Log.{admit_by_history, sliding_window_exact}
use distributed_rate_limiter.Algorithms.SlidingWindow.Quota.{admitted, sliding_window_le_limit}
use distributed_rate_limiter.Algorithms.TokenBucket.{
  TokenBucketState, apply_token_bucket, run_token_bucket,
}
use distributed_rate_limiter.Algorithms.TokenBucket.Bounds.{IsFilled, apply_token_bucket_bounds}
use distributed_rate_limiter.Algorithms.TokenBucket.Burst.{burst, count_true, token_bucket_burst}

abbrev times : List ℕ
times = 60000 ∷ 61000 ∷ 62000 ∷ 120000 ∷ []

fixed_window_runs :
    run_fixed_window fixed 2 60 none times
    ≡ (60000, true) ∷ (61000, true) ∷ (62000, false) ∷ (120000, true) ∷ []
unfolding run_fixed_window apply_fixed_window
fixed_window_runs = refl

fixed_window_le_limit_example :
    admitted_in (60 * 1000) 60000 (run_fixed_window fixed 2 60 none times) ≤ 2
fixed_window_le_limit_example =
    fixed_window_le_limit fixed 2 60 60000 0 times (omega arith) (omega arith)

fixed_window_exact_example :
    admitted_in (60 * 1000) 60000 (run_fixed_window fixed 2 60 none (60000 ∷ 61000 ∷ 62000 ∷ []))
    ≡ min 2 3
fixed_window_exact_example =
    fixed_window_exact fixed 2 60 60000 (60000 ∷ 61000 ∷ 62000 ∷ []) (refl, (refl, (refl, tt)))

sliding_window_exact_example :
    run_sliding_window fixed 2 60 [] times ≡ admit_by_history 2 (60 * 1000) [] times
sliding_window_exact_example = sliding_window_exact fixed 2 60 0 times (omega arith)

sliding_window_le_limit_example :
    count_if (is_active (60 * 1000) 120000) (admitted (run_sliding_window fixed 2 60 [] times)) ≤ 2
sliding_window_le_limit_example =
    sliding_window_le_limit fixed 2 60 0 120000 times (omega arith) (omega arith) (omega arith)

-- Two and a half tokens of at most five.
abbrev bucket : TokenBucketState ℕ
bucket = record { tokens = 2500000; last_refill_ms = 1000 }

bucket-IsFilled : IsFilled fixed 5 bucket
bucket-IsFilled = record { nonneg = refl; le_capacity = refl }

bucket-IsFilled_of_eq :
    (s : TokenBucketState ℕ)
    → ◌≡◌ {A = Option (TokenBucketState ℕ)} (some bucket) (some s)
    → IsFilled fixed 5 s
bucket-IsFilled_of_eq s e =
    let same : bucket ≡ s = cc in subst (IsFilled fixed 5) same bucket-IsFilled

apply_token_bucket_bounds_example :
    let (s', c) = apply_token_bucket fixed 2000 (some bucket) 5 1000000 1000000 in
    IsFilled fixed 5 s' × (c.remaining ≤ 5)
apply_token_bucket_bounds_example =
    apply_token_bucket_bounds fixed fixed-IsIeee 2000 (some bucket) 5 1000000 1000000
      bucket-IsFilled_of_eq refl refl (omega arith)

token_bucket_burst_example :
    count_true (run_token_bucket fixed 5 1000000 bucket (burst 4 1000)).0 ≡ min 4 2
token_bucket_burst_example =
    token_bucket_burst fixed fixed-IsIeee 4 bucket 5 1000000 refl refl (omega arith) bucket-IsFilled
