-- ===== src/Local.antt =====
-- app/services/local_fallback_limiter.py: the in-memory limiter that is used while Redis fails.
-- A dictionary is the function of its lookups. Each of the three dictionaries holds one type of
-- state, so that the `isinstance` checks of the source cannot fail here.
pub mod States
pub mod Trace
pub mod FixedWindows
pub mod Forgets
use distributed_rate_limiter.Base.{
  Bool, List, Option, [], ceil_seconds, if◌then◌else◌, max, none, some, suc, ℕ, ◌*◌, ◌+◌, ◌-◌, ◌/◌,
  ◌==◌,
}
use distributed_rate_limiter.Base.Int.{ℤ, pos, negsuc, pos_part, ◌+ℤ◌}
use distributed_rate_limiter.Base.Text.{Text}
use distributed_rate_limiter.Float.{Float}
use distributed_rate_limiter.Policy.{
  Policy, RateLimitAlgorithm, fixed_window, sliding_window_log, token_bucket, header_limit,
  or_default,
}
use distributed_rate_limiter.Keys.{RequestIdentity, build_rate_limit_key}
use distributed_rate_limiter.Algorithms.{RateLimitComputation}
use distributed_rate_limiter.Algorithms.FixedWindow.{FixedWindowState, apply_fixed_window}
use distributed_rate_limiter.Algorithms.SlidingWindow.{apply_sliding_window_log}
use distributed_rate_limiter.Algorithms.TokenBucket.{TokenBucketState, apply_token_bucket}
use States.{Dict, empty, put, evict, StoredState}

pub record LocalFallbackDecision : Type 0 where
  pub allowed : Bool
  pub limit : ℕ
  pub remaining : ℕ
  pub reset_at_epoch_seconds : ℕ
  pub retry_after_seconds : ℤ

pub record LocalFallbackLimiter (F : Type 0) : Type 0 where
  pub fixed_windows : Dict FixedWindowState
  pub sliding_windows : Dict (List ℕ)
  pub token_buckets : Dict (TokenBucketState F)
  pub state_ttl_ms : ℕ

-- `math.ceil(ms / 1000)`
abbrev pub ceil_seconds_ℤ : ℤ → ℤ
ceil_seconds_ℤ (pos n) = pos (ceil_seconds n)
ceil_seconds_ℤ (negsuc n) = if suc n / 1000 == 0 then pos 0 else negsuc (suc n / 1000 - 1)

-- `stored.value if stored is not None else None`, and with `[]` for a missing log.
abbrev pub value? : {V : Type 0} → Option (StoredState V) → Option V
value? none = none
value? (some st) = some st.value

abbrev pub events_or_nil : Option (StoredState (List ℕ)) → List ℕ
events_or_nil none = []
events_or_nil (some st) = st.value

module _ {F : Type 0} where
  -- `LocalFallbackLimiter(state_ttl_seconds=...)`
  unfoldable pub init : ℤ → LocalFallbackLimiter F
  init state_ttl_seconds = record {
    fixed_windows = empty;
    sliding_windows = empty;
    token_buckets = empty;
    state_ttl_ms = max 1 (pos_part state_ttl_seconds) * 1000;
  }

  unfoldable pub clear : LocalFallbackLimiter F → LocalFallbackLimiter F
  clear s = record s { fixed_windows = empty; sliding_windows = empty; token_buckets = empty }

  unfoldable pub evict_expired : ℕ → LocalFallbackLimiter F → LocalFallbackLimiter F
  evict_expired now_ms s = record s {
    fixed_windows = evict now_ms s.fixed_windows;
    sliding_windows = evict now_ms s.sliding_windows;
    token_buckets = evict now_ms s.token_buckets;
  }

  unfoldable pub to_decision : Policy → RateLimitComputation F → LocalFallbackDecision
  to_decision p c = record {
    allowed = c.allowed;
    limit = header_limit p;
    remaining = c.remaining;
    reset_at_epoch_seconds = ceil_seconds c.reset_at_ms;
    retry_after_seconds = if c.allowed then pos 0 else ceil_seconds_ℤ c.retry_after_ms;
  }

module _ (fl : Float) where
  open fl use {F, of_int, sub, mul, div, ceil}

  -- `_apply_fixed_window`
  unfoldable pub apply_fixed :
      Policy → Text → ℕ → LocalFallbackLimiter F → LocalFallbackDecision × LocalFallbackLimiter F
  unfolding to_decision
  apply_fixed p key now_ms s =
      let state = value? (s.fixed_windows key) in
      let (next_state, c) = apply_fixed_window fl now_ms state p.rate p.window_seconds in
      let stored : StoredState FixedWindowState = record {
        value = next_state;
        expires_at_ms = max c.reset_at_ms (now_ms + s.state_ttl_ms);
      } in
      (to_decision p c, record s { fixed_windows = put key stored s.fixed_windows })

  -- `_apply_sliding_window`
  unfoldable pub apply_sliding :
      Policy → Text → ℕ → LocalFallbackLimiter F → LocalFallbackDecision × LocalFallbackLimiter F
  unfolding to_decision
  apply_sliding p key now_ms s =
      let events = events_or_nil (s.sliding_windows key) in
      let (next_events, c) = apply_sliding_window_log fl now_ms events p.rate p.window_seconds in
      let stored : StoredState (List ℕ) = record {
        value = next_events;
        expires_at_ms = max c.reset_at_ms (now_ms + s.state_ttl_ms);
      } in
      (to_decision p c, record s { sliding_windows = put key stored s.sliding_windows })

  -- `_apply_token_bucket`
  unfoldable pub apply_bucket :
      Policy → Text → ℕ → LocalFallbackLimiter F → LocalFallbackDecision × LocalFallbackLimiter F
  unfolding to_decision
  apply_bucket p key now_ms s =
      let state = value? (s.token_buckets key) in
      let capacity = or_default p.burst_capacity p.rate in
      let refill = div (of_int p.rate) (of_int p.window_seconds) in
      let (next_state, c) = apply_token_bucket fl now_ms state capacity refill (of_int 1) in
      let refill_to_full_ms =
        ceil (mul (div (sub (of_int capacity) next_state.tokens) refill) (of_int 1000)) in
      let stored : StoredState (TokenBucketState F) = record {
        value = next_state;
        expires_at_ms =
            max (pos_part (pos (now_ms + s.state_ttl_ms) +ℤ refill_to_full_ms)) (now_ms + 1000);
      } in
      (to_decision p c, record s { token_buckets = put key stored s.token_buckets })

  apply_algorithm :
      RateLimitAlgorithm
      → Policy
      → Text
      → ℕ
      → LocalFallbackLimiter F
      → LocalFallbackDecision × LocalFallbackLimiter F
  apply_algorithm fixed_window = apply_fixed
  apply_algorithm sliding_window_log = apply_sliding
  apply_algorithm token_bucket = apply_bucket

  -- `apply`, under the lock; `now_ms or int(time.time() * 1000)` for a clock that shows `clock_ms`.
  unfoldable pub apply :
      Policy
      → RequestIdentity
      → Option ℕ
      → ℕ
      → LocalFallbackLimiter F
      → LocalFallbackDecision × LocalFallbackLimiter F
  unfolding apply_algorithm
  apply p i now_ms clock_ms s =
      let now = or_default now_ms clock_ms in
      apply_algorithm p.algorithm p (build_rate_limit_key p i) now (evict_expired now s)
