-- ===== src/Algorithms/SlidingWindow.antt =====
-- `apply_sliding_window_log`.
pub mod Log
pub mod Quota
use distributed_rate_limiter.Base.{
  ℕ, ◌+◌, ◌-◌, ◌*◌, Bool, List, [], ◌∷◌, ◌++◌, ltb, if◌then◌else◌, length, keep_if,
}
use distributed_rate_limiter.Base.Int.{pos}
use distributed_rate_limiter.Float.{Float}
use distributed_rate_limiter.Algorithms.{RateLimitComputation}

-- `value > now_ms - window_ms`
abbrev pub is_active : ℕ → ℕ → ℕ → Bool
is_active window_ms now_ms value = ltb now_ms (value + window_ms)

-- `events[0] if events else now_ms`
abbrev pub oldest_or : ℕ → List ℕ → ℕ
oldest_or now_ms [] = now_ms
oldest_or now_ms (e ∷ es) = e

module _ (fl : Float) where
  unfoldable pub apply_sliding_window_log : ℕ → List ℕ → ℕ → ℕ → List ℕ × RateLimitComputation fl.F
  apply_sliding_window_log now_ms events_ms limit window_seconds =
      let window_ms = window_seconds * 1000 in
      let active_events = keep_if (is_active window_ms now_ms) events_ms in
      let allowed = ltb (length active_events) limit in
      let active' = if allowed then active_events ++ now_ms ∷ [] else active_events in
      let reset = oldest_or now_ms active' + window_ms in
      (
        active',
        record {
          allowed = allowed;
          remaining = limit - length active';
          reset_at_ms = reset;
          retry_after_ms = pos (reset - now_ms);
          observed_value = fl.of_int (length active');
        },
      )

  -- Requests at the given times, in turn: each time with the decision.
  pub run_sliding_window : ℕ → ℕ → List ℕ → List ℕ → List (ℕ × Bool)
  run_sliding_window limit window_seconds events [] = []
  run_sliding_window limit window_seconds events (t ∷ ts) =
      let (events', c) = apply_sliding_window_log t events limit window_seconds in
      (t, c.allowed) ∷ run_sliding_window limit window_seconds events' ts
