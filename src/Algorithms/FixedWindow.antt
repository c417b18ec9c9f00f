-- ===== src/Algorithms/FixedWindow.antt =====
-- `apply_fixed_window`.
pub mod Quota
use distributed_rate_limiter.Base.{
  ℕ, ◌+◌, ◌-◌, ◌*◌, ◌%◌, Bool, true, false, not, Option, none, some, List, [], ◌∷◌, leb, ◌==◌,
  if◌then◌else◌,
}
use distributed_rate_limiter.Base.Int.{pos}
use distributed_rate_limiter.Float.{Float}
use distributed_rate_limiter.Algorithms.{RateLimitComputation}

pub record FixedWindowState : Type 0 where
  pub window_start_ms : ℕ
  pub count : ℕ

-- `now_ms - (now_ms % window_ms)`
abbrev pub window_of : ℕ → ℕ → ℕ
window_of window_ms now_ms = now_ms - now_ms % window_ms

-- A state of another window, or none, is replaced by a fresh one.
abbrev pub current : ℕ → Option FixedWindowState → FixedWindowState
current start none = record { window_start_ms = start; count = 0 }
current start (some s) =
    if not (s.window_start_ms == start) then record { window_start_ms = start; count = 0 } else s

module _ (fl : Float) where
  unfoldable pub apply_fixed_window :
      ℕ → Option FixedWindowState → ℕ → ℕ → FixedWindowState × RateLimitComputation fl.F
  apply_fixed_window now_ms state limit window_seconds =
      let window_ms = window_seconds * 1000 in
      let expected_start = window_of window_ms now_ms in
      let s = current expected_start state in
      let next_count = s.count + 1 in
      let allowed = leb next_count limit in
      let s' = if allowed then record s { count = next_count } else s in
      let seen = if allowed then s'.count else next_count in
      let reset = expected_start + window_ms in
      (
        s',
        record {
          allowed = allowed;
          remaining = limit - seen;
          reset_at_ms = reset;
          retry_after_ms = pos (reset - now_ms);
          observed_value = fl.of_int seen;
        },
      )

  -- Requests at the given times, in turn: each time with the decision.
  unfoldable pub run_fixed_window : ℕ → ℕ → Option FixedWindowState → List ℕ → List (ℕ × Bool)
  run_fixed_window limit window_seconds state [] = []
  run_fixed_window limit window_seconds state (t ∷ ts) =
      let (s, c) = apply_fixed_window t state limit window_seconds in
      (t, c.allowed) ∷ run_fixed_window limit window_seconds (some s) ts
