-- ===== src/Tests/Local.antt =====
-- The local limiter at concrete inputs.
use distributed_rate_limiter.Base.{
  List, [], arith, count_if, map, none, refl, true, ◌*◌, ◌<◌, ◌∷◌, ◌≡◌,
}
use distributed_rate_limiter.Base.Int.{pos}
use distributed_rate_limiter.Base.Text.{Text}
use distributed_rate_limiter.Float.Fixed.{fixed}
use distributed_rate_limiter.Keys.{build_rate_limit_key}
use distributed_rate_limiter.Algorithms.FixedWindow.{run_fixed_window}
use distributed_rate_limiter.Algorithms.SlidingWindow.{is_active}
use distributed_rate_limiter.Local.{init}
use distributed_rate_limiter.Local.Trace.{Call, run_local}
use distributed_rate_limiter.Local.FixedWindows.{outcomes, times_against, local_fixed_windows_exact}
use distributed_rate_limiter.Local.Forgets.{calls, local_sliding_window_forgets}
use distributed_rate_limiter.Tests.Sample.{route_policy, user_policy, vip, guest}

abbrev key : Text
key = build_rate_limit_key route_policy guest

abbrev trace : List Call
trace =
    record { policy = route_policy; identity = guest; at_ms = 600000 }
    ∷ record { policy = user_policy; identity = vip; at_ms = 601000 }
    ∷ record { policy = route_policy; identity = vip; at_ms = 1300000 }
    ∷ []

local_fixed_windows_exact_example :
    outcomes key (run_local fixed (init (pos 120)) trace)
    ≡ run_fixed_window fixed 2 600 none (times_against key trace)
local_fixed_windows_exact_example =
    local_fixed_windows_exact fixed key route_policy 0 (pos 120) trace (omega arith) (omega arith)
      (λ h. refl, (λ h. cc, (λ h. refl, tt)))

local_sliding_window_forgets_example :
    (map
        (λ d. d.1.allowed)
        (run_local fixed (init (pos 120)) (calls fixed user_policy vip 0 500000 620000))
      ≡ true ∷ true ∷ true ∷ true ∷ [])
    × (2 < count_if (is_active (600 * 1000) 620000) (0 ∷ 500000 ∷ 620000 ∷ 620000 ∷ []))
local_sliding_window_forgets_example =
    local_sliding_window_forgets fixed user_policy vip (pos 120) 0 500000 620000 refl refl
      (omega arith) (omega arith) (omega arith) (omega arith) (omega arith)
