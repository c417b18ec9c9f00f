-- ===== src/Algorithms/FixedWindow/Quota.antt =====
-- How many requests a fixed window admits: never more than the limit, and as many as it can.
use distributed_rate_limiter.Base.{
  All, Ascending, Bool, List, [], arith, count_if, if◌then◌else◌, length, ltb, min, none, refl,
  some, ℕ, ◌&&◌, ◌*◌, ◌+◌, ◌-◌, ◌/◌, ◌<◌, ◌==◌, ◌∷◌, ◌≡◌, ◌≤◌,
}
use distributed_rate_limiter.Float.{Float}
use distributed_rate_limiter.Algorithms.FixedWindow.{
  FixedWindowState, window_of, apply_fixed_window, run_fixed_window,
}

-- Admitted requests of the window that starts at `w`.
abbrev pub admitted_in : ℕ → ℕ → List (ℕ × Bool) → ℕ
admitted_in window_ms w = count_if (λ d. d.1 && window_of window_ms d.0 == w)

window_of-eq : (W t : ℕ) → window_of W t ≡ W * (t / W)
window_of-eq W t = grind arith

pub window_of_mono : (W s t : ℕ) → 0 < W → s ≤ t → window_of W s ≤ window_of W t
window_of_mono W s t h le = grind arith

-- What a state leaves of the window `w`: nothing once the window has passed.
used : ℕ → ℕ → FixedWindowState → ℕ
used limit w s =
    if s.window_start_ms == w then s.count else if ltb w s.window_start_ms then limit else 0

module _ (fl : Float) (limit window_seconds : ℕ) where
  used_step :
      (w t : ℕ) (s : FixedWindowState)
      → s.count ≤ limit
      → s.window_start_ms ≤ window_of (window_seconds * 1000) t
      → let (s', c) = apply_fixed_window fl t (some s) limit window_seconds in
        (used limit w s + (if c.allowed && window_of (window_seconds * 1000) t == w then 1 else 0)
          ≤ used limit w s')
        × (s'.count ≤ limit)
        × (s'.window_start_ms ≡ window_of (window_seconds * 1000) t)
  unfolding used apply_fixed_window
  used_step w t s h le = ground arith

  -- No state counts as a state of any window whose count is 0.
  run-none :
      (w : ℕ) (ts : List ℕ)
      → run_fixed_window fl limit window_seconds none ts
        ≡ run_fixed_window fl limit window_seconds
            (some (record { window_start_ms = w; count = 0 }))
            ts
  unfolding run_fixed_window apply_fixed_window
  run-none w [] = refl
  run-none w (t ∷ ts) = ground arith

  run_le_limit :
      (w low : ℕ) (s : FixedWindowState) (ts : List ℕ)
      → 0 < window_seconds
      → s.count ≤ limit
      → s.window_start_ms ≤ window_of (window_seconds * 1000) low
      → Ascending low ts
      → used limit w s
          + admitted_in
              (window_seconds * 1000)
              w
              (run_fixed_window fl limit window_seconds (some s) ts)
        ≤ limit
  unfolding run_fixed_window
  run_le_limit w low s [] pos h le asc = unfold used in ground arith
  run_le_limit w low s (t ∷ ts) pos h le asc =
      let W = window_seconds * 1000 in
      let le' : s.window_start_ms ≤ window_of W t =
        omega (arith, window_of_mono W low t (omega arith) asc.0) in
      let (step, bounded, moved) = used_step w t s h le' in
      let s' = (apply_fixed_window fl t (some s) limit window_seconds).0 in
      let rest = run_le_limit w t s' ts pos bounded (omega (arith, moved)) asc.1 in
      ground (arith, step, rest)

  -- A client that starts with no state is admitted at most `limit` times in each window, whichever
  -- the window is, if the clock does not go back.
  pub fixed_window_le_limit :
      (w low : ℕ) (ts : List ℕ)
      → 0 < window_seconds
      → Ascending low ts
      → admitted_in (window_seconds * 1000) w (run_fixed_window fl limit window_seconds none ts)
        ≤ limit
  fixed_window_le_limit w low ts pos asc = rw (run-none 0 ts) (
      omega (
        arith,
        run_le_limit w low (record { window_start_ms = 0; count = 0 }) ts pos (omega arith)
            (omega arith) asc,
      ))

  apply_in_window :
      (w t : ℕ) (s : FixedWindowState)
      → s.window_start_ms ≡ w
      → window_of (window_seconds * 1000) t ≡ w
      → let (s', c) = apply_fixed_window fl t (some s) limit window_seconds in
        (s'.window_start_ms ≡ w)
        × (c.allowed ≡ ltb s.count limit)
        × (s'.count ≡ (if ltb s.count limit then s.count + 1 else s.count))
  unfolding apply_fixed_window
  apply_in_window w t s here now = ground arith

  run_in_window :
      (w : ℕ) (s : FixedWindowState) (ts : List ℕ)
      → s.window_start_ms ≡ w
      → s.count ≤ limit
      → All (λ t. window_of (window_seconds * 1000) t ≡ w) ts
      → admitted_in (window_seconds * 1000) w (run_fixed_window fl limit window_seconds (some s) ts)
        ≡ min (limit - s.count) (length ts)
  unfolding run_fixed_window
  run_in_window w s [] here le all = omega arith
  run_in_window w s (t ∷ ts) here le all =
      let s' = (apply_fixed_window fl t (some s) limit window_seconds).0 in
      let (here', ok, counted) = apply_in_window w t s here all.0 in
      let rest = run_in_window w s' ts here' (ground (arith, counted)) all.1 in
      ground (arith, ok, counted, rest)

  -- Of the requests of one window, as many are admitted as the limit lets: all of them up to the
  -- limit, and exactly `limit` of more.
  pub fixed_window_exact :
      (w : ℕ) (ts : List ℕ)
      → All (λ t. window_of (window_seconds * 1000) t ≡ w) ts
      → admitted_in (window_seconds * 1000) w (run_fixed_window fl limit window_seconds none ts)
        ≡ min limit (length ts)
  fixed_window_exact w ts all = rw (run-none w ts) (
      omega (
        arith,
        run_in_window w (record { window_start_ms = w; count = 0 }) ts refl (omega arith) all,
      ))
