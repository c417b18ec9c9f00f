-- ===== src/Local/Forgets.antt =====
-- A sliding-window log is evicted by the age of its oldest entry, so that newer entries which are
-- still within the window are forgotten with it.
use distributed_rate_limiter.Base.{
  List, Option, [], arith, count_if, map, max, none, refl, some, true, ℕ, ◌*◌, ◌+◌, ◌<◌, ◌∷◌, ◌≡◌,
  ◌≤◌,
}
use distributed_rate_limiter.Base.Int.{ℤ, pos_part}
use distributed_rate_limiter.Float.{Float}
use distributed_rate_limiter.Policy.{Policy, sliding_window_log}
use distributed_rate_limiter.Keys.{RequestIdentity, build_rate_limit_key}
use distributed_rate_limiter.Algorithms.SlidingWindow.{is_active, apply_sliding_window_log}
use distributed_rate_limiter.Local.{
  LocalFallbackLimiter, events_or_nil, evict_expired, apply_sliding, apply_algorithm, apply, init,
}
use distributed_rate_limiter.Local.States.{StoredState, drop_expired, evict, put_self}
use distributed_rate_limiter.Local.Trace.{Call, run_local}

module _ (fl : Float) (p : Policy) (i : RequestIdentity) where
  apply-sliding :
      (now : ℕ) (s : LocalFallbackLimiter fl.F)
      → p.algorithm ≡ sliding_window_log
      → apply fl p i none now s
        ≡ apply_sliding fl p (build_rate_limit_key p i) now (evict_expired now s)
  unfolding apply apply_algorithm
  apply-sliding now s e = rw e

  sliding_step :
      (now : ℕ) (s : LocalFallbackLimiter fl.F)
      → p.algorithm ≡ sliding_window_log
      → let key = build_rate_limit_key p i in
        let events = events_or_nil (drop_expired now (s.sliding_windows key)) in
        let (log, c) = apply_sliding_window_log fl now events p.rate p.window_seconds in
        let (d, s') = apply fl p i none now s in
        (d.allowed ≡ c.allowed)
        × (s'.sliding_windows key
            ≡ some
                (record { value = log; expires_at_ms = max c.reset_at_ms (now + s.state_ttl_ms) }))
        × (s'.state_ttl_ms ≡ s.state_ttl_ms)
  sliding_step now s e = rw (apply-sliding now s e) (
      unfold apply_sliding evict_expired evict in
      (refl, put_self (build_rate_limit_key p i) _ _, refl))

  -- A log that is found at `now`, and a log of which nothing is left.
  found_events :
      (now expires : ℕ) (log : List ℕ) (o : Option (StoredState (List ℕ)))
      → o ≡ some (record { value = log; expires_at_ms = expires })
      → now < expires
      → events_or_nil (drop_expired now o) ≡ log
  found_events now expires log o e lt = ground arith

  lost_events :
      (now expires : ℕ) (log : List ℕ) (o : Option (StoredState (List ℕ)))
      → o ≡ some (record { value = log; expires_at_ms = expires })
      → expires ≤ now
      → events_or_nil (drop_expired now o) ≡ []
  lost_events now expires log o e le = ground arith

  -- The first and the second request of a limit of two, by the log that is found.
  first_admitted :
      (t : ℕ)
      → p.rate ≡ 2
      → 0 < p.window_seconds
      → let (log, c) = apply_sliding_window_log fl t [] p.rate p.window_seconds in
        (c.allowed ≡ true) × (log ≡ t ∷ []) × (c.reset_at_ms ≡ t + p.window_seconds * 1000)
  unfolding apply_sliding_window_log
  first_admitted t two pos = ground arith

  second_admitted :
      (s t : ℕ)
      → p.rate ≡ 2
      → 0 < p.window_seconds
      → t < s + p.window_seconds * 1000
      → let (log, c) = apply_sliding_window_log fl t (s ∷ []) p.rate p.window_seconds in
        (c.allowed ≡ true) × (log ≡ s ∷ t ∷ []) × (c.reset_at_ms ≡ s + p.window_seconds * 1000)
  unfolding apply_sliding_window_log
  second_admitted s t two pos lt = ground arith

  -- The requests of the scenario, at `t0`, `t1` and twice at `t2`.
  abbrev pub calls : ℕ → ℕ → ℕ → List Call
  calls t0 t1 t2 =
      record { policy = p; identity = i; at_ms = t0 }
      ∷ record { policy = p; identity = i; at_ms = t1 }
      ∷ record { policy = p; identity = i; at_ms = t2 }
      ∷ record { policy = p; identity = i; at_ms = t2 }
      ∷ []

  -- What one request does to the log that it finds under the key.
  step_from :
      (now expires ttl : ℕ) (log log' : List ℕ) (s : LocalFallbackLimiter fl.F)
      → p.algorithm ≡ sliding_window_log
      → events_or_nil (drop_expired now (s.sliding_windows (build_rate_limit_key p i))) ≡ log
      → s.state_ttl_ms ≡ ttl
      → let (l, c) = apply_sliding_window_log fl now log p.rate p.window_seconds in
        (c.allowed ≡ true) × (l ≡ log') × (max c.reset_at_ms (now + ttl) ≡ expires)
        → let (d, s') = apply fl p i none now s in
          (d.allowed ≡ true)
          × (s'.sliding_windows (build_rate_limit_key p i)
              ≡ some (record { value = log'; expires_at_ms = expires }))
          × (s'.state_ttl_ms ≡ ttl)
  step_from now expires ttl log log' s e found same h =
      let (decided, stored, kept) = sliding_step now s e in
      (cc (decided, found, h.0), cc (stored, found, same, h.1, h.2), cc (kept, same))

  -- With a limit of two, let requests come at `t0` and, within its window, at `t1`, and let both
  -- the window of the first and the time to live of the state be over at `t2`, but not the window
  -- of the second. Then two more requests are admitted at `t2`, although the one at `t1` is still
  -- within the window: three admitted requests lie in one window.
  pub local_sliding_window_forgets :
      (state_ttl_seconds : ℤ) (t0 t1 t2 : ℕ)
      → p.algorithm ≡ sliding_window_log
      → p.rate ≡ 2
      → 0 < p.window_seconds
      → t1 < t0 + p.window_seconds * 1000
      → t0 + p.window_seconds * 1000 ≤ t2
      → t1 + max 1 (pos_part state_ttl_seconds) * 1000 ≤ t2
      → t2 < t1 + p.window_seconds * 1000
      → (map (λ d. d.1.allowed) (run_local fl (init state_ttl_seconds) (calls t0 t1 t2))
          ≡ true ∷ true ∷ true ∷ true ∷ [])
        × (p.rate < count_if (is_active (p.window_seconds * 1000) t2) (t0 ∷ t1 ∷ t2 ∷ t2 ∷ []))
  unfolding init run_local
  local_sliding_window_forgets state_ttl_seconds t0 t1 t2 e two pos a b c d =
      let W = p.window_seconds * 1000 in
      let key = build_rate_limit_key p i in
      let ttl = max 1 (pos_part state_ttl_seconds) * 1000 in
      let s0 : LocalFallbackLimiter fl.F = init state_ttl_seconds in
      let (ok0, log0, reset0) = first_admitted t0 two pos in
      let (d0, st0, k0) =
        step_from t0 (max (t0 + W) (t0 + ttl)) ttl [] (t0 ∷ []) s0 e refl refl
          (ok0, log0, rw reset0 refl) in
      let s1 = (apply fl p i none t0 s0).1 in
      let (ok1, log1, reset1) = second_admitted t0 t1 two pos a in
      let (d1, st1, k1) =
        step_from t1 (max (t0 + W) (t1 + ttl)) ttl (t0 ∷ []) (t0 ∷ t1 ∷ []) s1 e
          (found_events t1 (max (t0 + W) (t0 + ttl)) (t0 ∷ []) (s1.sliding_windows key) st0
            (omega arith))
          k0 (ok1, log1, rw reset1 refl) in
      let s2 = (apply fl p i none t1 s1).1 in
      let (ok2, log2, reset2) = first_admitted t2 two pos in
      let (d2, st2, k2) =
        step_from t2 (max (t2 + W) (t2 + ttl)) ttl [] (t2 ∷ []) s2 e
          (lost_events t2 (max (t0 + W) (t1 + ttl)) (t0 ∷ t1 ∷ []) (s2.sliding_windows key) st1
            (omega arith))
          k1 (ok2, log2, rw reset2 refl) in
      let s3 = (apply fl p i none t2 s2).1 in
      let (ok3, log3, reset3) = second_admitted t2 t2 two pos (omega arith) in
      let (d3, _, _) =
        step_from t2 (max (t2 + W) (t2 + ttl)) ttl (t2 ∷ []) (t2 ∷ t2 ∷ []) s3 e
          (found_events t2 (max (t2 + W) (t2 + ttl)) (t2 ∷ []) (s3.sliding_windows key) st2
            (omega arith))
          k2 (ok3, log3, rw reset3 refl) in
      (λ j. d0 j ∷ d1 j ∷ d2 j ∷ d3 j ∷ [], ground arith)
