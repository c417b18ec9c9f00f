-- ===== src/Local/FixedWindows.antt =====
-- Eviction and the requests of other policies change no decision of a fixed-window policy.
use distributed_rate_limiter.Base.{
  &&_split, All, Ascending, Bool, Bool-cases, List, Option, [], ap, arith, false, if◌then◌else◌,
  inl, inr, map, max, none, refl, some, subst, sym, true, ℕ, ◌&&◌, ◌*◌, ◌+◌, ◌<◌, ◌∙◌, ◌∷◌, ◌≡◌,
  ◌≢◌, ◌≤◌,
}
use distributed_rate_limiter.Base.Int.{ℤ}
use distributed_rate_limiter.Base.Text.{Text, text_eq, text_eq_sound}
use distributed_rate_limiter.Float.{Float}
use distributed_rate_limiter.Policy.{
  Policy, RateLimitAlgorithm, fixed_window, sliding_window_log, token_bucket,
}
use distributed_rate_limiter.Keys.{RequestIdentity, build_rate_limit_key}
use distributed_rate_limiter.Algorithms.FixedWindow.{
  FixedWindowState, window_of, apply_fixed_window, run_fixed_window,
}
use distributed_rate_limiter.Local.{
  LocalFallbackLimiter, LocalFallbackDecision, value?, evict_expired, apply_fixed, apply_sliding,
  apply_bucket, apply_algorithm, apply, init,
}
use distributed_rate_limiter.Local.States.{StoredState, drop_expired, put, evict, put_self}
use distributed_rate_limiter.Local.Trace.{Call, run_local}

abbrev is_fixed_window : RateLimitAlgorithm → Bool
is_fixed_window fixed_window = true
is_fixed_window _ = false

-- The call counts against the fixed window of the key.
abbrev pub counts_against : Text → Call → Bool
counts_against key c =
    is_fixed_window c.policy.algorithm && text_eq (build_rate_limit_key c.policy c.identity) key

-- What is stored for a key, beside the state that it would have if nothing were evicted: they are
-- the same, or nothing is stored and the window of the latter is over.
abbrev Tracks : ℕ → ℕ → Option (StoredState FixedWindowState) → Option FixedWindowState → Type 0
Tracks W now none none = Unit
Tracks W now none (some v) = v.window_start_ms + W ≤ now
Tracks W now (some st) ref =
    (ref ≡ some st.value) × (st.value.window_start_ms + W ≤ st.expires_at_ms)

Tracks-drop_expired :
    (W low now : ℕ) (o : Option (StoredState FixedWindowState)) (ref : Option FixedWindowState)
    → low ≤ now
    → Tracks W low o ref
    → Tracks W now (drop_expired now o) ref
Tracks-drop_expired W low now none none le h = tt
Tracks-drop_expired W low now none (some v) le h = omega arith
Tracks-drop_expired W low now (some st) none le h = cc (h.0)
Tracks-drop_expired W low now (some st) (some v) le h = ground arith

window_of_ends : (W now start : ℕ) → 0 < W → start + W ≤ now → start ≢ window_of W now
window_of_ends W now start h le e = grind arith

module _ (fl : Float) (limit window_seconds : ℕ) (pos : 0 < window_seconds) where
  -- On both the next request has the same outcome.
  apply-Tracks :
      (now : ℕ) (o : Option (StoredState FixedWindowState)) (ref : Option FixedWindowState)
      → Tracks (window_seconds * 1000) now o ref
      → apply_fixed_window fl now (value? o) limit window_seconds
        ≡ apply_fixed_window fl now ref limit window_seconds
  apply-Tracks now none none h = refl
  apply-Tracks now none (some v) h =
      unfold apply_fixed_window in
      ground (arith, window_of_ends (window_seconds * 1000) now v.window_start_ms)
  apply-Tracks now (some st) ref h = rw (h.0)

  next-Tracks :
      (now ttl : ℕ) (ref : Option FixedWindowState)
      → let (v, c) = apply_fixed_window fl now ref limit window_seconds in
        v.window_start_ms + window_seconds * 1000 ≤ max c.reset_at_ms (now + ttl)
  unfolding apply_fixed_window
  next-Tracks now ttl none = ground arith
  next-Tracks now ttl (some v) = ground arith

  module _ (p : Policy) (i : RequestIdentity) where
    apply-fixed :
        (now : ℕ) (s : LocalFallbackLimiter fl.F)
        → p.algorithm ≡ fixed_window
        → apply fl p i none now s
          ≡ apply_fixed fl p (build_rate_limit_key p i) now (evict_expired now s)
    unfolding apply
    apply-fixed now s e = rw e

    -- Any other request leaves the key's state to eviction alone.
    apply_other :
        (key : Text) (now : ℕ) (s : LocalFallbackLimiter fl.F)
        → (is_fixed_window p.algorithm && text_eq (build_rate_limit_key p i) key) ≡ false
        → (apply fl p i none now s).1.fixed_windows key ≡ drop_expired now (s.fixed_windows key)
    unfolding apply apply_algorithm
    apply_other key now s other = go p.algorithm other
      where
        go :
            (a : RateLimitAlgorithm)
            → (is_fixed_window a && text_eq (build_rate_limit_key p i) key) ≡ false
            → (apply_algorithm fl a p
                  (build_rate_limit_key p i)
                  now
                  (evict_expired now s)).1.fixed_windows
                key
              ≡ drop_expired now (s.fixed_windows key)
        go fixed_window e = unfold apply_fixed evict_expired evict put in rw e
        go sliding_window_log e = unfold apply_sliding evict_expired evict in refl
        go token_bucket e = unfold apply_bucket evict_expired evict in refl

    apply_counted :
        (key : Text) (now : ℕ) (s : LocalFallbackLimiter fl.F)
        → p.algorithm ≡ fixed_window
        → build_rate_limit_key p i ≡ key
        → let o = drop_expired now (s.fixed_windows key) in
          let (v, c) = apply_fixed_window fl now (value? o) p.rate p.window_seconds in
          let (d, s') = apply fl p i none now s in
          (d.allowed ≡ c.allowed)
          × (s'.fixed_windows key
              ≡ some
                  (record { value = v; expires_at_ms = max c.reset_at_ms (now + s.state_ttl_ms) }))
    apply_counted key now s e k =
        rw (apply-fixed now s e, k)
          (unfold apply_fixed evict_expired evict in (refl, put_self key _ _))

-- The times and outcomes of the requests that count against a key.
abbrev pub outcomes : Text → List (Call × LocalFallbackDecision) → List (ℕ × Bool)
outcomes key [] = []
outcomes key ((c, d) ∷ ds) =
    if counts_against key c then (c.at_ms, d.allowed) ∷ outcomes key ds else outcomes key ds

abbrev pub times_against : Text → List Call → List ℕ
times_against key [] = []
times_against key (c ∷ cs) =
    if counts_against key c then c.at_ms ∷ times_against key cs else times_against key cs

abbrev pub times : List Call → List ℕ
times = map (λ c. c.at_ms)

fixed_of_test : (a : RateLimitAlgorithm) → is_fixed_window a ≡ true → a ≡ fixed_window
fixed_of_test fixed_window h = refl
fixed_of_test sliding_window_log h = cc
fixed_of_test token_bucket h = cc

module _ (fl : Float) (key : Text) (p : Policy) where
  -- A counted call, for the policy that counts against the key.
  call_counted :
      (c : Call) (s : LocalFallbackLimiter fl.F)
      → 0 < p.window_seconds
      → counts_against key c ≡ true
      → c.policy ≡ p
      → let o = drop_expired c.at_ms (s.fixed_windows key) in
        let (v, computed) = apply_fixed_window fl c.at_ms (value? o) p.rate p.window_seconds in
        let (d, s') = apply fl c.policy c.identity none c.at_ms s in
        (d.allowed ≡ computed.allowed)
        × (s'.fixed_windows key
            ≡ some (record {
              value = v;
              expires_at_ms = max computed.reset_at_ms (c.at_ms + s.state_ttl_ms);
            }))
  call_counted c s pos ours same =
      let (a, k) = &&_split _ _ ours in
      subst
        (λ (q : Policy).
          let o = drop_expired c.at_ms (s.fixed_windows key) in
          let (v, computed) = apply_fixed_window fl c.at_ms (value? o) q.rate q.window_seconds in
          let (d, s') = apply fl c.policy c.identity none c.at_ms s in
          (d.allowed ≡ computed.allowed)
          × (s'.fixed_windows key
              ≡ some (record {
                value = v;
                expires_at_ms = max computed.reset_at_ms (c.at_ms + s.state_ttl_ms);
              })))
        same
        (apply_counted fl p.rate p.window_seconds pos c.policy c.identity key c.at_ms s
          (fixed_of_test _ a) (text_eq_sound _ _ k))

  run_from-Tracks :
      (low : ℕ) (s : LocalFallbackLimiter fl.F) (ref : Option FixedWindowState) (cs : List Call)
      → 0 < p.window_seconds
      → Tracks (p.window_seconds * 1000) low (s.fixed_windows key) ref
      → Ascending low (times cs)
      → All (λ c. counts_against key c ≡ true → c.policy ≡ p) cs
      → outcomes key (run_local fl s cs)
        ≡ run_fixed_window fl p.rate p.window_seconds ref (times_against key cs)
  unfolding run_local run_fixed_window
  run_from-Tracks low s ref [] pos h asc same = refl
  run_from-Tracks low s ref (c ∷ cs) pos h asc same =
      let W = p.window_seconds * 1000 in
      let h' = Tracks-drop_expired W low c.at_ms (s.fixed_windows key) ref asc.0 h in
      let s' = (apply fl c.policy c.identity none c.at_ms s).1 in
      elim (Bool-cases (counts_against key c)) [
        | inl ours ↦
            let (decided, stored) = call_counted c s pos ours (same.0 ours) in
            let o = drop_expired c.at_ms (s.fixed_windows key) in
            let agree = apply-Tracks fl p.rate p.window_seconds pos c.at_ms o ref h' in
            let v = (apply_fixed_window fl c.at_ms ref p.rate p.window_seconds).0 in
            let tracked : Tracks W c.at_ms (s'.fixed_windows key) (some v) =
              rw (stored, agree)
                (refl, next-Tracks fl p.rate p.window_seconds pos c.at_ms s.state_ttl_ms ref) in
            let rest = run_from-Tracks c.at_ms s' (some v) cs pos tracked asc.1 same.1 in
            rw ours (λ i. (c.at_ms, (decided ∙ ap (λ r. r.1.allowed) agree) i) ∷ rest i)
        | inr other ↦
            let kept =
              apply_other fl p.rate p.window_seconds pos c.policy c.identity key c.at_ms s other in
            let rest =
              run_from-Tracks c.at_ms s' ref cs pos
                (subst (λ o. Tracks W c.at_ms o ref) (sym kept) h') asc.1 same.1 in
            rw other rest
      ]

  -- From a new limiter on, if the clock does not go back and one policy counts against the key, the
  -- requests that count against it are decided as one fixed window alone would decide them: neither
  -- evicted states nor requests for other keys or algorithms change an outcome.
  pub local_fixed_windows_exact :
      (low : ℕ) (state_ttl_seconds : ℤ) (cs : List Call)
      → 0 < p.window_seconds
      → Ascending low (times cs)
      → All (λ c. counts_against key c ≡ true → c.policy ≡ p) cs
      → outcomes key (run_local fl (init state_ttl_seconds) cs)
        ≡ run_fixed_window fl p.rate p.window_seconds none (times_against key cs)
  unfolding init
  local_fixed_windows_exact low state_ttl_seconds cs pos asc same =
      run_from-Tracks low (init state_ttl_seconds) none cs pos tt asc same
