-- ===== src/Limiter/Retries.antt =====
-- What `evaluate` returns and leaves behind, by which attempts fail.
use distributed_rate_limiter.Base.{
  Option, ap, arith, false, inl, inr, max, none, refl, some, subst, suc, true, zero, ℕ, ◌+◌, ◌-◌,
  ◌/◌, ◌<◌, ◌∙◌, ◌≡◌, ◌≢◌, ◌≤◌, ◌⊎◌,
}
use distributed_rate_limiter.Base.Int.{pos}
use distributed_rate_limiter.Float.{Float}
use distributed_rate_limiter.Policy.{Policy, algorithm_text, FailureMode, fail_open, fail_closed}
use distributed_rate_limiter.Policy.Scope.{selector_kind}
use distributed_rate_limiter.Keys.{RequestIdentity}
use distributed_rate_limiter.Redis.{Redis}
use distributed_rate_limiter.Local
use distributed_rate_limiter.Limiter.{
  RateLimitDecision, Settings, Metrics, Fault, answered, refused, answer_lost, Attempt,
  parse_common_decision, build_degraded_decision, by_failure_mode, of_local, World,
  recover_after_redis_failure, attempts_from, max_attempts_of, count_decision, finish, evaluate,
  mark_local_failover,
}
use distributed_rate_limiter.Limiter.Attempts.{
  script_run, failed_db, retried, gave_up, run_policy_failed, run_policy_answered, round_answered,
  round_retried, round_recovered, attempts_from_answered, attempts_from_failed, recovered_at,
}

pub fault_cases : (f : Fault) → (f ≡ answered) ⊎ (f ≢ answered)
fault_cases answered = inl refl
fault_cases refused = inr (λ e. cc)
fault_cases answer_lost = inr (λ e. cc)

pub one_le_max : (n : ℕ) → 1 ≤ max 1 n
one_le_max n = ground arith

pub suc_pred : (n : ℕ) → 1 ≤ n → suc (n - 1) ≡ n
suc_pred n le = omega arith

lt_of_le_pred : {k n : ℕ} → 1 ≤ n → k ≤ n - 1 → k < n
lt_of_le_pred h le = omega arith

pub suc_pred' : (n : ℕ) → 1 ≤ n → 1 + (n - 1) ≡ n
suc_pred' n le = omega arith

by_failure_mode-degraded :
    (m : FailureMode) (p : Policy) (now : ℕ) → (by_failure_mode m p now).degraded ≡ true
unfolding by_failure_mode
by_failure_mode-degraded fail_open p now = refl
by_failure_mode-degraded fail_closed p now = refl

degraded_cases :
    (p : Policy) (now : ℕ)
    → let d = build_degraded_decision p now in
      (d.degraded ≡ true)
      × ((p.failure_mode ≡ fail_open) → d.allowed ≡ true)
      × ((p.failure_mode ≡ fail_closed) → (d.allowed ≡ false) × (d.retry_after_seconds ≡ pos 1))
unfolding build_degraded_decision by_failure_mode
degraded_cases p now =
    (by_failure_mode-degraded p.failure_mode p now, λ e. rw e refl, λ e. (rw e refl, rw e refl))

module _ (fl : Float) (r : Redis fl.F) (settings : Settings) (p : Policy) (i : RequestIdentity)
    (env : ℕ → Attempt) (clock_ms : ℕ) where
  -- The rounds suffice: the loop does not end without a decision.
  attempts_from_decides :
      (max_attempts rounds attempt : ℕ) (w : World fl r)
      → attempt + rounds ≡ max_attempts
      → (d : RateLimitDecision) × ((attempts_from fl r settings p i env clock_ms max_attempts
            (suc rounds)
            attempt
            w).0
          ≡ some d)
  attempts_from_decides max_attempts zero attempt w e = elim (fault_cases (env attempt).fault) [
    | inl good ↦ (
      _,
      ap (λ o. o.0)
          (round_answered fl r settings p i env clock_ms max_attempts 0 attempt w _ _
            (run_policy_answered fl r settings p i env clock_ms attempt w.db good)),
    )
    | inr bad ↦ (
      _,
      ap (λ o. o.0)
          (round_recovered fl r settings p i env clock_ms max_attempts 0 attempt w
            (run_policy_failed fl r settings p i env clock_ms attempt w.db bad) (ground arith)),
    )
  ]
  attempts_from_decides max_attempts (suc rounds) attempt w e =
      elim (fault_cases (env attempt).fault) [
        | inl good ↦ (
          _,
          ap (λ o. o.0)
              (round_answered fl r settings p i env clock_ms max_attempts (suc rounds) attempt w _ _
                (run_policy_answered fl r settings p i env clock_ms attempt w.db good)),
        )
        | inr bad ↦
            let retry =
              round_retried fl r settings p i env clock_ms max_attempts (suc rounds) attempt w
                (run_policy_failed fl r settings p i env clock_ms attempt w.db bad)
                (ground arith) in
            let (d, later) =
              attempts_from_decides max_attempts rounds (attempt + 1) _ (omega arith) in
            (d, ap (λ o. o.0) retry ∙ later)
      ]

  decision_of_finish :
      (out : Option RateLimitDecision × World fl r) (d : RateLimitDecision)
      → out.0 ≡ some d
      → (finish fl r p out).0 ≡ some (d, p)
  decision_of_finish (none, w) d e = cc
  decision_of_finish (some d', w) d e = cc

  -- An evaluation of a policy always ends with a decision, whatever the environment does.
  pub evaluate_decides :
      (w : World fl r)
      → (d : RateLimitDecision) × ((evaluate fl r settings (some p) i env clock_ms w).0
          ≡ some (d, p))
  unfolding evaluate
  evaluate_decides w =
      let rounds = max_attempts_of fl r settings in
      let enough : suc (rounds - 1) ≡ rounds = suc_pred rounds (one_le_max _) in
      let (d, e) =
        attempts_from_decides rounds (rounds - 1) 1 w (suc_pred' rounds (one_le_max _)) in
      let e' =
        subst (λ n. (attempts_from fl r settings p i env clock_ms rounds n 1 w).0 ≡ some d) enough
          e in
      (d, decision_of_finish _ d e')

  -- The world after `m` failed attempts, with the counters `x`.
  abbrev pub world_after : ℕ → Metrics → World fl r → World fl r
  world_after m x w = record w {
    db = failed_db fl r settings p i env clock_ms m 1 w.db;
    metrics = x;
  }

  -- If the first `m` attempts fail and the next is answered, with `m` below the number of
  -- attempts, the decision is that script's reply. Each failure counts one error and one retry,
  -- the request is counted once, and the local limiter is not touched.
  pub evaluate_answered :
      (m : ℕ) (w : World fl r)
      → m < max_attempts_of fl r settings
      → ((k : ℕ) → k < m → (env (1 + k)).fault ≢ answered)
      → (env (1 + m)).fault ≡ answered
      → let before = world_after m (retried fl r settings p i env clock_ms m w.metrics) w in
        let (reply, db') = script_run fl r settings p i env clock_ms (1 + m) before.db in
        let d = parse_common_decision reply in
        evaluate fl r settings (some p) i env clock_ms w
        ≡ (some (d, p), count_decision fl r p d (record before { db = db' }))
  unfolding evaluate
  evaluate_answered m w lt bad good =
      ap (finish fl r p)
        (attempts_from_answered fl r settings p i env clock_ms _ m _ 1 w lt (omega arith) bad good)

  all_failed :
      (w : World fl r)
      → ((k : ℕ) → k < max_attempts_of fl r settings → (env (1 + k)).fault ≢ answered)
      → let rounds = max_attempts_of fl r settings in
        let failed =
          world_after rounds (gave_up fl r settings p i env clock_ms (rounds - 1) w.metrics) w in
        let (d, end) = recover_after_redis_failure fl r settings p i clock_ms failed in
        evaluate fl r settings (some p) i env clock_ms w
        ≡ (some (d, p), count_decision fl r p d end)
  unfolding evaluate
  all_failed w bad =
      let rounds = max_attempts_of fl r settings in
      let enough : suc (rounds - 1) ≡ rounds = suc_pred rounds (one_le_max _) in
      let failed =
        attempts_from_failed fl r settings p i env clock_ms rounds (rounds - 1) 1 w
          (suc_pred' rounds (one_le_max _)) (λ k le. bad k (lt_of_le_pred (one_le_max _) le)) in
      ap (finish fl r p) (
        subst
          (λ n.
            attempts_from fl r settings p i env clock_ms rounds n 1 w
            ≡ recovered_at fl r settings p i env clock_ms
                (failed_db fl r settings p i env clock_ms n 1 w.db)
                (gave_up fl r settings p i env clock_ms (rounds - 1) w.metrics) w)
          enough failed)

  -- If every attempt fails and the local limiter is switched off, the policy's failure mode
  -- decides: fail-open admits, fail-closed refuses with a retry after one second. The decision is
  -- marked as degraded, each attempt counts one error, and all but the last one retry.
  pub evaluate_degraded :
      (w : World fl r)
      → settings.enable_local_fallback_limiter ≡ false
      → ((k : ℕ) → k < max_attempts_of fl r settings → (env (1 + k)).fault ≢ answered)
      → let rounds = max_attempts_of fl r settings in
        let failed =
          world_after rounds (gave_up fl r settings p i env clock_ms (rounds - 1) w.metrics) w in
        let d = build_degraded_decision p (clock_ms / 1000) in
        (evaluate fl r settings (some p) i env clock_ms w
          ≡ (some (d, p), count_decision fl r p d failed))
        × (d.degraded ≡ true)
        × ((p.failure_mode ≡ fail_open) → d.allowed ≡ true)
        × ((p.failure_mode ≡ fail_closed) → (d.allowed ≡ false) × (d.retry_after_seconds ≡ pos 1))
  unfolding build_degraded_decision recover_after_redis_failure
  evaluate_degraded w off bad =
      let (degraded, opened, closed) = degraded_cases p (clock_ms / 1000) in
      (all_failed w bad ∙ (rw (off, recover_after_redis_failure) refl), degraded, opened, closed)

  -- If every attempt fails and the local limiter is switched on, its decision is the answer,
  -- marked as degraded and as local, and one failover is counted.
  pub evaluate_failover :
      (w : World fl r)
      → settings.enable_local_fallback_limiter ≡ true
      → ((k : ℕ) → k < max_attempts_of fl r settings → (env (1 + k)).fault ≢ answered)
      → let rounds = max_attempts_of fl r settings in
        let failed =
          world_after rounds (gave_up fl r settings p i env clock_ms (rounds - 1) w.metrics) w in
        let (l, local') = Local.apply fl p i none clock_ms w.local in
        let d = of_local l in
        (evaluate fl r settings (some p) i env clock_ms w ≡ (
          some (d, p),
          count_decision fl r p d (record failed {
            local = local';
            metrics =
                mark_local_failover (algorithm_text p.algorithm) (selector_kind p) failed.metrics;
          }),
        ))
        × (d.degraded ≡ true)
        × (d.local_fallback ≡ true)
        × (d.allowed ≡ l.allowed)
  unfolding of_local recover_after_redis_failure
  evaluate_failover w on bad =
      (all_failed w bad ∙ (rw (on, recover_after_redis_failure) refl), refl, refl, refl)
