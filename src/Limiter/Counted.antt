-- ===== src/Limiter/Counted.antt =====
-- How an evaluation moves the counters of app/core/metrics.py.
use distributed_rate_limiter.Base.{
  Bool, Bool-cases, Option, ap, arith, false, if◌then◌else◌, inl, inr, ltb, none, not, refl, some,
  subst, suc, sym, true, zero, ℕ, ◌+◌, ◌-◌, ◌/◌, ◌≡◌, ◌≢◌, ◌≤◌,
}
use distributed_rate_limiter.Float.{Float}
use distributed_rate_limiter.Policy.{Policy, algorithm_text, FailureMode, fail_open, fail_closed}
use distributed_rate_limiter.Policy.Scope.{selector_kind}
use distributed_rate_limiter.Keys.{RequestIdentity}
use distributed_rate_limiter.Redis.{Redis}
use distributed_rate_limiter.Limiter.{
  RateLimitDecision, Settings, Metrics, PolicyCounter, inc_labels, Attempt, Fault, answered,
  refused, answer_lost, World, parse_common_decision, build_degraded_decision, by_failure_mode,
  of_local, recover_after_redis_failure, attempts_from, max_attempts_of, count_decision, finish,
  evaluate, mark_redis_retry,
}
use distributed_rate_limiter.Limiter.Attempts.{
  run_policy_failed, run_policy_answered, round_answered, round_retried, round_recovered,
  failed_world, script_run,
}
use distributed_rate_limiter.Limiter.Retries.{fault_cases, suc_pred, suc_pred', one_le_max}

-- One more under the labels of the policy, if `b`.
abbrev pub moved_if : Bool → Policy → PolicyCounter → PolicyCounter
moved_if b p counter =
    if b then inc_labels (algorithm_text p.algorithm) (selector_kind p) counter else counter

abbrev pub has_answer : Fault → Bool
has_answer answered = true
has_answer _ = false

-- How many attempts in a row get no answer, of `rounds` from number `k` on.
unfoldable pub unanswered : (ℕ → Attempt) → ℕ → ℕ → ℕ
unanswered env zero k = 0
unanswered env (suc rounds) k =
    let later = unanswered env rounds (k + 1) in if has_answer (env k).fault then 0 else suc later

unanswered-good :
    (env : ℕ → Attempt) (rounds k : ℕ)
    → (env k).fault ≡ answered
    → unanswered env (suc rounds) k ≡ 0
unfolding unanswered
unanswered-good env rounds k e = rw e refl

no_answer : (f : Fault) → f ≢ answered → has_answer f ≡ false
no_answer answered ne = absurd (ne refl)
no_answer refused ne = refl
no_answer answer_lost ne = refl

unanswered-bad :
    (env : ℕ → Attempt) (rounds k : ℕ)
    → (env k).fault ≢ answered
    → unanswered env (suc rounds) k ≡ suc (unanswered env rounds (k + 1))
unfolding unanswered
unanswered-bad env rounds k ne = rw (no_answer _ ne) refl

unanswered-last : (env : ℕ → Attempt) (k : ℕ) → (env k).fault ≢ answered → unanswered env 1 k ≡ 1
unfolding unanswered
unanswered-last env k ne = rw (no_answer _ ne) refl

-- What attempts that end with the decision `d` do to the counters, before the decision is counted:
-- `errors` of at most `rounds` attempts failed, all of them exactly if the decision is degraded.
record Attempted (p : Policy) (d : RateLimitDecision) (rounds errors : ℕ) (m m' : Metrics)
    : Type 0 where
  allowed_same : m'.allowed_requests ≡ m.allowed_requests
  blocked_same : m'.blocked_requests ≡ m.blocked_requests
  failovers : m'.local_failovers ≡ moved_if d.local_fallback p m.local_failovers
  errors_counted : m'.redis_errors ≡ m.redis_errors + errors
  errors_le : errors ≤ rounds
  all_failed : d.degraded ≡ not (ltb errors rounds)
  retries_counted : m'.redis_retries + (if d.degraded then 1 else 0) ≡ m.redis_retries + errors

degraded_marks :
    (f : FailureMode) (p : Policy) (now : ℕ)
    → ((by_failure_mode f p now).degraded ≡ true)
      × ((by_failure_mode f p now).local_fallback ≡ false)
unfolding by_failure_mode
degraded_marks fail_open p now = (refl, refl)
degraded_marks fail_closed p now = (refl, refl)

module _ (fl : Float) (r : Redis fl.F) (settings : Settings) (p : Policy) (i : RequestIdentity)
    (env : ℕ → Attempt) (clock_ms : ℕ) where
  abbrev Outcome : Type 0
  Outcome = Option RateLimitDecision × World fl r

  -- An outcome is a decision that was attempted.
  abbrev Done : ℕ → ℕ → World fl r → Outcome → Type 0
  Done rounds errors w (o, w') =
      (d : RateLimitDecision) × (o ≡ some d) × Attempted p d rounds errors w.metrics w'.metrics

  answered-Done :
      (rounds attempt : ℕ) (w : World fl r)
      → let (reply, db') = script_run fl r settings p i env clock_ms attempt w.db in
        Done (suc rounds) 0 w (some (parse_common_decision reply), record w { db = db' })
  unfolding parse_common_decision
  answered-Done rounds attempt w = (
    _,
    refl,
    record {
      allowed_same = refl;
      blocked_same = refl;
      failovers = refl;
      errors_counted = omega arith;
      errors_le = omega arith;
      all_failed = ground arith;
      retries_counted = omega arith;
    },
  )

  recovered-Done :
      (attempt : ℕ) (w : World fl r)
      → let (d, end) =
          recover_after_redis_failure fl r settings p i clock_ms
            (failed_world fl r settings p i env clock_ms attempt w) in
        Done 1 1 w (some d, end)
  unfolding recover_after_redis_failure of_local build_degraded_decision
  recovered-Done attempt w = elim (Bool-cases settings.enable_local_fallback_limiter) [
    | inl e ↦
        rw (e, recover_after_redis_failure)
          (
            _,
            refl,
            record {
              allowed_same = refl;
              blocked_same = refl;
              failovers = refl;
              errors_counted = omega arith;
              errors_le = omega arith;
              all_failed = ground arith;
              retries_counted = omega arith;
            },
          )
    | inr e ↦
        let (degraded, away) = degraded_marks p.failure_mode p (clock_ms / 1000) in
        rw (e, recover_after_redis_failure)
          (
            _,
            refl,
            record {
              allowed_same = refl;
              blocked_same = refl;
              failovers = rw away refl;
              errors_counted = omega arith;
              errors_le = omega arith;
              all_failed = rw degraded (ground arith);
              retries_counted = rw degraded (omega arith);
            },
          )
  ]

  -- One failure more, before the attempts that follow.
  retried-Done :
      (rounds errors attempt : ℕ) (w : World fl r) (out : Outcome)
      → let failed = failed_world fl r settings p i env clock_ms attempt w in
        Done rounds errors (record failed { metrics = mark_redis_retry failed.metrics }) out
        → Done (suc rounds) (suc errors) w out
  retried-Done rounds errors attempt w out (d, is, c) = (
    d,
    is,
    record {
      allowed_same = c.allowed_same;
      blocked_same = c.blocked_same;
      failovers = c.failovers;
      errors_counted = omega (arith, c.errors_counted);
      errors_le = omega (arith, c.errors_le);
      all_failed = ground (arith, c.all_failed);
      retries_counted = omega (arith, c.retries_counted);
    },
  )

  attempt_answered :
      (max_attempts rounds attempt : ℕ) (w : World fl r)
      → (env attempt).fault ≡ answered
      → Done
          (suc rounds)
          (unanswered env (suc rounds) attempt)
          w
          (attempts_from fl r settings p i env clock_ms max_attempts (suc rounds) attempt w)
  attempt_answered max_attempts rounds attempt w good =
      rw (unanswered-good env rounds attempt good) (
        subst (Done (suc rounds) 0 w)
          (sym (
            round_answered fl r settings p i env clock_ms max_attempts rounds attempt w _ _
              (run_policy_answered fl r settings p i env clock_ms attempt w.db good)))
          (answered-Done rounds attempt w))

  attempts_from-Done :
      (max_attempts rounds attempt : ℕ) (w : World fl r)
      → attempt + rounds ≡ max_attempts
      → Done
          (suc rounds)
          (unanswered env (suc rounds) attempt)
          w
          (attempts_from fl r settings p i env clock_ms max_attempts (suc rounds) attempt w)
  attempts_from-Done max_attempts zero attempt w e = elim (fault_cases (env attempt).fault) [
    | inl good ↦ attempt_answered max_attempts 0 attempt w good
    | inr bad ↦
        let failed = run_policy_failed fl r settings p i env clock_ms attempt w.db bad in
        rw (unanswered-last env attempt bad) (
          subst (Done 1 1 w)
            (sym (
              round_recovered fl r settings p i env clock_ms max_attempts 0 attempt w failed
                (ground arith)))
            (recovered-Done attempt w))
  ]
  attempts_from-Done max_attempts (suc rounds) attempt w e =
      elim (fault_cases (env attempt).fault) [
        | inl good ↦ attempt_answered max_attempts (suc rounds) attempt w good
        | inr bad ↦
            let failed = run_policy_failed fl r settings p i env clock_ms attempt w.db bad in
            rw (unanswered-bad env (suc rounds) attempt bad) (
              subst (Done (suc (suc rounds)) _ w)
                (sym (
                  round_retried fl r settings p i env clock_ms max_attempts (suc rounds) attempt w
                    failed (ground arith)))
                (retried-Done (suc rounds) _ attempt w
                  (attempts_from fl r settings p i env clock_ms max_attempts (suc rounds)
                    (attempt + 1)
                    (record (failed_world fl r settings p i env clock_ms attempt w) {
                      metrics =
                          mark_redis_retry
                            (failed_world fl r settings p i env clock_ms attempt w).metrics;
                    }))
                  (attempts_from-Done max_attempts rounds (attempt + 1) _ (omega arith))))
      ]

  -- The attempts before the first that Redis answers, or all of them.
  abbrev pub failed_attempts : ℕ
  failed_attempts = unanswered env (max_attempts_of fl r settings) 1

  -- What an evaluation of `p` that decides `d` does to the counters.
  pub record Counted (d : RateLimitDecision) (m m' : Metrics) : Type 0 where
    pub allowed : m'.allowed_requests ≡ moved_if d.allowed p m.allowed_requests
    pub blocked : m'.blocked_requests ≡ moved_if (not d.allowed) p m.blocked_requests
    pub failovers : m'.local_failovers ≡ moved_if d.local_fallback p m.local_failovers
    pub errors_counted : m'.redis_errors ≡ m.redis_errors + failed_attempts
    pub errors_le : failed_attempts ≤ max_attempts_of fl r settings
    pub all_failed : d.degraded ≡ not (ltb failed_attempts (max_attempts_of fl r settings))
    pub retries_counted :
        m'.redis_retries + (if d.degraded then 1 else 0) ≡ m.redis_retries + failed_attempts

  finished-Counted :
      (w : World fl r) (out : Outcome)
      → Done (max_attempts_of fl r settings) failed_attempts w out
      → (d : RateLimitDecision) × ((finish fl r p out).0 ≡ some (d, p))
        × Counted d w.metrics (finish fl r p out).1.metrics
  finished-Counted w (none, w') (d, is, c) = cc
  finished-Counted w (some d', w') (d, is, c) =
      let same : d ≡ d' = cc in
      subst
        (λ o.
          (e : RateLimitDecision) × ((finish fl r p (o, w')).0 ≡ some (e, p))
          × Counted e w.metrics (finish fl r p (o, w')).1.metrics)
        (sym is) (d, refl, counted d c)
    where
      counted :
          (d : RateLimitDecision)
          → Attempted p d (max_attempts_of fl r settings) failed_attempts w.metrics w'.metrics
          → Counted d w.metrics (count_decision fl r p d w').metrics
      counted d c = elim (Bool-cases d.allowed) [
        | inl e ↦ rw e (record {
          allowed = (ap (inc_labels (algorithm_text p.algorithm) (selector_kind p)) c.allowed_same);
          blocked = c.blocked_same;
          failovers = c.failovers;
          errors_counted = c.errors_counted;
          errors_le = c.errors_le;
          all_failed = c.all_failed;
          retries_counted = c.retries_counted;
        })
        | inr e ↦ rw e (record {
          allowed = c.allowed_same;
          blocked = (ap (inc_labels (algorithm_text p.algorithm) (selector_kind p)) c.blocked_same);
          failovers = c.failovers;
          errors_counted = c.errors_counted;
          errors_le = c.errors_le;
          all_failed = c.all_failed;
          retries_counted = c.retries_counted;
        })
      ]

  -- Every evaluation of a policy ends with a decision, whatever the environment does, and moves
  -- exactly one of the counters of allowed and of blocked requests, by one and under the labels of
  -- the policy's algorithm and selectors: that of its decision. The counter of failovers moves,
  -- under these labels, exactly if the decision is the local limiter's. One Redis error is counted
  -- for each attempt before the first that Redis answers; these are all of the `max_attempts`
  -- exactly if the decision is degraded. One retry is counted for each of them but the last one of
  -- a degraded decision.
  pub evaluate-Counted :
      (w : World fl r)
      → let (outcome, w') = evaluate fl r settings (some p) i env clock_ms w in
        (d : RateLimitDecision) × (outcome ≡ some (d, p)) × Counted d w.metrics w'.metrics
  unfolding evaluate
  evaluate-Counted w =
      let rounds = max_attempts_of fl r settings in
      let enough : suc (rounds - 1) ≡ rounds = suc_pred rounds (one_le_max _) in
      finished-Counted w _ (
        subst
          (λ n.
            Done n (unanswered env n 1) w
              (attempts_from fl r settings p i env clock_ms rounds n 1 w))
          enough (attempts_from-Done rounds (rounds - 1) 1 w (suc_pred' rounds (one_le_max _))))
