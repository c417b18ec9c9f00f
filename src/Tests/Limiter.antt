-- ===== src/Tests/Limiter.antt =====
-- The rate limiter on the test server: one attempt is refused, one loses its answer, one is
-- answered.
use distributed_rate_limiter.Base.{
  Bool, [], arith, false, if◌then◌else◌, none, refl, some, suc, true, zero, ℕ, ◌+◌, ◌-◌, ◌/◌, ◌<◌,
  ◌==◌, ◌∷◌, ◌≡◌, ◌≢◌,
}
use distributed_rate_limiter.Base.Int.{pos, ◌+ℤ◌}
use distributed_rate_limiter.Base.Text.{codes}
use distributed_rate_limiter.Float.Fixed.{fixed}
use distributed_rate_limiter.Policy.{algorithm_text, fail_open, fail_closed}
use distributed_rate_limiter.Policy.Scope.{selector_kind}
use distributed_rate_limiter.Local
use distributed_rate_limiter.Local.{LocalFallbackDecision, LocalFallbackLimiter}
use distributed_rate_limiter.Redis.Scripts.{Reply}
use distributed_rate_limiter.Redis.Scripts.FixedWindow.{
  script_replies, algorithm_replies, fixed_window_lua_refines,
}
use distributed_rate_limiter.Limiter.{
  RateLimitDecision, Settings, Fault, answered, refused, answer_lost, Attempt,
  parse_common_decision, build_degraded_decision, of_local, World, evaluate, count_decision,
  max_attempts_of, mark_local_failover,
}
use distributed_rate_limiter.Limiter.Counted.{Counted, evaluate-Counted}
use distributed_rate_limiter.Limiter.Attempts.{script_run, retried, gave_up}
use distributed_rate_limiter.Limiter.Retries.{
  world_after, evaluate_answered, evaluate_degraded, evaluate_failover,
}
use distributed_rate_limiter.Tests.Sample.{route_policy, vip}
use distributed_rate_limiter.Tests.Server.{no_tables, server, server-Counters, no_counters}

fixed_window_lua_refines_example :
    script_replies fixed server server-Counters
      (codes "k")
      2
      60
      no_tables
      (1000 ∷ 2000 ∷ 3000 ∷ 61000 ∷ [])
    ≡ algorithm_replies fixed server server-Counters
        (codes "k")
        2
        60
        none
        (1000 ∷ 2000 ∷ 3000 ∷ 61000 ∷ [])
fixed_window_lua_refines_example =
    fixed_window_lua_refines fixed server server-Counters (codes "k") 2 60 500 no_tables
      (1000 ∷ 2000 ∷ 3000 ∷ 61000 ∷ []) (omega arith)
      (omega arith, (omega arith, (omega arith, (omega arith, tt)))) (λ w. no_counters _ 500 _)

abbrev pub settings : Bool → Settings
settings local = record { redis_retry_attempts = pos 2; enable_local_fallback_limiter = local }

abbrev fault_at : ℕ → Fault
fault_at k = if k == 1 then refused else if k == 2 then answer_lost else answered

abbrev flaky : ℕ → Attempt
flaky k = record { fault = fault_at k; now_ms = 600000 + k; member = codes "m" }

abbrev pub down : ℕ → Attempt
down k = record { fault = refused; now_ms = 600000 + k; member = codes "m" }

abbrev pub start : World fixed server
start = record {
  db = no_tables;
  local = Local.init (pos 120);
  metrics = record {
    allowed_requests = λ a k. 0;
    blocked_requests = λ a k. 0;
    redis_errors = 0;
    redis_retries = 0;
    local_failovers = λ a k. 0;
  };
}

three : (local : Bool) → 2 < max_attempts_of fixed server (settings local)
unfolding ◌+ℤ◌
three local = omega arith

bad_before : (k : ℕ) → k < 2 → (flaky (1 + k)).fault ≢ answered
bad_before zero lt e = cc
bad_before (suc zero) lt e = cc
bad_before (suc (suc k)) lt e = omega arith

-- The database that the third attempt finds, and what its script gives.
abbrev before : World fixed server
before =
    world_after fixed server (settings true) route_policy vip flaky 600004 2
      (retried fixed server (settings true) route_policy vip flaky 600004 2 start.metrics) start

abbrev third : Reply × (server {F = fixed.F}).Db
third = script_run fixed server (settings true) route_policy vip flaky 600004 3 before.db

evaluate_answered_example :
    evaluate fixed server (settings true) (some route_policy) vip flaky 600004 start ≡ (
      some (parse_common_decision third.0, route_policy),
      count_decision fixed server route_policy
          (parse_common_decision third.0)
          (record before { db = third.1 }),
    )
evaluate_answered_example =
    evaluate_answered fixed server (settings true) route_policy vip flaky 600004 2 start
      (three true) bad_before refl

-- The world after three failures.
abbrev failed : Bool → World fixed server
failed local =
    let rounds = max_attempts_of fixed server (settings local) in
    world_after fixed server (settings local) route_policy vip down 600004 rounds
      (gave_up fixed server (settings local) route_policy vip down 600004 (rounds - 1)
        start.metrics)
      start

abbrev degraded : RateLimitDecision
degraded = build_degraded_decision route_policy (600004 / 1000)

evaluate_degraded_example :
    (evaluate fixed server (settings false) (some route_policy) vip down 600004 start ≡ (
      some (degraded, route_policy),
      count_decision fixed server route_policy degraded (failed false),
    ))
    × (degraded.degraded ≡ true)
    × ((route_policy.failure_mode ≡ fail_open) → degraded.allowed ≡ true)
    × ((route_policy.failure_mode ≡ fail_closed)
        → (degraded.allowed ≡ false) × (degraded.retry_after_seconds ≡ pos 1))
evaluate_degraded_example =
    evaluate_degraded fixed server (settings false) route_policy vip down 600004 start refl
      (λ k lt e. cc)

abbrev local_answer : LocalFallbackDecision × LocalFallbackLimiter fixed.F
local_answer = Local.apply fixed route_policy vip none 600004 start.local

evaluate_failover_example :
    (evaluate fixed server (settings true) (some route_policy) vip down 600004 start ≡ (
      some (of_local local_answer.0, route_policy),
      count_decision fixed server route_policy (of_local local_answer.0) (record (failed true) {
        local = local_answer.1;
        metrics =
            mark_local_failover
              (algorithm_text route_policy.algorithm)
              (selector_kind route_policy)
              (failed true).metrics;
      }),
    ))
    × ((of_local local_answer.0).degraded ≡ true)
    × ((of_local local_answer.0).local_fallback ≡ true)
    × ((of_local local_answer.0).allowed ≡ local_answer.0.allowed)
evaluate_failover_example =
    evaluate_failover fixed server (settings true) route_policy vip down 600004 start refl
      (λ k lt e. cc)

evaluate-Counted_example :
    let (outcome, w') =
      evaluate fixed server (settings true) (some route_policy) vip flaky 600004 start in
    (d : RateLimitDecision) × (outcome ≡ some (d, route_policy))
    × Counted fixed server (settings true) route_policy vip flaky 600004 d start.metrics w'.metrics
evaluate-Counted_example =
    evaluate-Counted fixed server (settings true) route_policy vip flaky 600004 start
