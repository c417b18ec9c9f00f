-- ===== src/Limiter.antt =====
-- app/services/rate_limiter.py: `RateLimiterService`, with the counters of app/core/metrics.py.
-- The policy that `resolve_policy` found is an argument. What the environment decides, for each
-- attempt to run a script, is an `Attempt`. Waiting between attempts and logging are left out.
pub mod Attempts
pub mod Retries
pub mod Counted
use distributed_rate_limiter.Base.{
  Bool, List, Option, [], false, if◌then◌else◌, ltb, max, none, not, some, suc, true, zero, ℕ, ◌&&◌,
  ◌*◌, ◌+◌, ◌/◌, ◌==◌, ◌∷◌,
}
use distributed_rate_limiter.Base.Int.{ℤ, pos, negsuc, pos_part, ◌+ℤ◌}
use distributed_rate_limiter.Base.Text.{Text, codes, decimal, text_eq}
use distributed_rate_limiter.Float.{Float}
use distributed_rate_limiter.Policy.{
  Policy, algorithm_text, RateLimitAlgorithm, fixed_window, sliding_window_log, token_bucket,
  FailureMode, fail_open, fail_closed, header_limit, or_default,
}
use distributed_rate_limiter.Policy.Scope.{selector_kind}
use distributed_rate_limiter.Keys.{RequestIdentity, build_rate_limit_key}
use distributed_rate_limiter.Local.{LocalFallbackLimiter, LocalFallbackDecision, ceil_seconds_ℤ}
use distributed_rate_limiter.Local
use distributed_rate_limiter.Redis.{Redis}
use distributed_rate_limiter.Redis.Scripts.{
  Reply, fixed_window_lua, sliding_window_lua, token_bucket_lua,
}

pub record RateLimitDecision : Type 0 where
  pub allowed : Bool
  pub limit : ℕ
  pub remaining : ℤ
  pub reset_at_epoch_seconds : ℤ
  pub retry_after_seconds : ℤ
  pub degraded : Bool
  pub local_fallback : Bool

-- `str(n)` for an integer.
abbrev pub int_text : ℤ → Text
int_text (pos n) = decimal n
int_text (negsuc n) = b'-' ∷ decimal (suc n)

-- `RateLimitDecision.headers`
unfoldable pub headers : RateLimitDecision → List (Text × Text)
headers d =
    (codes "X-RateLimit-Limit", decimal d.limit)
    ∷ (codes "X-RateLimit-Remaining", decimal (pos_part d.remaining))
    ∷ (codes "X-RateLimit-Reset", int_text d.reset_at_epoch_seconds)
    ∷ (codes "Retry-After", decimal (pos_part d.retry_after_seconds))
    ∷ []

-- The fields of `Settings` that the service reads.
pub record Settings : Type 0 where
  pub redis_retry_attempts : ℤ
  pub enable_local_fallback_limiter : Bool

-- A counter with the labels "algorithm" and "selector_kind".
abbrev pub PolicyCounter : Type 0
PolicyCounter = Text → Text → ℕ

-- `counter.labels(algorithm=algorithm, selector_kind=selector_kind).inc()`
unfoldable pub inc_labels : Text → Text → PolicyCounter → PolicyCounter
inc_labels algorithm selector_kind counter a k =
    if text_eq algorithm a && text_eq selector_kind k then counter a k + 1 else counter a k

-- The counters of app/core/metrics.py that the service moves; those of Redis under the label
-- operation="rate_limit_apply".
pub record Metrics : Type 0 where
  pub allowed_requests : PolicyCounter
  pub blocked_requests : PolicyCounter
  pub redis_errors : ℕ
  pub redis_retries : ℕ
  pub local_failovers : PolicyCounter

abbrev pub mark_redis_error : Metrics → Metrics
mark_redis_error m = record m { redis_errors = m.redis_errors + 1 }

abbrev pub mark_redis_retry : Metrics → Metrics
mark_redis_retry m = record m { redis_retries = m.redis_retries + 1 }

abbrev pub mark_local_failover : Text → Text → Metrics → Metrics
mark_local_failover algorithm kind m = record m {
  local_failovers = inc_labels algorithm kind m.local_failovers;
}

abbrev pub mark_rate_limit_allowed : Text → Text → Metrics → Metrics
mark_rate_limit_allowed algorithm kind m = record m {
  allowed_requests = inc_labels algorithm kind m.allowed_requests;
}

abbrev pub mark_rate_limit_blocked : Text → Text → Metrics → Metrics
mark_rate_limit_blocked algorithm kind m = record m {
  blocked_requests = inc_labels algorithm kind m.blocked_requests;
}

-- What happens to a call of `eval`: it is answered; it fails before the script runs; or the script
-- runs and its answer is lost. In the last two cases the client raises RedisError.
pub data Fault : Type 0 where
  answered refused answer_lost : Fault

pub record Attempt : Type 0 where
  pub fault : Fault
  -- the time that the server's TIME gives
  pub now_ms : ℕ
  -- `uuid.uuid4().hex`
  pub member : Text

-- `_parse_common_decision`
unfoldable pub parse_common_decision : Reply → RateLimitDecision
parse_common_decision result =
    let allowed = not (result.allowed == 0) in
    record {
      allowed = allowed;
      limit = result.limit;
      remaining = result.remaining;
      reset_at_epoch_seconds = ceil_seconds_ℤ result.reset_at_ms;
      retry_after_seconds = if allowed then pos 0 else ceil_seconds_ℤ result.retry_ms;
      degraded = false;
      local_fallback = false;
    }

-- `_build_degraded_decision`, at the epoch second `now_epoch`.
unfoldable pub by_failure_mode : FailureMode → Policy → ℕ → RateLimitDecision
by_failure_mode fail_open p now_epoch = record {
  allowed = true;
  limit = header_limit p;
  remaining = pos (header_limit p);
  reset_at_epoch_seconds = pos (now_epoch + p.window_seconds);
  retry_after_seconds = pos 0;
  degraded = true;
  local_fallback = false;
}
by_failure_mode fail_closed p now_epoch = record {
  allowed = false;
  limit = header_limit p;
  remaining = pos 0;
  reset_at_epoch_seconds = pos (now_epoch + 1);
  retry_after_seconds = pos 1;
  degraded = true;
  local_fallback = false;
}

unfoldable pub build_degraded_decision : Policy → ℕ → RateLimitDecision
unfolding by_failure_mode
build_degraded_decision p now_epoch = by_failure_mode p.failure_mode p now_epoch

-- The decision made of the local limiter's.
unfoldable pub of_local : LocalFallbackDecision → RateLimitDecision
of_local d = record {
  allowed = d.allowed;
  limit = d.limit;
  remaining = pos d.remaining;
  reset_at_epoch_seconds = pos d.reset_at_epoch_seconds;
  retry_after_seconds = d.retry_after_seconds;
  degraded = true;
  local_fallback = true;
}

module _ (fl : Float) (r : Redis fl.F) where
  open fl use {F, of_int, add, div, ceil}
  open r use {Db}

  -- What the service and the processes that it calls keep.
  pub record World : Type 0 where
    pub db : Db
    pub local : LocalFallbackLimiter F
    pub metrics : Metrics

  -- The script of the policy's algorithm, with the arguments that `_run_policy` passes.
  unfoldable pub script_of : RateLimitAlgorithm → Policy → Text → Attempt → Db → Reply × Db
  script_of fixed_window p key a db =
      fixed_window_lua fl r a.now_ms key p.rate (p.window_seconds * 1000) db
  script_of sliding_window_log p key a db =
      sliding_window_lua fl r a.now_ms key p.rate (p.window_seconds * 1000) a.member db
  script_of token_bucket p key a db =
      let capacity = or_default p.burst_capacity p.rate in
      let window_ms = p.window_seconds * 1000 in
      let refill_per_ms = div (of_int p.rate) (of_int window_ms) in
      let ttl_ms =
        max window_ms
          (pos_part (ceil (add (div (of_int capacity) refill_per_ms) (of_int window_ms)))) in
      token_bucket_lua fl r a.now_ms key capacity refill_per_ms (of_int 1) ttl_ms db

  -- `redis_client.eval`: none is a RedisError.
  unfoldable pub eval : Fault → Reply × Db → Db → Option Reply × Db
  eval answered (reply, db') db = (some reply, db')
  eval refused (reply, db') db = (none, db)
  eval answer_lost (reply, db') db = (none, db')

  -- `_run_policy`: none where it raises RedisError.
  unfoldable pub run_policy :
      Policy → RequestIdentity → Attempt → Db → Option RateLimitDecision × Db
  run_policy p i a db =
      let (reply, db') =
        eval a.fault (script_of p.algorithm p (build_rate_limit_key p i) a db) db in
      (elim reply [ none ↦ none | some result ↦ some (parse_common_decision result) ], db')

  -- `_recover_after_redis_failure`, when the process's clock shows `clock_ms`.
  unfoldable pub recover_after_redis_failure :
      Settings → Policy → RequestIdentity → ℕ → World → RateLimitDecision × World
  recover_after_redis_failure settings p i clock_ms w =
      let (d, local') = Local.apply fl p i none clock_ms w.local in
      if settings.enable_local_fallback_limiter
      then (
        of_local d,
        record w {
          local = local';
          metrics = mark_local_failover (algorithm_text p.algorithm) (selector_kind p) w.metrics;
        },
      )
      else (build_degraded_decision p (clock_ms / 1000), w)

  -- The loop `for attempt in range(1, max_attempts + 1)`, from `attempt` on with `rounds` left;
  -- none if the loop ends without a decision.
  pub attempts_from :
      Settings
      → Policy
      → RequestIdentity
      → (ℕ → Attempt)
      → ℕ
      → ℕ
      → ℕ
      → ℕ
      → World
      → Option RateLimitDecision × World
  attempts_from settings p i env clock_ms max_attempts zero attempt w = (none, w)
  attempts_from settings p i env clock_ms max_attempts (suc rounds) attempt w =
      let (outcome, db') = run_policy p i (env attempt) w.db in
      let failed = record w { db = db'; metrics = mark_redis_error w.metrics } in
      let again =
        attempts_from settings p i env clock_ms max_attempts rounds (attempt + 1)
          (record failed { metrics = mark_redis_retry failed.metrics }) in
      let (recovered, end) = recover_after_redis_failure settings p i clock_ms failed in
      elim outcome [
        | some d ↦ (some d, record w { db = db' })
        | none ↦ if ltb attempt max_attempts then again else (some recovered, end)
      ]

  abbrev pub max_attempts_of : Settings → ℕ
  max_attempts_of settings = max 1 (pos_part (settings.redis_retry_attempts +ℤ pos 1))

  -- `mark_rate_limit_allowed` or `mark_rate_limit_blocked`.
  abbrev pub count_decision : Policy → RateLimitDecision → World → World
  count_decision p d w =
      if d.allowed
      then record w {
        metrics = mark_rate_limit_allowed (algorithm_text p.algorithm) (selector_kind p) w.metrics;
      }
      else record w {
        metrics = mark_rate_limit_blocked (algorithm_text p.algorithm) (selector_kind p) w.metrics;
      }

  abbrev pub finish :
      Policy → Option RateLimitDecision × World → Option (RateLimitDecision × Policy) × World
  finish p (none, w) = (none, w)
  finish p (some d, w) = (some (d, p), count_decision p d w)

  -- `evaluate`, after `resolve_policy`: the decision with the policy, or `(None, None)`.
  unfoldable pub evaluate :
      Settings
      → Option Policy
      → RequestIdentity
      → (ℕ → Attempt)
      → ℕ
      → World
      → Option (RateLimitDecision × Policy) × World
  unfolding attempts_from ◌+ℤ◌
  evaluate settings none i env clock_ms w = (none, w)
  evaluate settings (some p) i env clock_ms w = finish p (
      attempts_from settings p i env clock_ms (max_attempts_of settings) (max_attempts_of settings)
        1 w)
