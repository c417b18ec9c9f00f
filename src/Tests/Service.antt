-- ===== src/Tests/Service.antt =====
-- The policy service on a cache in memory: a policy is created while a message to the other
-- instances is lost, then it is read.
use distributed_rate_limiter.Base.{
  List, Option, [], arith, if◌then◌else◌, ltb, none, refl, some, true, ℕ, ◌*◌, ◌+◌, ◌∷◌,
}
use distributed_rate_limiter.Base.Text.{codes}
use distributed_rate_limiter.Policy.{Policy, sliding_window_log}
use distributed_rate_limiter.Policy.Matcher.Best.{Selected}
use distributed_rate_limiter.Limiter.{answered, refused, answer_lost}
use distributed_rate_limiter.PolicyService.Libraries.{Library, Documented}
use distributed_rate_limiter.PolicyService.{
  CacheSettings, Calls, Store, resolve_policy, upsert_policy_by_name,
}
use distributed_rate_limiter.PolicyService.Coherent.{Coherent}
use distributed_rate_limiter.PolicyService.Operations.{Request, create, resolve, perform_all}
use distributed_rate_limiter.PolicyService.Resolves.{resolve_policy-Selected}
use distributed_rate_limiter.Tests.Sample.{payload, for_user, vip, guest}

-- A list of policies, with the time at which it is removed.
abbrev pub Entry : Type 0
Entry = ℕ × List Policy

abbrev pub read : ℕ → Option Entry → Option (List Policy)
read t none = none
read t (some (deadline, policies)) = if ltb t deadline then some policies else none

abbrev pub memory : Library
memory = record {
  Cache = Option Entry;
  Json = List Policy;
  is_truthy = λ j. true;
  get = read;
  setex = λ s ttl j c. some (s + ttl * 1000, j);
  delete = λ c. none;
  dumps = λ policies. policies;
  loads = λ j. j;
  order_by = λ rows. rows;
}

pub memory-Documented : Documented memory
memory-Documented = record {
  get-setex = λ s t ttl j c le. refl;
  get-delete = λ t c. refl;
  loads-dumps = λ policies. refl;
  order_by-Elem = λ p rows. (λ m. m, λ m. m);
}

abbrev pub settings : CacheSettings
settings = record {
  policy_cache_ttl_seconds = 30;
  local_policy_cache_ttl_seconds = 5;
  enable_policy_pubsub = true;
}

abbrev pub calls : Calls
calls = record {
  get_call = answered;
  setex_call = answer_lost;
  delete_call = answered;
  publish_call = refused;
}

abbrev pub start : Store memory
start = record {
  rows = [];
  cache = none;
  snapshot = none;
  metrics = record { policy_cache_hits = 0; policy_cache_misses = 0; redis_errors = 0 };
}

start-Coherent : Coherent memory memory-Documented settings 1000 start
start-Coherent = record { cached = λ t j le e. cc; shot = λ sn e. cc }

abbrev requests : List Request
requests =
    record { operation = resolve vip; calls = calls; at_ms = 1000 }
    ∷ record {
      operation = create (codes "77aa") (payload sliding_window_log for_user);
      calls = calls;
      at_ms = 2000;
    }
    ∷ record { operation = resolve guest; calls = calls; at_ms = 2500 }
    ∷ []

resolve_policy-Selected_example :
    Selected
      (perform_all memory settings requests start).rows
      vip
      (resolve_policy memory settings calls 3000 vip (perform_all memory settings requests start)).0
resolve_policy-Selected_example =
    resolve_policy-Selected memory memory-Documented settings 1000 3000 requests start calls vip
      (omega arith, refl, (omega arith, refl, (omega arith, refl, omega arith))) start-Coherent

abbrev pub new_row : Policy
new_row = record {
  payload = payload sliding_window_log for_user;
  id = codes "77aa";
  version = 1;
  created_at = 2000;
  updated_at = 2000;
}

abbrev synced : Store memory
synced =
    (upsert_policy_by_name memory settings calls (codes "77aa") 2000
      (payload sliding_window_log for_user) start).1
