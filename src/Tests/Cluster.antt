-- ===== src/Tests/Cluster.antt =====
-- Two processes: the first fills the cache before a policy is written, and the cache's key is not
-- deleted, so that the second keeps a list without that policy.
use distributed_rate_limiter.Base.{[], arith, none, refl, some, true, ℕ, ◌∷◌, ◌≡◌}
use distributed_rate_limiter.PolicyService.{
  CacheMetrics, Calls, list_policies, list_active_policies_cached,
}
use distributed_rate_limiter.PolicyService.Cluster.{
  Cluster, Label, Load, Step, put_at, Run, here, next, Quiet, AnyLabel, tick, commit, get, list,
  setex, set, redis, postgres,
}
use distributed_rate_limiter.PolicyService.Cluster.Ages.{Fresh}
use distributed_rate_limiter.PolicyService.Cluster.Settles.{Lists, view, cluster_settles}
use distributed_rate_limiter.Tests.Sample.{user_policy}
use distributed_rate_limiter.Tests.Service.{memory, memory-Documented, settings}

abbrev start : Cluster memory
start = record {
  now_ms = 0;
  rows = [];
  cache = none;
  snapshots = λ p. none;
  loads_in_flight = λ k. none;
}

abbrev first : Load
first = record { process = 0; source = postgres; loaded = []; loaded_at_ms = 0 }

abbrev second : Load
second = record { process = 1; source = redis; loaded = []; loaded_at_ms = 0 }

abbrev written : Cluster memory
written = record start {
  rows = user_policy ∷ [];
  cache = memory.setex 0 30 [] none;
  loads_in_flight = put_at 0 (some first) (λ k. none);
}

abbrev later : Cluster memory
later = record written {
  now_ms = 40000;
  snapshots = put_at 1 (some (record { policies = []; loaded_at_monotonic = 0 })) (λ p. none);
  loads_in_flight = put_at 1 none (put_at 1 (some second) (put_at 0 (some first) (λ k. none)));
}

history : Run memory settings 100 AnyLabel start written
unfolding list_policies
history =
    next (next (next here tt (list 0 0)) tt (setex 0 first refl refl (omega arith))) tt
      (commit (user_policy ∷ []))

quiet : Run memory settings 100 Quiet written later
quiet =
    next (next (next here tt (get 1 1 [] refl)) tt (set 1 second refl (omega arith))) tt
      (tick 40000 (omega arith))

start-Fresh : Fresh memory memory-Documented settings 100 start
start-Fresh = record { no_payload = λ t. refl; no_snapshot = λ p. refl; no_load = λ k. refl }

cluster_settles_example :
    ((a : Label) (c : Cluster memory)
      → Step memory settings 100 later a c
      → Lists (list_policies memory true (user_policy ∷ [])) a)
    × ((p : ℕ) (metrics : CacheMetrics) (calls : Calls)
        → (list_active_policies_cached memory settings calls 40000 (view memory p metrics later)).0
          ≡ list_policies memory true (user_policy ∷ []))
cluster_settles_example =
    cluster_settles memory memory-Documented settings 100 start written later start-Fresh history
      quiet (omega arith)

abbrev no_counts : CacheMetrics
no_counts = record { policy_cache_hits = 0; policy_cache_misses = 0; redis_errors = 0 }
