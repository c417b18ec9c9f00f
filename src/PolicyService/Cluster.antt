-- ===== src/PolicyService/Cluster.antt =====
-- Several processes, with one database and one Redis server: their reads and writes of policies,
-- taken apart at each `await`, in any order. Every call of Redis can fail, and every message of the
-- refresh channel can be lost, since no step has to be taken. What a process does with a list that
-- it was given comes at most `delay_ms` later. Times are milliseconds.
pub mod Ages
pub mod Settles
use distributed_rate_limiter.Base.{
  List, Option, none, some, if◌then◌else◌, true, ℕ, ◌*◌, ◌+◌, ◌==◌, ◌≡◌, ◌≤◌,
}
use distributed_rate_limiter.Policy.{Policy}
use distributed_rate_limiter.PolicyService.Libraries.{Library}
use distributed_rate_limiter.PolicyService.{
  CacheSettings, LocalPolicySnapshot, payload_of, get_fresh, list_policies,
}

-- Where a list comes from.
pub data Source : Type 0 where
  redis postgres : Source

-- A call of `list_active_policies_cached` that has its list, before it is kept as a snapshot.
pub record Load : Type 0 where
  pub process : ℕ
  pub source : Source
  pub loaded : List Policy
  pub loaded_at_ms : ℕ

pub data Label : Type 0 where
  silent wrote : Label
  -- a process reads a list
  read : List Policy → Label

abbrev pub put_at {ℓ} : {A : Type ℓ} → ℕ → A → (ℕ → A) → ℕ → A
put_at k a f j = if k == j then a else f j

module _ (l : Library) where
  -- The processes and the calls have numbers.
  pub record Cluster : Type 0 where
    pub now_ms : ℕ
    pub rows : List Policy
    pub cache : l.Cache
    pub snapshots : ℕ → Option LocalPolicySnapshot
    pub loads_in_flight : ℕ → Option Load

  module _ (settings : CacheSettings) (delay_ms : ℕ) where
    pub data Step (c : Cluster) : Label → Cluster → Type 0 where
      tick : (t : ℕ) → c.now_ms ≤ t → Step c silent (record c { now_ms = t })
      -- a transaction of any process commits
      commit : (rows : List Policy) → Step c wrote (record c { rows = rows })
      -- `snapshot_store.clear()`, of an invalidation or of `policy_refresh_listener`; or a process
      -- starts
      clear :
          (process : ℕ) → Step c silent (record c { snapshots = put_at process none c.snapshots })
      -- `redis_client.delete(policy_cache_key)`
      delete : Step c silent (record c { cache = l.delete c.cache })
      -- `redis_client.get(policy_cache_key)` finds a payload
      get :
          (call process : ℕ) (payload : l.Json)
          → payload_of l (l.get c.now_ms c.cache) ≡ some payload
          → Step c silent (record c {
            loads_in_flight =
                put_at call
                  (some (record {
                    process = process;
                    source = redis;
                    loaded = l.loads payload;
                    loaded_at_ms = c.now_ms;
                  }))
                  c.loads_in_flight;
          })
      -- `list_policies(active_only=True)`
      list :
          (call process : ℕ)
          → Step c silent (record c {
            loads_in_flight =
                put_at call
                  (some (record {
                    process = process;
                    source = postgres;
                    loaded = list_policies l true c.rows;
                    loaded_at_ms = c.now_ms;
                  }))
                  c.loads_in_flight;
          })
      -- `redis_client.setex(policy_cache_key, …)`
      setex :
          (call : ℕ) (load : Load)
          → c.loads_in_flight call ≡ some load
          → load.source ≡ postgres
          → c.now_ms ≤ load.loaded_at_ms + delay_ms
          → Step c silent (record c {
            cache =
                l.setex c.now_ms settings.policy_cache_ttl_seconds (l.dumps load.loaded) c.cache;
          })
      -- `snapshot_store.set(policies)`, and the call returns the list
      set :
          (call : ℕ) (load : Load)
          → c.loads_in_flight call ≡ some load
          → c.now_ms ≤ load.loaded_at_ms + delay_ms
          → Step c (read load.loaded) (record c {
            snapshots =
                put_at load.process
                  (some (record { policies = load.loaded; loaded_at_monotonic = c.now_ms }))
                  c.snapshots;
            loads_in_flight = put_at call none c.loads_in_flight;
          })
      -- Redis fails, and `snapshot_store.get_fresh(local_policy_cache_ttl_seconds)` finds a list
      get_local :
          (process : ℕ) (found : List Policy)
          → get_fresh l settings.local_policy_cache_ttl_seconds c.now_ms (c.snapshots process)
            ≡ some found
          → Step c (read found) c

    -- Any number of steps, with the labels that are allowed.
    pub data Run (Allowed : Label → Type 0) (c : Cluster) : Cluster → Type 0 where
      here : Run Allowed c c
      next :
          {d e : Cluster} {a : Label} → Run Allowed c d → Allowed a → Step d a e → Run Allowed c e

-- No transaction commits.
abbrev pub Quiet : Label → Type 0
Quiet wrote = ⊥
Quiet _ = Unit

abbrev pub AnyLabel : Label → Type 0
AnyLabel a = Unit

-- After this time, nothing from before is left in use.
abbrev pub settling_ms : CacheSettings → ℕ → ℕ
settling_ms settings delay_ms =
    delay_ms
    + settings.policy_cache_ttl_seconds * 1000
    + delay_ms
    + settings.local_policy_cache_ttl_seconds * 1000
