-- ===== src/PolicyService.antt =====
-- app/services/policy_service.py and app/services/policy_cache.py: the policies in the database,
-- their list in the cache of Redis, and the snapshot of it in the process's memory. The database's
-- order, the JSON texts and the cache's commands are an interface. Each call of Redis has its
-- `Fault`. Times are milliseconds. Logging is left out.
pub mod Libraries
pub mod Update
pub mod Rows
pub mod Coherent
pub mod Upsert
pub mod Operations
pub mod Resolves
pub mod Cluster
use distributed_rate_limiter.Base.{
  &&_split, ==_iff, All, All-append, All_Elem, Ascending, Bool, Bool-cases, Elem, Elem-keep_if,
  Elem-keep_if_of, List, Option, Option-cases, Ordering, Sum-cases, [], ap, append-nil,
  append_assoc, arith, ceil_seconds, compare, count_if, false, get_elem?, head?, if◌then◌else◌, inl,
  inr, keep_if, leb, leb→le, length, length-append, le→leb, ltb, ltb→lt, lt→ltb, map, max, min,
  none, not, not_leb→lt, not_ltb→le, refl, some, subst, suc, sym, true, zero, ℕ, ◌%◌, ◌&&◌, ◌*◌,
  ◌++◌, ◌+◌, ◌-◌, ◌/◌, ◌<◌, ◌==◌, ◌^◌, ◌||◌, ◌↔◌, ◌∙◌, ◌∷◌, ◌≡◌, ◌≢◌, ◌≤◌, ◌⊎◌,
}
use distributed_rate_limiter.Base.Text.{Text, text_eq}
use distributed_rate_limiter.Policy.{Policy, PolicyCreate, validate}
use distributed_rate_limiter.Policy.Matcher.{select_best_policy}
use distributed_rate_limiter.Keys.{RequestIdentity}
use distributed_rate_limiter.Limiter.{Fault, answered, refused}
use Libraries.{Library}
use Rows.{payload_eq, find_id, find_name, put_row, name_taken, numbers_fit}
use Update.{PolicyUpdate, is_empty, merged}

-- The exceptions that leave the service.
pub data ServiceError : Type 0 where
  -- PolicyNotFoundError
  policy_not_found : ServiceError
  -- ValidationError of `PolicyCreate(**merged_payload)`
  validation_error : ServiceError
  -- IntegrityError of the commit: the name is taken
  integrity_error : ServiceError
  -- DataError of the commit: a number is no integer of 32 bits, which the driver refuses
  data_error : ServiceError

pub data SyncAction : Type 0 where
  created unchanged updated : SyncAction

pub record LocalPolicySnapshot : Type 0 where
  pub policies : List Policy
  pub loaded_at_monotonic : ℕ

-- The fields of `Settings` that the service reads.
pub record CacheSettings : Type 0 where
  pub policy_cache_ttl_seconds : ℕ
  pub local_policy_cache_ttl_seconds : ℕ
  pub enable_policy_pubsub : Bool

-- The counters of app/core/metrics.py that the service moves.
pub record CacheMetrics : Type 0 where
  pub policy_cache_hits : ℕ
  pub policy_cache_misses : ℕ
  pub redis_errors : ℕ

-- What happens to the calls of Redis in one operation.
pub record Calls : Type 0 where
  pub get_call : Fault
  pub setex_call : Fault
  pub delete_call : Fault
  pub publish_call : Fault

abbrev pub went_well : Fault → Bool
went_well answered = true
went_well _ = false

-- Whether the command ran on the server.
abbrev pub has_run : Fault → Bool
has_run refused = false
has_run _ = true

-- What the commit of a new or changed row raises, among the rows that are there.
unfoldable pub commit_error : Policy → List Policy → Option ServiceError
commit_error row rows =
    if not (numbers_fit row)
    then some data_error
    else if name_taken row.id row.name rows
    then some integrity_error
    else none

module _ (l : Library) where
  open l use {Cache, Json, is_truthy, get, setex, delete, dumps, loads, order_by}

  -- The database, the cache, the snapshot and the counters.
  pub record Store : Type 0 where
    pub rows : List Policy
    pub cache : Cache
    pub snapshot : Option LocalPolicySnapshot
    pub metrics : CacheMetrics

  abbrev pub mark_policy_cache_hit : Store → Store
  mark_policy_cache_hit s = record s {
    metrics = record (s.metrics) { policy_cache_hits = s.metrics.policy_cache_hits + 1 };
  }

  abbrev pub mark_policy_cache_miss : Store → Store
  mark_policy_cache_miss s = record s {
    metrics = record (s.metrics) { policy_cache_misses = s.metrics.policy_cache_misses + 1 };
  }

  abbrev pub mark_error : Store → Store
  mark_error s = record s {
    metrics = record (s.metrics) { redis_errors = s.metrics.redis_errors + 1 };
  }

  -- `PolicySnapshotStore.set`
  abbrev pub set_snapshot : ℕ → List Policy → Store → Store
  set_snapshot now_ms policies s = record s {
    snapshot = some (record { policies = policies; loaded_at_monotonic = now_ms });
  }

  -- `PolicySnapshotStore.get_fresh`
  unfoldable pub get_fresh : ℕ → ℕ → Option LocalPolicySnapshot → Option (List Policy)
  get_fresh ttl_seconds now_ms none = none
  get_fresh ttl_seconds now_ms (some snapshot) =
      let age = now_ms - snapshot.loaded_at_monotonic in
      if ltb (ttl_seconds * 1000) age then none else some snapshot.policies

  -- `PolicySnapshotStore.clear`
  abbrev pub clear_snapshot : Store → Store
  clear_snapshot s = record s { snapshot = none }

  -- `list_policies`
  unfoldable pub list_policies : Bool → List Policy → List Policy
  list_policies active_only rows =
      order_by (if active_only then keep_if (λ p. p.active) rows else rows)

  -- `invalidate_policy_cache`
  unfoldable pub invalidate_policy_cache : CacheSettings → Calls → Store → Store
  invalidate_policy_cache settings calls s =
      let cleared = clear_snapshot s in
      let deleted =
        if has_run calls.delete_call
        then record cleared { cache = delete cleared.cache }
        else cleared in
      if went_well calls.delete_call
      then if settings.enable_policy_pubsub && not (went_well calls.publish_call)
        then mark_error deleted
        else deleted
      else mark_error deleted

  -- The row and the store after the commit, or the exception, with the store as it was.
  abbrev pub committed :
      Option ServiceError → Policy → Store → Store → (ServiceError ⊎ Policy) × Store
  committed (some e) row stored s = (inl e, s)
  committed none row stored s = (inr row, stored)

  -- `create_policy`, where the database gives the row its id and its time.
  unfoldable pub create_policy :
      CacheSettings → Calls → Text → ℕ → PolicyCreate → Store → (ServiceError ⊎ Policy) × Store
  create_policy settings calls new_id now_ms payload s =
      let row : Policy = record {
        payload = payload;
        id = new_id;
        version = 1;
        created_at = now_ms;
        updated_at = now_ms;
      } in
      let stored = record s { rows = s.rows ++ row ∷ [] } in
      committed (commit_error row s.rows) row (invalidate_policy_cache settings calls stored) s

  -- `get_policy`
  unfoldable pub get_policy : Text → Store → ServiceError ⊎ Policy
  get_policy policy_id s = elim (find_id policy_id s.rows) [
    | none ↦ inl policy_not_found
    | some row ↦ inr row
  ]

  -- A changed row: the next version, committed, with the cache invalidated.
  unfoldable pub commit_row :
      CacheSettings → Calls → ℕ → PolicyCreate → Policy → Store → (ServiceError ⊎ Policy) × Store
  commit_row settings calls now_ms payload row s =
      let row' : Policy = record row {
        payload = payload;
        version = row.version + 1;
        updated_at = now_ms;
      } in
      let stored = record s { rows = put_row row' s.rows } in
      committed (commit_error row' s.rows) row' (invalidate_policy_cache settings calls stored) s

  -- `update_policy`, for the row that was found and the payload that was merged.
  abbrev pub update_row :
      CacheSettings
      → Calls
      → ℕ
      → Option PolicyCreate
      → Policy
      → Store
      → (ServiceError ⊎ Policy) × Store
  update_row settings calls now_ms none row s = (inl validation_error, s)
  update_row settings calls now_ms (some payload) row s =
      if validate payload
      then commit_row settings calls now_ms payload row s
      else (inl validation_error, s)

  -- `update_policy`
  unfoldable pub update_policy :
      CacheSettings → Calls → ℕ → Text → PolicyUpdate → Store → (ServiceError ⊎ Policy) × Store
  update_policy settings calls now_ms policy_id update s = elim (find_id policy_id s.rows) [
    | none ↦ (inl policy_not_found, s)
    | some row ↦
        if is_empty update
        then (inr row, s)
        else update_row settings calls now_ms (merged row.payload update) row s
  ]

  -- `delete_policy`
  unfoldable pub delete_policy : CacheSettings → Calls → Text → Store → Option ServiceError × Store
  delete_policy settings calls policy_id s = elim (find_id policy_id s.rows) [
    | none ↦ (some policy_not_found, s)
    | some row ↦ (
      none,
      invalidate_policy_cache settings calls
          (record s { rows = keep_if (λ p. not (text_eq p.id policy_id)) s.rows }),
    )
  ]

  abbrev pub with_action :
      SyncAction → (ServiceError ⊎ Policy) × Store → (ServiceError ⊎ Policy × SyncAction) × Store
  with_action action (inl e, s) = (inl e, s)
  with_action action (inr p, s) = (inr (p, action), s)

  -- `upsert_policy_by_name`
  unfoldable pub upsert_policy_by_name :
      CacheSettings
      → Calls
      → Text
      → ℕ
      → PolicyCreate
      → Store
      → (ServiceError ⊎ Policy × SyncAction) × Store
  upsert_policy_by_name settings calls new_id now_ms payload s =
      elim (find_name payload.name s.rows) [
        | none ↦ with_action created (create_policy settings calls new_id now_ms payload s)
        | some row ↦
            if payload_eq row.payload payload
            then (inr (row, unchanged), s)
            else with_action updated (commit_row settings calls now_ms payload row s)
      ]

  -- `if payload`: a text that is not empty.
  abbrev pub payload_of : Option Json → Option Json
  payload_of none = none
  payload_of (some payload) = if is_truthy payload then some payload else none

  -- `list_active_policies_cached`, when Redis fails.
  unfoldable pub policies_without_redis : CacheSettings → ℕ → Store → List Policy × Store
  policies_without_redis settings now_ms s =
      let policies = list_policies true s.rows in
      elim (get_fresh settings.local_policy_cache_ttl_seconds now_ms s.snapshot) [
        | some local_policies ↦ (local_policies, s)
        | none ↦ (policies, set_snapshot now_ms policies s)
      ]

  -- The rest of `list_active_policies_cached`, by what the cache gives.
  unfoldable pub policies_from :
      Option Json → CacheSettings → Calls → ℕ → Store → List Policy × Store
  policies_from (some payload) settings calls now_ms s =
      (loads payload, set_snapshot now_ms (loads payload) (mark_policy_cache_hit s))
  policies_from none settings calls now_ms s =
      let missed = mark_policy_cache_miss s in
      let policies = list_policies true missed.rows in
      let written =
        if has_run calls.setex_call
        then record missed {
          cache = setex now_ms settings.policy_cache_ttl_seconds (dumps policies) missed.cache;
        }
        else missed in
      let counted = if went_well calls.setex_call then written else mark_error written in
      (policies, set_snapshot now_ms policies counted)

  -- `list_active_policies_cached`
  unfoldable pub list_active_policies_cached :
      CacheSettings → Calls → ℕ → Store → List Policy × Store
  unfolding policies_from policies_without_redis
  list_active_policies_cached settings calls now_ms s =
      if went_well calls.get_call
      then policies_from (payload_of (get now_ms s.cache)) settings calls now_ms s
      else policies_without_redis settings now_ms (mark_error s)

  -- `resolve_policy`
  unfoldable pub resolve_policy :
      CacheSettings → Calls → ℕ → RequestIdentity → Store → Option Policy × Store
  resolve_policy settings calls now_ms i s =
      let (policies, s') = list_active_policies_cached settings calls now_ms s in
      (select_best_policy policies i, s')
