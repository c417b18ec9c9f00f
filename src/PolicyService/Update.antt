-- ===== src/PolicyService/Update.antt =====
-- `PolicyUpdate` of app/schemas/policy.py, and the payload that `update_policy` merges. Each field
-- is unset, null, or a value. The `Field` constraints are those of `PolicyBase`, which the merged
-- payload is checked against.
use distributed_rate_limiter.Base.{Bool, Option, none, not, some, ℕ, ◌||◌}
use distributed_rate_limiter.Base.Int.{ℤ}
use distributed_rate_limiter.Base.Text.{Text, is_some}
use distributed_rate_limiter.Policy.{PolicyCreate, Selectors, RateLimitAlgorithm, FailureMode}

abbrev pub Field : Type 0 → Type 0
Field A = Option (Option A)

pub record PolicyUpdate : Type 0 where
  pub name : Field Text
  pub description : Field Text
  pub algorithm : Field RateLimitAlgorithm
  pub rate : Field ℕ
  pub window_seconds : Field ℕ
  pub burst_capacity : Field ℕ
  pub active : Field Bool
  pub priority : Field ℤ
  pub route : Field Text
  pub user_id : Field Text
  pub ip_address : Field Text
  pub tenant_id : Field Text
  pub api_key : Field Text
  pub failure_mode : Field FailureMode

-- `not update_data`
unfoldable pub is_empty : PolicyUpdate → Bool
is_empty u = not (
    is_some u.name
    || is_some u.description
    || is_some u.algorithm
    || is_some u.rate
    || is_some u.window_seconds
    || is_some u.burst_capacity
    || is_some u.active
    || is_some u.priority
    || is_some u.route
    || is_some u.user_id
    || is_some u.ip_address
    || is_some u.tenant_id
    || is_some u.api_key
    || is_some u.failure_mode)

infixl 20 ◌>>=◌
abbrev pub ◌>>=◌ : {A B : Type 0} → Option A → (A → Option B) → Option B
none >>= f = none
some a >>= f = f a

-- A field that may not be null; none is null.
abbrev pub required : {A : Type 0} → A → Field A → Option A
required old none = some old
required old (some v) = v

abbrev pub nullable : {A : Type 0} → Option A → Field A → Option A
nullable old none = old
nullable old (some v) = v

-- `self._to_policy_payload(policy) | update_data`; none where a field that may not be null is.
unfoldable pub merged : PolicyCreate → PolicyUpdate → Option PolicyCreate
merged p u = do
  name ← required p.name u.name
  algorithm ← required p.algorithm u.algorithm
  rate ← required p.rate u.rate
  window_seconds ← required p.window_seconds u.window_seconds
  active ← required p.active u.active
  priority ← required p.priority u.priority
  failure_mode ← required p.failure_mode u.failure_mode
  let selectors : Selectors = record {
    route = nullable p.route u.route;
    user_id = nullable p.user_id u.user_id;
    ip_address = nullable p.ip_address u.ip_address;
    tenant_id = nullable p.tenant_id u.tenant_id;
    api_key = nullable p.api_key u.api_key;
  }
  some (record {
    name = name;
    description = nullable p.description u.description;
    algorithm = algorithm;
    rate = rate;
    window_seconds = window_seconds;
    burst_capacity = nullable p.burst_capacity u.burst_capacity;
    active = active;
    priority = priority;
    selectors = selectors;
    failure_mode = failure_mode;
  })
