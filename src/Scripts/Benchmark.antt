-- ===== src/Scripts/Benchmark.antt =====
-- scripts/run_benchmark.py: the scenarios, their policies and how these are prepared over the
-- admin API, the target hosts that it hands to loadtests/locustfile.py, and the counts of its
-- summary. The arguments are ASCII. The matches of the regular expression are an argument.
pub mod Scenarios
pub mod Hosts
pub mod Prepare
pub mod Counts
pub mod Console
pub mod Run
use distributed_rate_limiter.Base.{
  Bool, List, Option, [], false, if◌then◌else◌, inl, inr, leb, none, some, true, ℕ, ◌&&◌, ◌+◌, ◌||◌,
  ◌∷◌, ◌⊎◌,
}
use distributed_rate_limiter.Base.Text.{Text, codes, text_eq}
use distributed_rate_limiter.Policy.{
  Policy, PolicyCreate, token_bucket, sliding_window_log, fixed_window, fail_closed,
}
use distributed_rate_limiter.Keys.{strip}
use distributed_rate_limiter.PolicyService.Libraries.{Library}
use distributed_rate_limiter.PolicyService.Update.{PolicyUpdate}
use distributed_rate_limiter.PolicyService.{CacheSettings, Store}
use distributed_rate_limiter.Api.{Raised, admin_create, admin_list, admin_update}
use distributed_rate_limiter.Scripts.{for_route, per_minute}
use distributed_rate_limiter.Scripts.Seed.{Creation}

-- SCENARIO_ALIASES
abbrev pub scenario_aliases : List (Text × Text)
scenario_aliases =
    (codes "mixed", codes "mixed")
    ∷ (codes "shared-quota", codes "shared-protected")
    ∷ (codes "shared-protected", codes "shared-protected")
    ∷ (codes "burst-route", codes "protected-burst")
    ∷ (codes "protected-burst", codes "protected-burst")
    ∷ (codes "user-hotspot", codes "user-hotspot")
    ∷ (codes "ip-hotspot", codes "ip-hotspot")
    ∷ (codes "platform-services", codes "platform-services")
    ∷ []

-- SCENARIO_LABELS
abbrev pub scenario_labels : List (Text × Text)
scenario_labels =
    (codes "mixed", codes "mixed")
    ∷ (codes "shared-protected", codes "shared-quota")
    ∷ (codes "protected-burst", codes "burst-route")
    ∷ (codes "user-hotspot", codes "user-hotspot")
    ∷ (codes "ip-hotspot", codes "ip-hotspot")
    ∷ (codes "platform-services", codes "platform-services")
    ∷ []

-- `table[key]`; none where it raises KeyError.
unfoldable pub lookup {ℓ} : {A : Type ℓ} → Text → List (Text × A) → Option A
unfolding text_eq
lookup key [] = none
lookup key ((k, v) ∷ table) =
    let later = lookup key table in if text_eq k key then some v else later

-- `text.lower()`
abbrev pub lower : Text → Text
lower [] = []
lower (c ∷ s) = (if leb 65 c && leb c 90 then c + 32 else c) ∷ lower s

-- `normalize_scenario`; none where it raises ValueError.
unfoldable pub normalize_scenario : Text → Option Text
unfolding lookup strip
normalize_scenario raw_scenario = lookup (lower (strip raw_scenario)) scenario_aliases

-- `display_scenario_name`; none where it raises KeyError.
unfoldable pub display_scenario_name : Text → Option Text
unfolding lookup
display_scenario_name internal_scenario = lookup internal_scenario scenario_labels

-- `benchmark_policy_payloads`
unfoldable pub benchmark_policy_payloads : Text → List PolicyCreate
unfolding text_eq
benchmark_policy_payloads scenario =
    let vip_route = record (for_route (codes "/demo/user/{user_id}")) {
      user_id = some (codes "vip-user");
    } in
    let one_ip = record (for_route (codes "/demo/protected")) {
      ip_address = some (codes "203.0.113.10");
    } in
    if text_eq scenario (codes "protected-burst") || text_eq scenario (codes "shared-protected")
    then per_minute (codes "benchmark-shared-protected")
        (codes "Benchmark policy for protected route burst traffic.") token_bucket 120 (some 120)
        (for_route (codes "/demo/protected")) fail_closed
      ∷ []
    else if text_eq scenario (codes "user-hotspot")
    then per_minute (codes "benchmark-user-hotspot")
        (codes "Benchmark policy for user-scoped route traffic.") token_bucket 90 (some 90)
        vip_route fail_closed
      ∷ []
    else if text_eq scenario (codes "ip-hotspot")
    then per_minute (codes "benchmark-ip-hotspot")
        (codes "Benchmark policy for a single forwarded IP.") fixed_window 60 none one_ip
        fail_closed
      ∷ []
    else if text_eq scenario (codes "platform-services")
    then per_minute (codes "benchmark-auth-service")
        (codes "Benchmark policy for the auth platform service.") token_bucket 80 (some 80)
        (for_route (codes "/services/auth/session")) fail_closed
      ∷ per_minute (codes "benchmark-payments-service")
          (codes "Benchmark policy for the payments platform service.") sliding_window_log 45 none
          (for_route (codes "/services/payments/authorize")) fail_closed
      ∷ per_minute (codes "benchmark-search-service")
          (codes "Benchmark policy for the search platform service.") fixed_window 120 none
          (for_route (codes "/services/search/query")) fail_closed
      ∷ []
    else per_minute (codes "benchmark-public-mixed")
        (codes "Mixed benchmark route policy for protected endpoint.") token_bucket 120 (some 120)
        (for_route (codes "/demo/protected")) fail_closed
      ∷ per_minute (codes "benchmark-user-mixed")
          (codes "Mixed benchmark route policy for user endpoint.") sliding_window_log 90 none
          vip_route fail_closed
      ∷ []

-- A key of a payload's dictionary, which is there if it has a value.
abbrev set_if {ℓ} : {A : Type ℓ} → Option A → Option (Option A)
set_if none = none
set_if (some a) = some (some a)

-- The payload's dictionary as the body of the PUT: its keys are set, the others are not.
abbrev pub update_of : PolicyCreate → PolicyUpdate
update_of p = record {
  name = some (some p.name);
  description = set_if p.description;
  algorithm = some (some p.algorithm);
  rate = some (some p.rate);
  window_seconds = some (some p.window_seconds);
  burst_capacity = set_if p.burst_capacity;
  active = none;
  priority = none;
  route = set_if p.route;
  user_id = set_if p.user_id;
  ip_address = set_if p.ip_address;
  tenant_id = none;
  api_key = none;
  failure_mode = some (some p.failure_mode);
}

-- `{item["name"]: item["id"] for item in items}.get(name)`: the last item of a name counts.
unfoldable pub id_of : Text → List Policy → Option Text
id_of name [] = none
id_of name (p ∷ items) = elim (id_of name items) [
  | some later ↦ some later
  | none ↦ if text_eq p.name name then some p.id else none
]

-- What `raise_for_status` makes of a response: true where it raises nothing.
abbrev succeeds {ℓ} : {A : Type ℓ} → Raised ⊎ A → Bool
succeeds (inl raised) = false
succeeds (inr a) = true

module _ (l : Library) (settings : CacheSettings) (creations : ℕ → Creation) where
  -- The request for one payload: a POST, or a PUT to the id that its name has.
  unfoldable pub put_or_post :
      Option Text → Creation → PolicyCreate → Store l → (Raised ⊎ Policy) × Store l
  put_or_post none c payload s = admin_create l settings c.calls c.new_id c.at_ms payload s
  put_or_post (some existing_id) c payload s =
      admin_update l settings c.calls c.at_ms existing_id (update_of payload) s

  -- The loop over the payloads, for the items that were listed before it; false where
  -- `raise_for_status` ends it.
  unfoldable pub prepare_each : List Policy → ℕ → List PolicyCreate → Store l → Bool × Store l
  unfolding id_of put_or_post
  prepare_each items n [] s = (true, s)
  prepare_each items n (payload ∷ payloads) s =
      let (response, s') = put_or_post (id_of payload.name items) (creations n) payload s in
      elim (succeeds response) [
        | true ↦ prepare_each items (n + 1) payloads s'
        | false ↦ (false, s')
      ]

  -- `prepare_benchmark_policies`, with a token that the API takes: GET /admin/policies lists the
  -- active policies, since the request gives no `active_only`.
  unfoldable pub prepare_benchmark_policies : Text → Store l → Bool × Store l
  unfolding prepare_each
  prepare_benchmark_policies scenario s =
      prepare_each (admin_list l true s).0 0 (benchmark_policy_payloads scenario) s
