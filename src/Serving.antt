-- ===== src/Serving.antt =====
-- The limited routes from the request to the response: the dependencies of app/core/dependencies.py
-- over `request.app.state`, with the routes of app/api/demo.py, app/api/services.py and the
-- evaluation of app/api/internal.py. A dependency is constructed anew for each request, over the
-- same store, Redis and local limiter, so that the state is all that requests share.
pub mod Attempted
pub mod Requests
pub mod Exact
pub mod Alike
use distributed_rate_limiter.Base.{
  &&_split, ==_iff, All, All-append, All_Elem, Ascending, Bool, Bool-cases, Elem, Elem-keep_if,
  Elem-keep_if_of, List, Option, Option-cases, Ordering, Sum-cases, [], ap, append-nil,
  append_assoc, arith, ceil_seconds, compare, count_if, false, get_elem?, head?, if◌then◌else◌, inl,
  inr, keep_if, leb, leb→le, length, length-append, le→leb, ltb, ltb→lt, lt→ltb, map, max, min,
  none, not, not_leb→lt, not_ltb→le, refl, some, subst, suc, sym, true, zero, ℕ, ◌%◌, ◌&&◌, ◌*◌,
  ◌++◌, ◌+◌, ◌-◌, ◌/◌, ◌<◌, ◌==◌, ◌^◌, ◌||◌, ◌↔◌, ◌∙◌, ◌∷◌, ◌≡◌, ◌≢◌, ◌≤◌, ◌⊎◌,
}
use distributed_rate_limiter.Base.Text.{Text, codes}
use distributed_rate_limiter.Float.{Float}
use distributed_rate_limiter.Policy.{Policy, fits}
use distributed_rate_limiter.Keys.{RequestIdentity, Request, build_request_identity, route_template}
use distributed_rate_limiter.Redis.{Redis}
use distributed_rate_limiter.Limiter.{
  RateLimitDecision, Settings, Attempt, World, evaluate, headers,
}
use distributed_rate_limiter.PolicyService.Libraries.{Library}
use distributed_rate_limiter.PolicyService.{CacheSettings, Calls, Store, resolve_policy}
use distributed_rate_limiter.Api.{
  HttpException, enforce_rate_limit, RateLimitEvaluationResponse, evaluate_rate_limit,
}

-- The parts of `app.state.settings` that the dependencies read.
pub record AppSettings : Type 0 where
  pub cache : CacheSettings
  pub limiter : Settings
  pub app_instance_name : Text

-- What the environment decides for one request: its Redis calls, its attempts to run a script, and
-- the clocks, the monotonic one of the policy cache and the wall clock of the local limiter.
pub record Arrival : Type 0 where
  pub calls : Calls
  pub monotonic_ms : ℕ
  pub attempts : ℕ → Attempt
  pub clock_ms : ℕ

-- `request.state`, where the dependency leaves the decision and the policy.
abbrev pub RequestState : Type 0
RequestState = Option (RateLimitDecision × Policy)

pub record RoutePayload : Type 0 where
  pub message : Text
  pub instance_name : Text
  pub route : Text
  pub policy : Option Policy
  pub decision : Option (List (Text × Text))

-- `service` and `operation` beside the fields of a demo route.
pub record ServicePayload : Type 0 where
  pub service : Text
  pub operation : Text
  pub payload : RoutePayload

abbrev pub effective_policy : RequestState → Option Policy
effective_policy none = none
effective_policy (some (decision, policy)) = some policy

abbrev pub decision_headers : RequestState → Option (List (Text × Text))
decision_headers none = none
decision_headers (some (decision, policy)) = some (headers decision)

-- `build_demo_payload`
unfoldable pub build_demo_payload : AppSettings → Request → RequestState → Text → RoutePayload
build_demo_payload config request state message = record {
  message = message;
  instance_name = config.app_instance_name;
  route = route_template request;
  policy = effective_policy state;
  decision = decision_headers state;
}

-- `build_service_payload`
unfoldable pub build_service_payload :
    AppSettings → Text → Text → Request → RequestState → ServicePayload
unfolding build_demo_payload
build_service_payload config service operation request state = record {
  service = service;
  operation = operation;
  payload = build_demo_payload config request state (
      service
      ++ codes " handled "
      ++ operation
      ++ codes ". This route demonstrates how the limiter can protect platform services.");
}

-- The bodies of the limited routes, run where the dependency raised nothing.
unfoldable pub demo_public : AppSettings → Request → RequestState → RoutePayload
demo_public config request state = build_demo_payload config request state (
    codes "Public endpoint reached. "
    ++ codes "If Redis is unavailable and the policy is fail-open, requests continue.")

unfoldable pub demo_protected : AppSettings → Request → RequestState → RoutePayload
demo_protected config request state = build_demo_payload config request state (
    codes "Protected endpoint reached. "
    ++ codes "In fail-closed mode the limiter blocks when Redis is unavailable.")

unfoldable pub demo_user : Text → AppSettings → Request → RequestState → RoutePayload
demo_user user_id config request state = build_demo_payload config request state (
    codes "User-scoped endpoint reached for "
    ++ user_id
    ++ codes ". User-specific or composite policies take priority.")

unfoldable pub auth_session : AppSettings → Request → RequestState → ServicePayload
auth_session config = build_service_payload config (codes "auth") (codes "create-session")

unfoldable pub payments_authorize : AppSettings → Request → RequestState → ServicePayload
payments_authorize config =
    build_service_payload config (codes "payments") (codes "authorize-charge")

unfoldable pub search_query : AppSettings → Request → RequestState → ServicePayload
search_query config = build_service_payload config (codes "search") (codes "query-index")

-- What a limited route answers: the exception of its dependency, which has headers of its own, or
-- the headers that the dependency set with what the body returned.
abbrev pub Answer {ℓ} : Type ℓ → Type ℓ
Answer A = HttpException ⊎ List (Text × Text) × A

abbrev pub respond {ℓ} : {A : Type ℓ} → Option HttpException → List (Text × Text) → A → Answer A
respond (some exception) own body = inl exception
respond none own body = inr (own, body)

-- Whether the body of the route has answered.
abbrev pub is_served {ℓ} : {A : Type ℓ} → Answer A → Bool
is_served (inl exception) = false
is_served (inr answer) = true

-- `RateLimitEvaluationRequest`: the lengths that the schema of the body takes.
unfoldable pub accepts_body : RequestIdentity → Bool
accepts_body i =
    leb 1 (length i.route)
    && (fits 255 (some i.route)
        && (fits 128 i.user_id
            && (fits 64 i.ip_address && (fits 128 i.tenant_id && fits 128 i.api_key))))

module _ (fl : Float) (r : Redis fl.F) (l : Library) (config : AppSettings) where
  -- What `app.state` keeps between requests, with the database.
  pub record AppState : Type 0 where
    pub store : Store l
    pub world : World fl r

  -- `RateLimiterService.evaluate` as `get_rate_limiter` constructs the service, on
  -- `get_policy_service`.
  unfoldable pub evaluate_identity : Arrival → RequestIdentity → AppState → RequestState × AppState
  evaluate_identity q i a =
      let (policy, store') = resolve_policy l config.cache q.calls q.monotonic_ms i a.store in
      let (outcome, world') = evaluate fl r config.limiter policy i q.attempts q.clock_ms a.world in
      (outcome, record { store = store'; world = world' })

  -- A route with `Depends(enforce_rate_limit)`, for the body `body`.
  unfoldable pub limited {ℓ} :
      {A : Type ℓ}
      → (AppSettings → Request → RequestState → A)
      → Arrival
      → Request
      → AppState
      → Answer A × AppState
  limited body q request a =
      let (state, a') = evaluate_identity q (build_request_identity request) a in
      let enforced = enforce_rate_limit state in
      (respond enforced.raised enforced.response_headers (body config request state), a')

  -- `POST /internal/evaluate` past the token check; none is the 422 for a body that the schema
  -- refuses.
  unfoldable pub internal_evaluate :
      Arrival → RequestIdentity → AppState → Option RateLimitEvaluationResponse × AppState
  internal_evaluate q i a =
      let (state, a') = evaluate_identity q i a in
      if accepts_body i then (some (evaluate_rate_limit state), a') else (none, a)

  -- Requests of one route in turn.
  pub limited_all {ℓ} :
      {A : Type ℓ}
      → (AppSettings → Request → RequestState → A)
      → List (Arrival × Request)
      → AppState
      → List (Answer A)
  limited_all body [] a = []
  limited_all body ((q, request) ∷ rest) a =
      let (answer, a') = limited body q request a in answer ∷ limited_all body rest a'
