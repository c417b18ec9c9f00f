-- ===== src/Tests/Serving.antt =====
-- Three requests of a demo route on the test server, each of which Redis refuses once before it
-- answers.
use distributed_rate_limiter.Base.{
  List, [], arith, count_if, if◌then◌else◌, inr, none, refl, some, suc, true, zero, ℕ, ◌+◌, ◌<◌,
  ◌==◌, ◌∷◌, ◌≡◌,
}
use distributed_rate_limiter.Base.Text.{Text, codes}
use distributed_rate_limiter.Float.Fixed.{fixed}
use distributed_rate_limiter.Policy.{Policy}
use distributed_rate_limiter.Policy.Matcher.{select_best_policy, policy_matches, max_by_score}
use distributed_rate_limiter.Keys.{
  Request, build_request_identity, build_rate_limit_key, extract_client_ip, strip, before_comma,
}
use distributed_rate_limiter.Limiter.{Attempt, refused, answered}
use distributed_rate_limiter.PolicyService.{list_policies}
use distributed_rate_limiter.Api.{RateLimitEvaluationResponse}
use distributed_rate_limiter.Serving.{
  AppSettings, Arrival, AppState, limited_all, limited, demo_protected, demo_public, demo_user,
  internal_evaluate, accepts_body, is_served,
}
use distributed_rate_limiter.Serving.Attempted.{Fresh, best_for}
use distributed_rate_limiter.Serving.Requests.{Runs, Reaches, answers_of}
use distributed_rate_limiter.Base.Int.{◌+ℤ◌}
use distributed_rate_limiter.Base.Text.{option_text_eq}
use distributed_rate_limiter.Redis.Scripts.{window_key}
use distributed_rate_limiter.Redis.Scripts.FixedWindow
use distributed_rate_limiter.Serving.Alike.{limited_free, internal_evaluate-limited, headers_of}
use distributed_rate_limiter.Serving.Exact.{limited_all-served, limited_all-fixed_window}
use distributed_rate_limiter.Tests.Sample.{route_policy}
use distributed_rate_limiter.Tests.Server.{server, server-Counters, no_counters}
use distributed_rate_limiter.Tests.Limiter
use distributed_rate_limiter.Tests.Service.{memory, memory-Documented}
use distributed_rate_limiter.Tests.Service

abbrev config : AppSettings
config = record {
  cache = Service.settings;
  limiter = Limiter.settings true;
  app_instance_name = codes "api-1";
}

abbrev request : Request
request = record {
  header = λ name. none;
  path_user_id = none;
  client_host = some (codes "10.0.0.1");
  route_path = some (codes "/demo");
  url_path = codes "/demo";
}

abbrev key : Text
key = build_rate_limit_key route_policy (build_request_identity request)

abbrev retried_once : ℕ → Attempt
retried_once k = record {
  fault = if k == 1 then refused else answered;
  now_ms = 600000 + k;
  member = codes "m";
}

abbrev arrival : Arrival
arrival = record {
  calls = Service.calls;
  monotonic_ms = 2000;
  attempts = retried_once;
  clock_ms = 600004;
}

abbrev once : Arrival → ℕ
once q = 1

abbrev app : List Policy → AppState fixed server memory config
app rows = record { store = record Service.start { rows = rows }; world = Limiter.start }

abbrev arrivals : List (Arrival × Request)
arrivals = (arrival, request) ∷ (arrival, request) ∷ (arrival, request) ∷ []

start-Fresh :
    (rows : List Policy)
    → Fresh fixed server memory memory-Documented config rows 1000 (app rows).store
start-Fresh rows = (record { cached = λ t j le e. cc; shot = λ sn e. cc }, refl)

is_best :
    best_for fixed server memory memory-Documented config
      (route_policy ∷ [])
      (build_request_identity request)
    ≡ some route_policy
unfolding list_policies select_best_policy build_request_identity policy_matches option_text_eq
    max_by_score
is_best = refl

reaches_before : (k : ℕ) → k < 1 → (retried_once (1 + k)).fault ≡ refused
reaches_before zero lt = refl
reaches_before (suc k) lt = absurd (omega arith)

reaches :
    Reaches fixed server memory memory-Documented config
      (route_policy ∷ [])
      route_policy
      key
      once
      arrival
unfolding ◌+ℤ◌
reaches = (omega arith, reaches_before, refl)

runs :
    Runs fixed server memory memory-Documented config
      (route_policy ∷ [])
      route_policy
      key
      once
      1000
      arrivals
runs = (
  omega arith,
  reaches,
  (is_best, refl),
  (omega arith, reaches, (is_best, refl), (omega arith, reaches, (is_best, refl), tt)),
)

limited_all-served_example :
    count_if is_served
      (limited_all fixed server memory config demo_protected arrivals (app (route_policy ∷ [])))
    ≡ 2
limited_all-served_example =
    limited_all-served fixed server memory memory-Documented config (route_policy ∷ []) route_policy
      key once server-Counters demo_protected 600000 1000 500 arrivals (app (route_policy ∷ []))
      refl (omega arith) (start-Fresh _) runs (omega arith)
      (λ w. no_counters fixed.F 500 (window_key key w)) (refl, (refl, (refl, tt)))

limited_all-fixed_window_example :
    limited_all fixed server memory config demo_protected arrivals (app (route_policy ∷ []))
    ≡ answers_of fixed server memory memory-Documented config
        (route_policy ∷ [])
        route_policy
        key
        once
        demo_protected
        arrivals
        (FixedWindow.algorithm_replies fixed server server-Counters key 2 600 none
          (600002 ∷ 600002 ∷ 600002 ∷ []))
limited_all-fixed_window_example =
    limited_all-fixed_window fixed server memory memory-Documented config (route_policy ∷ [])
      route_policy key once server-Counters demo_protected 1000 500 arrivals
      (app (route_policy ∷ [])) refl (omega arith) (start-Fresh _) runs (omega arith)
      (λ w. no_counters fixed.F 500 (window_key key w))

is_free :
    best_for fixed server memory memory-Documented config [] (build_request_identity request) ≡ none
unfolding list_policies select_best_policy
is_free = refl

limited_free_example :
    let (answer, a') =
      limited fixed server memory config (demo_user (codes "vip")) arrival request (app []) in
    (answer ≡ inr ([], demo_user (codes "vip") config request none))
    × (a'.world ≡ (app []).world)
    × Fresh fixed server memory memory-Documented config [] 2000 a'.store
limited_free_example =
    limited_free fixed server memory memory-Documented config [] (demo_user (codes "vip")) 1000
      arrival request (app []) (omega arith) (start-Fresh []) is_free

internal_evaluate-limited_example :
    let a = app (route_policy ∷ []) in
    let (answer, a') = limited fixed server memory config demo_public arrival request a in
    let (result, b) =
      internal_evaluate fixed server memory config arrival (build_request_identity request) a in
    (a' ≡ b)
    × (evaluation : RateLimitEvaluationResponse) × (result ≡ some evaluation)
    × (is_served answer ≡ evaluation.allowed)
    × (headers_of answer ≡ evaluation.headers)
unfolding accepts_body build_request_identity extract_client_ip strip before_comma
internal_evaluate-limited_example =
    internal_evaluate-limited fixed server memory config demo_public arrival request
      (app (route_policy ∷ [])) refl
