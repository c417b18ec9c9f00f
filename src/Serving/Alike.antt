-- ===== src/Serving/Alike.antt =====
-- Requests that no policy limits, and the evaluation over the internal route.
use distributed_rate_limiter.Base.{
  Bool-cases, List, [], ap, inl, inr, none, refl, some, true, ℕ, ◌≡◌, ◌≤◌,
}
use distributed_rate_limiter.Base.Text.{Text}
use distributed_rate_limiter.Float.{Float}
use distributed_rate_limiter.Policy.{Policy}
use distributed_rate_limiter.Keys.{Request, build_request_identity}
use distributed_rate_limiter.Redis.{Redis}
use distributed_rate_limiter.PolicyService.Libraries.{Library, Documented}
use distributed_rate_limiter.Api.{
  RateLimitEvaluationResponse, enforce_rate_limit, evaluate_rate_limit,
}
use distributed_rate_limiter.Serving.{
  AppSettings, Arrival, AppState, RequestState, evaluate_identity, Answer, respond, is_served,
  limited, internal_evaluate, accepts_body,
}
use distributed_rate_limiter.Serving.Attempted.{Fresh, best_for, evaluate_identity-unlimited}

-- The headers that come back, of the exception or beside the body.
abbrev pub headers_of {ℓ} : {A : Type ℓ} → Answer A → List (Text × Text)
headers_of (inl exception) = exception.headers
headers_of (inr (own, body)) = own

module _ (fl : Float) (r : Redis fl.F) (l : Library) where
  module _ (laws : Documented l) (config : AppSettings) (rows : List Policy) {A : Type 0}
      (body : AppSettings → Request → RequestState → A) where
    -- While the cache of policies agrees with the database, a request that no active policy of the
    -- database matches is answered by the body of the route, with no header of the limiter, whatever
    -- Redis does. The counters of the evaluation, the local limiter and what the scripts keep stay as
    -- they are; the counters of the policy cache may move, and the cache goes on to agree with the
    -- database.
    pub limited_free :
        (low : ℕ) (q : Arrival) (request : Request) (a : AppState fl r l config)
        → low ≤ q.monotonic_ms
        → Fresh fl r l laws config rows low a.store
        → best_for fl r l laws config rows (build_request_identity request) ≡ none
        → let (answer, a') = limited fl r l config body q request a in
          (answer ≡ inr ([], body config request none))
          × (a'.world ≡ a.world)
          × Fresh fl r l laws config rows q.monotonic_ms a'.store
    unfolding limited enforce_rate_limit
    limited_free low q request a le fresh free =
        let i = build_request_identity request in
        let (state, world, fresh') =
          evaluate_identity-unlimited fl r l laws config rows low q i a le fresh free in
        (
          ap
              (λ s.
                let enforced = enforce_rate_limit s in
                respond enforced.raised enforced.response_headers (body config request s))
              state,
          world,
          fresh',
        )

  module _ (config : AppSettings) {A : Type 0}
      (body : AppSettings → Request → RequestState → A) where
    alike :
        (request : Request) (state : RequestState)
        → let enforced = enforce_rate_limit state in
          let answer =
            respond enforced.raised enforced.response_headers (body config request state) in
          let evaluation = evaluate_rate_limit state in
          (is_served answer ≡ evaluation.allowed) × (headers_of answer ≡ evaluation.headers)
    unfolding enforce_rate_limit evaluate_rate_limit
    alike request none = (refl, refl)
    alike request (some (d, p)) = elim (Bool-cases d.allowed) [
      | inl e ↦ rw e (refl, refl)
      | inr e ↦ rw e (refl, refl)
    ]

    -- For the identity of a request whose texts have lengths that the schema of the body takes, the
    -- internal evaluation, past its token check, does what a limited route does with the request
    -- itself: it answers, it leaves the same state, it allows exactly what the route serves, and it
    -- gives the headers that the route's response has, served or not.
    pub internal_evaluate-limited :
        (q : Arrival) (request : Request) (a : AppState fl r l config)
        → accepts_body (build_request_identity request) ≡ true
        → let (answer, a') = limited fl r l config body q request a in
          let (result, b) = internal_evaluate fl r l config q (build_request_identity request) a in
          (a' ≡ b)
          × (evaluation : RateLimitEvaluationResponse) × (result ≡ some evaluation)
          × (is_served answer ≡ evaluation.allowed)
          × (headers_of answer ≡ evaluation.headers)
    unfolding limited internal_evaluate
    internal_evaluate-limited q request a ok =
        let (state, _) = evaluate_identity fl r l config q (build_request_identity request) a in
        let (served, own) = alike request state in
        rw ok (refl, evaluate_rate_limit state, refl, served, own)
