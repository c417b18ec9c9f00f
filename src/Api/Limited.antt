-- ===== src/Api/Limited.antt =====
-- The limited routes when Redis is down.
use distributed_rate_limiter.Base.{
  List, [], ap, false, none, refl, some, subst, sym, true, ℕ, ◌+◌, ◌/◌, ◌<◌, ◌∙◌, ◌∷◌, ◌≡◌, ◌≢◌,
}
use distributed_rate_limiter.Base.Text.{Text, codes, decimal}
use distributed_rate_limiter.Float.{Float}
use distributed_rate_limiter.Policy.{Policy, header_limit, FailureMode, fail_open, fail_closed}
use distributed_rate_limiter.Keys.{RequestIdentity}
use distributed_rate_limiter.Redis.{Redis}
use distributed_rate_limiter.Limiter.{
  RateLimitDecision, Settings, answered, Attempt, World, evaluate, max_attempts_of, headers,
  build_degraded_decision, by_failure_mode, headers,
}
use distributed_rate_limiter.Limiter.Retries.{evaluate_degraded}
use distributed_rate_limiter.Api.{Enforced, enforce_rate_limit}

-- The headers of a refusal while Redis is down, at the epoch second `now`: the limit of the policy,
-- nothing remaining, and a second to wait.
abbrev pub refusal_headers : Policy → ℕ → List (Text × Text)
refusal_headers p now =
    (codes "X-RateLimit-Limit", decimal (header_limit p))
    ∷ (codes "X-RateLimit-Remaining", codes "0")
    ∷ (codes "X-RateLimit-Reset", decimal (now + 1))
    ∷ (codes "Retry-After", codes "1")
    ∷ []

-- The response that a fail-closed policy gives while Redis is down.
abbrev pub Unavailable : Policy → ℕ → Enforced → Type 0
Unavailable p now e =
    (e.response_headers ≡ refusal_headers p now)
    × (e.raised
        ≡ some (record {
          status_code = 429;
          detail = codes "Rate limiter unavailable in fail-closed mode.";
          headers = refusal_headers p now;
        }))

enforced_opened :
    (d : RateLimitDecision) (p : Policy)
    → d.allowed ≡ true
    → (enforce_rate_limit (some (d, p))).raised ≡ none
unfolding enforce_rate_limit
enforced_opened d p e = rw e refl

refuses_all :
    (m : FailureMode) (p : Policy) (now : ℕ)
    → m ≡ fail_closed
    → Unavailable p now (enforce_rate_limit (some (by_failure_mode m p now, p)))
unfolding enforce_rate_limit by_failure_mode headers decimal
refuses_all fail_open p now e = cc
refuses_all fail_closed p now e = (refl, refl)

not_local :
    (m : FailureMode) (p : Policy) (now : ℕ) → (by_failure_mode m p now).local_fallback ≡ false
unfolding by_failure_mode
not_local fail_open p now = refl
not_local fail_closed p now = refl

module _ (fl : Float) (r : Redis fl.F) (settings : Settings) (p : Policy) (i : RequestIdentity)
    (env : ℕ → Attempt) (clock_ms : ℕ) (w : World fl r)
    (off : settings.enable_local_fallback_limiter ≡ false)
    (down : (k : ℕ) → k < max_attempts_of fl r settings → (env (1 + k)).fault ≢ answered) where
  abbrev response : Enforced
  response = enforce_rate_limit (evaluate fl r settings (some p) i env clock_ms w).0

  -- While every call of Redis fails and the local limiter is switched off, a route that a
  -- fail-closed policy limits answers 429 and says that the limiter is unavailable. Its headers,
  -- like those that the dependency sets on the response, give the policy's limit, nothing
  -- remaining, the next second as the reset, and one second to wait.
  pub enforce_rate_limit-Unavailable :
      p.failure_mode ≡ fail_closed → Unavailable p (clock_ms / 1000) response
  unfolding build_degraded_decision
  enforce_rate_limit-Unavailable closed =
      let (result, _, _, _) = evaluate_degraded fl r settings p i env clock_ms w off down in
      subst (λ o. Unavailable p (clock_ms / 1000) (enforce_rate_limit o))
        (sym (ap (λ o. o.0) result)) (refuses_all p.failure_mode p (clock_ms / 1000) closed)

  -- While every call of Redis fails and the local limiter is switched off, a route that a
  -- fail-open policy limits lets the request through.
  pub enforce_rate_limit_opens : p.failure_mode ≡ fail_open → response.raised ≡ none
  enforce_rate_limit_opens opened =
      let d = build_degraded_decision p (clock_ms / 1000) in
      let (result, _, admits, _) = evaluate_degraded fl r settings p i env clock_ms w off down in
      ap (λ o. (enforce_rate_limit o.0).raised) result ∙ enforced_opened d p (admits opened)
