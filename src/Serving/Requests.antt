-- ===== src/Serving/Requests.antt =====
-- A sequence of requests of a limited route under one policy: the answers are those of the
-- policy's algorithm, through the cache of policies, the script and the headers.
use distributed_rate_limiter.Base.{List, [], ap, map, refl, some, ℕ, ◌+◌, ◌<◌, ◌∙◌, ◌∷◌, ◌≡◌, ◌≤◌}
use distributed_rate_limiter.Base.Text.{Text}
use distributed_rate_limiter.Float.{Float}
use distributed_rate_limiter.Policy.{Policy, fixed_window}
use distributed_rate_limiter.Keys.{Request, build_request_identity, build_rate_limit_key}
use distributed_rate_limiter.Redis.{Redis, Counters}
use distributed_rate_limiter.Redis.Scripts.{Reply}
use distributed_rate_limiter.Redis.Scripts.FixedWindow
use distributed_rate_limiter.Limiter.{
  Attempt, answered, refused, parse_common_decision, max_attempts_of, script_of,
}
use distributed_rate_limiter.PolicyService.Libraries.{Library, Documented}
use distributed_rate_limiter.Api.{enforce_rate_limit}
use distributed_rate_limiter.Serving.{
  AppSettings, Arrival, AppState, RequestState, evaluate_identity, Answer, respond, limited,
  limited_all,
}
use distributed_rate_limiter.Serving.Attempted.{
  evaluate_reached, Fresh, best_for, resolve_policy-Fresh,
}

module _ (fl : Float) (r : Redis fl.F) (l : Library) (laws : Documented l) (config : AppSettings)
    (rows : List Policy) (p : Policy) (key : Text) (failures : Arrival → ℕ) where
  -- The attempt that is answered, after `failures q` that do not reach Redis.
  abbrev pub answered_attempt : Arrival → Attempt
  answered_attempt q = q.attempts (1 + failures q)

  abbrev pub Reaches : Arrival → Type 0
  Reaches q =
      (failures q < max_attempts_of fl r config.limiter)
      × ((k : ℕ) → k < failures q → (q.attempts (1 + k)).fault ≡ refused)
      × ((answered_attempt q).fault ≡ answered)

  -- The request is limited by `p`, under the key `key`.
  abbrev pub Limited : Request → Type 0
  Limited request =
      let i = build_request_identity request in
      (best_for fl r l laws config rows i ≡ some p) × (build_rate_limit_key p i ≡ key)

  abbrev pub script : Arrival → r.Db → Reply × r.Db
  script q = script_of fl r p.algorithm p key (answered_attempt q)

  step_identity :
      (low : ℕ) (q : Arrival) (request : Request) (a : AppState fl r l config)
      → low ≤ q.monotonic_ms
      → Fresh fl r l laws config rows low a.store
      → Reaches q
      → Limited request
      → let (reply, db') = script q a.world.db in
        let (state, a') = evaluate_identity fl r l config q (build_request_identity request) a in
        (state ≡ some (parse_common_decision reply, p))
        × (a'.world.db ≡ db')
        × Fresh fl r l laws config rows q.monotonic_ms a'.store
  unfolding evaluate_identity
  step_identity low q request a le fresh (lt, bad, good) (best, same) =
      let i = build_request_identity request in
      let (found, fresh') = resolve_policy-Fresh fl r l laws config rows low q i a.store le fresh in
      let e = found ∙ best in
      let (outcome, db) =
        evaluate_reached fl r config.limiter p i q.attempts q.clock_ms (failures q) a.world lt bad
          good in
      let run = λ (k : Text). script_of fl r p.algorithm p k (answered_attempt q) a.world.db in
      (
        rw (e, evaluate_identity) outcome
            ∙ ap (λ k. some (parse_common_decision (run k).0, p)) same,
        rw (e, evaluate_identity) db ∙ ap (λ k. (run k).1) same,
        fresh',
      )

  -- Requests at times of the monotonic clock that do not decrease, each answered by Redis in the end.
  abbrev pub Runs : ℕ → List (Arrival × Request) → Type 0
  Runs low [] = Unit
  Runs low ((q, request) ∷ rest) =
      (low ≤ q.monotonic_ms) × Reaches q × Limited request × Runs q.monotonic_ms rest

  -- The replies of the script of `p`, called once for each request.
  unfoldable pub replies_of : r.Db → List (Arrival × Request) → List Reply
  replies_of db [] = []
  replies_of db ((q, request) ∷ rest) =
      let (reply, db') = script q db in reply ∷ replies_of db' rest

  module _ {A : Type 0} (body : AppSettings → Request → RequestState → A) where
    -- The answer of a route whose limiter was given `reply`.
    abbrev pub answer_of : Request → Reply → Answer A
    answer_of request reply =
        let state = some (parse_common_decision reply, p) in
        let enforced = enforce_rate_limit state in
        respond enforced.raised enforced.response_headers (body config request state)

    unfoldable pub answers_of : List (Arrival × Request) → List Reply → List (Answer A)
    answers_of [] replies = []
    answers_of (_ ∷ requests) [] = []
    answers_of ((q, request) ∷ requests) (reply ∷ replies) =
        answer_of request reply ∷ answers_of requests replies

    pub limited_all-replies :
        (low : ℕ) (requests : List (Arrival × Request)) (a : AppState fl r l config)
        → Fresh fl r l laws config rows low a.store
        → Runs low requests
        → limited_all fl r l config body requests a
          ≡ answers_of requests (replies_of a.world.db requests)
    unfolding limited_all replies_of answers_of limited
    limited_all-replies low [] a fresh runs = refl
    limited_all-replies low ((q, request) ∷ rest) a fresh (le, reaches, by, later) =
        let (state, db, fresh') = step_identity low q request a le fresh reaches by in
        let after = (evaluate_identity fl r l config q (build_request_identity request) a).1 in
        let here =
          ap
            (λ s.
              respond (enforce_rate_limit s).raised (enforce_rate_limit s).response_headers
                (body config request s))
            state in
        let tail =
          limited_all-replies q.monotonic_ms rest after fresh' later
          ∙ ap (λ d. answers_of rest (replies_of d rest)) db in
        λ i. here i ∷ tail i

  abbrev pub time_of : Arrival × Request → ℕ
  time_of (q, request) = (answered_attempt q).now_ms

  module _ (counters : Counters r) where
    pub replies-fixed_window :
        (db : r.Db) (requests : List (Arrival × Request))
        → p.algorithm ≡ fixed_window
        → replies_of db requests
          ≡ FixedWindow.script_replies fl r counters key p.rate p.window_seconds db
              (map time_of requests)
    unfolding replies_of FixedWindow.script_replies script_of
    replies-fixed_window db [] e = refl
    replies-fixed_window db ((q, request) ∷ rest) e =
        let same = ap (λ g. script_of fl r g p key (answered_attempt q) db) e in
        let tail =
          replies-fixed_window (script q db).1 rest e
          ∙ ap
              (λ (o : Reply × r.Db).
                FixedWindow.script_replies fl r counters key p.rate p.window_seconds o.1
                  (map time_of rest))
              same in
        λ i. (same i).0 ∷ tail i
