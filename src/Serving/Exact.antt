-- ===== src/Serving/Exact.antt =====
-- Whole runs of a limited route under a fixed-window policy.
use distributed_rate_limiter.Base.{
  All, Ascending, Bool, Bool-cases, List, Option, [], ap, arith, count_if, false, if◌then◌else◌,
  inl, inr, length, map, min, none, not, refl, some, suc, true, ℕ, ◌*◌, ◌<◌, ◌==◌, ◌∙◌, ◌∷◌, ◌≡◌,
}
use distributed_rate_limiter.Base.Text.{Text}
use distributed_rate_limiter.Algorithms.{RateLimitComputation}
use distributed_rate_limiter.Float.{Float}
use distributed_rate_limiter.Policy.{Policy, fixed_window}
use distributed_rate_limiter.Keys.{Request}
use distributed_rate_limiter.Algorithms.FixedWindow.{
  FixedWindowState, window_of, run_fixed_window, apply_fixed_window,
}
use distributed_rate_limiter.Algorithms.FixedWindow.Quota.{admitted_in, fixed_window_exact}
use distributed_rate_limiter.Redis.{Redis, Counters}
use distributed_rate_limiter.Redis.Scripts.{Reply, window_key}
use distributed_rate_limiter.Redis.Scripts.Replies.{reply_of}
use distributed_rate_limiter.Redis.Scripts.FixedWindow
use distributed_rate_limiter.Limiter.{parse_common_decision}
use distributed_rate_limiter.PolicyService.Libraries.{Library, Documented}
use distributed_rate_limiter.Api.{enforce_rate_limit}
use distributed_rate_limiter.Serving.{
  AppSettings, Arrival, AppState, RequestState, is_served, limited_all,
}
use distributed_rate_limiter.Serving.Attempted.{Fresh}
use distributed_rate_limiter.Serving.Requests.{
  Runs, answer_of, answers_of, time_of, limited_all-replies, replies-fixed_window,
}

one_or_zero : (b : Bool) → not ((if b then 1 else 0) == 0) ≡ b
one_or_zero true = refl
one_or_zero false = refl

module _ (fl : Float) (r : Redis fl.F) (l : Library) (laws : Documented l) (config : AppSettings)
    (rows : List Policy) (p : Policy) (key : Text) (failures : Arrival → ℕ) (counters : Counters r)
    {A : Type 0} (body : AppSettings → Request → RequestState → A) where
  abbrev pub times : List (Arrival × Request) → List ℕ
  times = map (time_of fl r l laws config rows p key failures)

  -- Let every request of a route be limited by one active fixed-window policy, under one key, and
  -- reach Redis after attempts that do not, within the number of retries; let the cache of policies
  -- agree with the database at first, the clocks not go back, and no counter of the key be left.
  -- Then, whichever calls of the policy cache fail, each request is answered by the decision of
  -- `apply_fixed_window` on the requests before it: the body's answer with its headers, or the
  -- exception 429 with them.
  pub limited_all-fixed_window :
      (low server_low : ℕ) (requests : List (Arrival × Request)) (a : AppState fl r l config)
      → p.algorithm ≡ fixed_window
      → 0 < p.window_seconds
      → Fresh fl r l laws config rows low a.store
      → Runs fl r l laws config rows p key failures low requests
      → Ascending server_low (times requests)
      → ((w : ℕ) → counters.counter server_low (window_key key w) a.world.db ≡ none)
      → limited_all fl r l config body requests a
        ≡ answers_of fl r l laws config rows p key failures body requests (
            FixedWindow.algorithm_replies fl r counters key p.rate p.window_seconds none
              (times requests))
  limited_all-fixed_window low server_low requests a fixed positive fresh runs asc empty =
      limited_all-replies fl r l laws config rows p key failures body low requests a fresh runs
      ∙ ap (answers_of fl r l laws config rows p key failures body requests) (
          replies-fixed_window fl r l laws config rows p key failures counters a.world.db requests
            fixed
          ∙ FixedWindow.fixed_window_lua_refines fl r counters key p.rate p.window_seconds
              server_low a.world.db (times requests) positive asc empty)

  served_as :
      (request : Request) (reply : Reply)
      → is_served (answer_of fl r l laws config rows p key failures body request reply)
        ≡ not (reply.allowed == 0)
  unfolding enforce_rate_limit parse_common_decision
  served_as request reply = elim (Bool-cases (reply.allowed == 0)) [
    | inl e ↦ rw e refl
    | inr e ↦ rw e refl
  ]

  served_reply :
      (request : Request) (c : RateLimitComputation fl.F)
      → is_served
          (answer_of fl r l laws config rows p key failures body request (reply_of p.rate c))
        ≡ c.allowed
  served_reply request c = served_as request (reply_of p.rate c) ∙ one_or_zero c.allowed

  served_admitted :
      (w : ℕ) (state : Option FixedWindowState) (requests : List (Arrival × Request))
      → All (λ t. window_of (p.window_seconds * 1000) t ≡ w) (times requests)
      → count_if is_served (
          answers_of fl r l laws config rows p key failures body requests (
            FixedWindow.algorithm_replies fl r counters key p.rate p.window_seconds state
              (times requests)))
        ≡ admitted_in
            (p.window_seconds * 1000)
            w
            (run_fixed_window fl p.rate p.window_seconds state (times requests))
  unfolding answers_of FixedWindow.algorithm_replies run_fixed_window
  served_admitted w state [] all = refl
  served_admitted w state ((q, request) ∷ requests) all =
      let t = time_of fl r l laws config rows p key failures (q, request) in
      let c = (apply_fixed_window fl t state p.rate p.window_seconds).1 in
      let s' = (apply_fixed_window fl t state p.rate p.window_seconds).0 in
      let here = served_reply request c in
      let rest = served_admitted w (some s') requests all.1 in
      let now : (window_of (p.window_seconds * 1000) t == w) ≡ true = ground (arith, all.0) in
      elim (Bool-cases c.allowed) [
        | inl e ↦ rw (here ∙ e, e, now) (ap suc rest)
        | inr e ↦ rw (here ∙ e, e) rest
      ]

  length-times : (requests : List (Arrival × Request)) → length (times requests) ≡ length requests
  length-times [] = refl
  length-times (q ∷ requests) = ap suc (length-times requests)

  -- Under the same conditions, where all requests reach Redis within one window: exactly as many
  -- are served as the policy's rate lets, all of them up to the rate, and the others get the
  -- exception. It does not matter which calls of the policy cache fail, nor how often a request is
  -- tried again before Redis answers.
  pub limited_all-served :
      (w low server_low : ℕ) (requests : List (Arrival × Request)) (a : AppState fl r l config)
      → p.algorithm ≡ fixed_window
      → 0 < p.window_seconds
      → Fresh fl r l laws config rows low a.store
      → Runs fl r l laws config rows p key failures low requests
      → Ascending server_low (times requests)
      → ((v : ℕ) → counters.counter server_low (window_key key v) a.world.db ≡ none)
      → All (λ t. window_of (p.window_seconds * 1000) t ≡ w) (times requests)
      → count_if is_served (limited_all fl r l config body requests a)
        ≡ min p.rate (length requests)
  limited_all-served w low server_low requests a fixed positive fresh runs asc empty all =
      ap (count_if is_served)
        (limited_all-fixed_window low server_low requests a fixed positive fresh runs asc empty)
      ∙ served_admitted w none requests all
      ∙ fixed_window_exact fl p.rate p.window_seconds w (times requests) all
      ∙ ap (min p.rate) (length-times requests)
