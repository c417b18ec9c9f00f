-- ===== src/Tests/Shell.antt =====
-- An application whose listener loses Redis once, gets a message, and then meets an exception that
-- it does not handle.
use distributed_rate_limiter.Base.{
  List, Option, [], count_if, false, none, not, refl, some, true, ◌&&◌, ◌+◌, ◌∷◌, ◌≡◌,
}
use distributed_rate_limiter.Base.Text.{Text, codes}
use distributed_rate_limiter.Shell.Config.{default_settings}
use distributed_rate_limiter.Shell.{
  Session, redis_error, cancelled, other_error, ListenerState, Environment, listener_raised,
  policy_refresh_listener, lifespan, run_startup_checks, handle,
}
use distributed_rate_limiter.Shell.Observability.{Response, Exchange, HttpMetrics, dispatch_all}
use distributed_rate_limiter.Shell.Observability.Counted.{
  AllAnswered, labelled, dispatch_all_counts,
}
use distributed_rate_limiter.Shell.Listener.{
  state_after, until_stopped, task_of, policy_refresh_listener_lem,
}
use distributed_rate_limiter.Shell.Lifespan.{
  use_all, nothing_open, left_open, ending_of, lifespan_closes,
}

abbrev sessions : List Session
sessions =
    record { message_types = some (codes "subscribe") ∷ []; ending = redis_error }
    ∷ record {
      message_types = some (codes "subscribe") ∷ some (codes "message") ∷ [];
      ending = other_error;
    }
    ∷ record { message_types = []; ending = cancelled }
    ∷ []

abbrev before : ListenerState
before = record {
  snapshot = some (record { policies = []; loaded_at_monotonic = 5 });
  redis_errors = 0;
  opened = 0;
  unsubscribed = 0;
  closed = 0;
}

policy_refresh_listener_lem_example :
    policy_refresh_listener sessions before
    ≡ (state_after (until_stopped sessions) before, task_of (until_stopped sessions))
policy_refresh_listener_lem_example = policy_refresh_listener_lem sessions before

abbrev env : Environment
env = record {
  postgres_answers = true;
  redis_answers = true;
  sessions = sessions;
  listener_start = before;
  closes = λ r. true;
}

-- The exception of the listener leaves everything open.
leaks : (lifespan default_settings env).1 ≡ listener_raised
unfolding lifespan handle
leaks = refl

lifespan_closes_example :
    let (effects, end) = lifespan default_settings env in
    let status = run_startup_checks env in
    (end
      ≡ ending_of
          (false && not (status.postgres && status.redis))
          (true && status.redis)
          (policy_refresh_listener sessions before).1)
    × (use_all effects (some nothing_open) ≡ some (left_open end))
lifespan_closes_example = lifespan_closes default_settings env (λ r. refl)

abbrev exchange : Option Response → Exchange
exchange response = record {
  method = codes "GET";
  route_path = some (codes "/demo/public");
  url_path = codes "/demo/public";
  response = response;
}

-- An answer, a refusal that names its instance, and an exception.
abbrev exchanges : List Exchange
exchanges =
    exchange (some (record { status_code = 200; headers = [] }))
    ∷ exchange (
        some
          (record { status_code = 429; headers = (codes "x-instance-name", codes "api-7") ∷ [] }))
    ∷ exchange none
    ∷ []

abbrev no_requests : HttpMetrics
no_requests = record { requests_total = λ m r c. 0; latencies_count = λ m r c. 0 }

dispatch_all_counts_example :
    let (responses, end) = dispatch_all (codes "api-1") exchanges no_requests in
    AllAnswered (codes "api-1") exchanges responses
    × ((m r c : Text)
        → (end.requests_total m r c ≡ 0 + count_if (labelled m r c) exchanges)
          × (end.latencies_count m r c ≡ 0 + count_if (labelled m r c) exchanges))
dispatch_all_counts_example = dispatch_all_counts (codes "api-1") exchanges no_requests
