-- ===== src/Shell.antt =====
-- app/main.py: the start-up checks, the listener of the refresh channel and the lifespan of the
-- application, with what they await as their environment. Logging is left out, as are the pauses.
pub mod Config
pub mod Health
pub mod Observability
pub mod Listener
pub mod Lifespan
use distributed_rate_limiter.Base.{
  Bool, List, Option, [], false, if◌then◌else◌, none, not, some, true, ℕ, ◌&&◌, ◌++◌, ◌+◌, ◌∷◌,
}
use distributed_rate_limiter.Base.Text.{Text, codes, option_text_eq}
use distributed_rate_limiter.PolicyService.{LocalPolicySnapshot}
use Config.{Settings}

-- `{"postgres": …, "redis": …}`
pub record StartupStatus : Type 0 where
  pub postgres : Bool
  pub redis : Bool

-- How the listening on one subscription ends: the iterator stops, Redis fails, the task is
-- cancelled, or another exception is raised.
pub data SessionEnd : Type 0 where
  exhausted redis_error cancelled other_error : SessionEnd

-- One subscription: the `type` of each message that `pubsub.listen()` gives, then the end. If
-- `subscribe` raises, there are no messages.
pub record Session : Type 0 where
  pub message_types : List (Option Text)
  pub ending : SessionEnd

-- How the listener's task ends, if it does.
pub data TaskState : Type 0 where
  running was_cancelled died : TaskState

-- What the listener changes.
pub record ListenerState : Type 0 where
  pub snapshot : Option LocalPolicySnapshot
  pub redis_errors : ℕ
  -- the subscriptions that were made, unsubscribed and closed
  pub opened : ℕ
  pub unsubscribed : ℕ
  pub closed : ℕ

abbrev pub is_message : Option Text → Bool
is_message type = option_text_eq type (some (codes "message"))

-- `async for message in pubsub.listen()`
unfoldable pub receive : List (Option Text) → ListenerState → ListenerState
receive [] s = s
receive (type ∷ types) s =
    receive types (if not (is_message type) then s else record s { snapshot = none })

-- The `finally` of a subscription.
abbrev pub clean_up : ListenerState → ListenerState
clean_up s = record s { unsubscribed = s.unsubscribed + 1; closed = s.closed + 1 }

-- The handlers of `CancelledError` and `RedisError`.
unfoldable pub handle : SessionEnd → ListenerState → ListenerState × TaskState
handle exhausted s = (s, running)
handle redis_error s = (record s { redis_errors = s.redis_errors + 1 }, running)
handle cancelled s = (s, was_cancelled)
handle other_error s = (s, died)

-- `policy_refresh_listener`, for what its subscriptions bring in turn.
unfoldable pub policy_refresh_listener : List Session → ListenerState → ListenerState × TaskState
policy_refresh_listener [] s = (s, running)
policy_refresh_listener (session ∷ sessions) s =
    let subscribed = record s { opened = s.opened + 1 } in
    let (handled, task) = handle session.ending (receive session.message_types subscribed) in
    let cleaned = clean_up handled in
    elim task [
      | running ↦ policy_refresh_listener sessions cleaned
      | was_cancelled ↦ (cleaned, was_cancelled)
      | died ↦ (cleaned, died)
    ]

-- What the application opens.
pub data Resource : Type 0 where
  database redis_client pubsub_client : Resource

pub data Effect : Type 0 where
  open_resource : Resource → Effect
  close_resource : Resource → Effect
  start_listener cancel_listener serve : Effect

-- How the lifespan ends: it returns, RuntimeError of the strict checks, the exception of a close,
-- or the exception of the listener's task.
pub data Ending : Type 0 where
  stopped startup_refused close_raised listener_raised : Ending

-- What the awaited calls do: whether the pings answer, what the listener meets until it is
-- cancelled, and whether closing a resource raises nothing.
pub record Environment : Type 0 where
  pub postgres_answers : Bool
  pub redis_answers : Bool
  pub sessions : List Session
  pub listener_start : ListenerState
  pub closes : Resource → Bool

unfoldable pub run_startup_checks : Environment → StartupStatus
run_startup_checks env = record { postgres = env.postgres_answers; redis = env.redis_answers }

-- `close_redis_client(redis_pubsub)`, `close_redis_client(redis)`, `db.dispose()`: the first that
-- raises is the last.
unfoldable pub close_in_turn : Environment → List Resource → Ending → List Effect × Ending
close_in_turn env [] ending = ([], ending)
close_in_turn env (r ∷ resources) ending =
    let (rest, end) = close_in_turn env resources ending in
    if env.closes r then (close_resource r ∷ rest, end) else (close_resource r ∷ [], close_raised)

abbrev pub in_order : List Resource
in_order = pubsub_client ∷ redis_client ∷ database ∷ []

-- The `finally` of the lifespan: `await listener_task` catches only `CancelledError`.
unfoldable pub shut_down : Environment → Bool → TaskState → List Effect × Ending
unfolding close_in_turn
shut_down env false task = close_in_turn env in_order stopped
shut_down env true running =
    let (effects, end) = close_in_turn env in_order stopped in (cancel_listener ∷ effects, end)
shut_down env true was_cancelled =
    let (effects, end) = close_in_turn env in_order stopped in (cancel_listener ∷ effects, end)
shut_down env true died = (cancel_listener ∷ [], listener_raised)

abbrev pub opened_first : List Effect
opened_first =
    open_resource database ∷ open_resource redis_client ∷ open_resource pubsub_client ∷ []

-- `lifespan` after the start-up checks: whether they refuse the start, whether the listener's task
-- is created, and how far this task has come when the application stops.
unfoldable pub lifespan_after : Environment → Bool → Bool → TaskState → List Effect × Ending
unfolding shut_down close_in_turn
lifespan_after env true listening task =
    let (effects, end) = close_in_turn env in_order startup_refused in
    (opened_first ++ effects, end)
lifespan_after env false listening task =
    let (effects, end) = shut_down env listening task in
    (opened_first ++ (if listening then start_listener ∷ [] else []) ++ serve ∷ effects, end)

-- `lifespan`
unfoldable pub lifespan : Settings → Environment → List Effect × Ending
unfolding lifespan_after run_startup_checks policy_refresh_listener
lifespan settings env =
    let status = run_startup_checks env in
    lifespan_after env (settings.strict_startup_checks && not (status.postgres && status.redis))
      (settings.enable_policy_pubsub && status.redis)
      (policy_refresh_listener env.sessions env.listener_start).1
