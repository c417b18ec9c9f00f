-- ===== src/Shell/Lifespan.antt =====
-- What the lifespan opens is used only while it is open, and is closed again.
use distributed_rate_limiter.Base.{
  Bool, List, Option, [], false, if◌then◌else◌, none, not, refl, some, true, ◌&&◌, ◌∷◌, ◌≡◌,
}
use distributed_rate_limiter.Shell.{
  Resource, database, redis_client, pubsub_client, Effect, open_resource, close_resource,
  start_listener, cancel_listener, serve, Ending, stopped, startup_refused, listener_raised,
  Environment, run_startup_checks, close_in_turn, in_order, shut_down, lifespan,
  policy_refresh_listener, TaskState, running, was_cancelled, died, Settings, lifespan_after,
}

-- What is open at a point of a sequence of effects.
pub record Usage : Type 0 where
  pub database_open : Bool
  pub redis_open : Bool
  pub pubsub_open : Bool
  pub listening : Bool

abbrev pub nothing_open : Usage
nothing_open = record {
  database_open = false;
  redis_open = false;
  pubsub_open = false;
  listening = false;
}

abbrev pub everything_open : Usage
everything_open = record {
  database_open = true;
  redis_open = true;
  pubsub_open = true;
  listening = false;
}

-- An effect in its place: a closed resource is opened, an open one closed, the subscriptions'
-- client not under a running listener; the listener runs on an open client; requests are served
-- while everything is open.
abbrev pub use_effect : Effect → Usage → Option Usage
use_effect (open_resource database) u =
    if u.database_open then none else some (record u { database_open = true })
use_effect (open_resource redis_client) u =
    if u.redis_open then none else some (record u { redis_open = true })
use_effect (open_resource pubsub_client) u =
    if u.pubsub_open then none else some (record u { pubsub_open = true })
use_effect (close_resource database) u =
    if u.database_open then some (record u { database_open = false }) else none
use_effect (close_resource redis_client) u =
    if u.redis_open then some (record u { redis_open = false }) else none
use_effect (close_resource pubsub_client) u =
    if u.pubsub_open && not u.listening then some (record u { pubsub_open = false }) else none
use_effect start_listener u =
    if u.pubsub_open && not u.listening then some (record u { listening = true }) else none
use_effect cancel_listener u = if u.listening then some (record u { listening = false }) else none
use_effect serve u = if u.database_open && u.redis_open && u.pubsub_open then some u else none

abbrev pub use_all : List Effect → Option Usage → Option Usage
use_all [] o = o
use_all (e ∷ effects) none = none
use_all (e ∷ effects) (some u) = use_all effects (use_effect e u)

-- What is left open, by how the lifespan ends.
abbrev pub left_open : Ending → Usage
left_open listener_raised = everything_open
left_open _ = nothing_open

-- How the lifespan is to end, where no close raises.
abbrev pub ending_of : Bool → Bool → TaskState → Ending
ending_of true listening task = startup_refused
ending_of false true died = listener_raised
ending_of false _ _ = stopped

-- Closing all of it in turn, where no close raises.
closed_in_turn :
    (env : Environment) (end : Ending)
    → ((r : Resource) → env.closes r ≡ true)
    → close_in_turn env in_order end ≡ (
      close_resource pubsub_client ∷ close_resource redis_client ∷ close_resource database ∷ [],
      end,
    )
unfolding close_in_turn
closed_in_turn env end ok = rw (ok pubsub_client, ok redis_client, ok database) refl

after_checks :
    (env : Environment) (refused listening : Bool) (task : TaskState)
    → ((r : Resource) → env.closes r ≡ true)
    → let (effects, end) = lifespan_after env refused listening task in
      (end ≡ ending_of refused listening task)
      × (use_all effects (some nothing_open) ≡ some (left_open end))
unfolding lifespan_after shut_down
after_checks env true listening task ok = rw (closed_in_turn env startup_refused ok) (refl, refl)
after_checks env false false task ok = rw (closed_in_turn env stopped ok) (refl, refl)
after_checks env false true running ok = rw (closed_in_turn env stopped ok) (refl, refl)
after_checks env false true was_cancelled ok = rw (closed_in_turn env stopped ok) (refl, refl)
after_checks env false true died ok = (refl, refl)

-- If no close raises, then on every path of the lifespan a resource is opened only while it is
-- closed and closed only while it is open, the listener runs only on an open client, and requests
-- are served only while everything is open. At the end nothing is open, unless the listener's task had ended with an exception that
-- is no error of Redis: this exception is raised again, and everything stays open. The start is
-- refused exactly if the checks are strict and one of them fails.
pub lifespan_closes :
    (settings : Settings) (env : Environment)
    → ((r : Resource) → env.closes r ≡ true)
    → let (effects, end) = lifespan settings env in
      let status = run_startup_checks env in
      (end
        ≡ ending_of
            (settings.strict_startup_checks && not (status.postgres && status.redis))
            (settings.enable_policy_pubsub && status.redis)
            (policy_refresh_listener env.sessions env.listener_start).1)
      × (use_all effects (some nothing_open) ≡ some (left_open end))
unfolding lifespan
lifespan_closes settings env ok = after_checks env _ _ _ ok
