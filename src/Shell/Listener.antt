-- ===== src/Shell/Listener.antt =====
-- What the listener of the refresh channel has done when it ends, or waits.
use distributed_rate_limiter.Base.{
  Bool, Bool-cases, List, Option, [], ap, arith, count_if, false, if◌then◌else◌, inl, inr, length,
  none, refl, true, ◌+◌, ◌||◌, ◌∙◌, ◌∷◌, ◌≡◌,
}
use distributed_rate_limiter.Base.Text.{Text}
use distributed_rate_limiter.PolicyService.{LocalPolicySnapshot}
use distributed_rate_limiter.Shell.{
  Session, SessionEnd, exhausted, redis_error, cancelled, other_error, TaskState, running,
  was_cancelled, died, ListenerState, is_message, receive, handle, policy_refresh_listener,
}

-- Whether the listener goes on after a subscription.
abbrev goes_on : SessionEnd → Bool
goes_on exhausted = true
goes_on redis_error = true
goes_on _ = false

abbrev is_redis_error : Session → Bool
is_redis_error session = elim session.ending [ redis_error ↦ true | _ ↦ false ]

-- The subscriptions up to the first after which the listener does not go on.
pub until_stopped : List Session → List Session
until_stopped [] = []
until_stopped (session ∷ sessions) =
    let rest = until_stopped sessions in
    if goes_on session.ending then session ∷ rest else session ∷ []

abbrev any_message : List (Option Text) → Bool
any_message [] = false
any_message (type ∷ types) = is_message type || any_message types

-- Whether one of the subscriptions brought a message of the channel.
pub notified : List Session → Bool
notified [] = false
notified (session ∷ sessions) = any_message session.message_types || notified sessions

abbrev cleared_if : Bool → Option LocalPolicySnapshot → Option LocalPolicySnapshot
cleared_if b snapshot = if b then none else snapshot

cleared_none : (b : Bool) → cleared_if b none ≡ none
cleared_none true = refl
cleared_none false = refl

cleared_twice :
    (a b : Bool) (o : Option LocalPolicySnapshot)
    → cleared_if b (cleared_if a o) ≡ cleared_if (a || b) o
cleared_twice true b o = cleared_none b
cleared_twice false b o = refl

receive_lem :
    (types : List (Option Text)) (s : ListenerState)
    → receive types s ≡ record s { snapshot = cleared_if (any_message types) s.snapshot }
unfolding receive
receive_lem [] s = refl
receive_lem (type ∷ types) s = elim (Bool-cases (is_message type)) [
  | inl e ↦ rw e (
      receive_lem types (record s { snapshot = none })
      ∙ ap (λ o. record s { snapshot = o }) (cleared_none (any_message types)))
  | inr e ↦ rw e (receive_lem types s)
]

-- How the subscriptions leave the task.
abbrev left_by : SessionEnd → TaskState
left_by cancelled = was_cancelled
left_by other_error = died
left_by _ = running

pub task_of : List Session → TaskState
task_of [] = running
task_of (session ∷ sessions) =
    let later = task_of sessions in if goes_on session.ending then later else left_by session.ending

-- The listener's state after these subscriptions.
abbrev pub state_after : List Session → ListenerState → ListenerState
state_after taken s = record {
  snapshot = if notified taken then none else s.snapshot;
  redis_errors = s.redis_errors + count_if is_redis_error taken;
  opened = s.opened + length taken;
  unsubscribed = s.unsubscribed + length taken;
  closed = s.closed + length taken;
}

state_eq :
    (a b : ListenerState)
    → a.snapshot ≡ b.snapshot
    → a.redis_errors ≡ b.redis_errors
    → a.opened ≡ b.opened
    → a.unsubscribed ≡ b.unsubscribed
    → a.closed ≡ b.closed
    → a ≡ b
state_eq a b shot errors opened unsubscribed closed = λ i. record {
  snapshot = shot i;
  redis_errors = errors i;
  opened = opened i;
  unsubscribed = unsubscribed i;
  closed = closed i;
}

-- The claim for some subscriptions, from any state.
abbrev pub Ends : List Session → Type 0
Ends sessions =
    (s : ListenerState)
    → policy_refresh_listener sessions s
      ≡ (state_after (until_stopped sessions) s, task_of (until_stopped sessions))

-- Of its subscriptions, the listener takes those up to the first in which it is cancelled or meets
-- an exception that is no error of Redis; its task ends as this one leaves it. It opens,
-- unsubscribes and closes each of them and counts each error of Redis once. The snapshot is cleared
-- if one of them brought a message of the channel, and stays as it was otherwise.
pub policy_refresh_listener_lem :
    (sessions : List Session) (s : ListenerState)
    → policy_refresh_listener sessions s
      ≡ (state_after (until_stopped sessions) s, task_of (until_stopped sessions))
unfolding policy_refresh_listener until_stopped notified task_of handle
policy_refresh_listener_lem [] s =
    ap (λ x. (x, running))
      (state_eq s _ refl (omega arith) (omega arith) (omega arith) (omega arith))
policy_refresh_listener_lem (session ∷ sessions) s =
    go session.message_types session.ending (λ t. policy_refresh_listener_lem sessions t)
  where
    go :
        (types : List (Option Text)) (e : SessionEnd)
        → Ends sessions
        → let one : Session = record { message_types = types; ending = e } in
          policy_refresh_listener (one ∷ sessions) s ≡ (
            state_after (until_stopped (one ∷ sessions)) s,
            task_of (until_stopped (one ∷ sessions)),
          )
    go types exhausted later = rw receive_lem (
        later _
        ∙ ap (λ x. (x, task_of (until_stopped sessions)))
            (state_eq _ _
              (cleared_twice (any_message types) (notified (until_stopped sessions)) s.snapshot)
              (omega arith) (omega arith) (omega arith) (omega arith)))
    go types redis_error later = rw receive_lem (
        later _
        ∙ ap (λ x. (x, task_of (until_stopped sessions)))
            (state_eq _ _
              (cleared_twice (any_message types) (notified (until_stopped sessions)) s.snapshot)
              (omega arith) (omega arith) (omega arith) (omega arith)))
    go types cancelled later = rw receive_lem (
        ap (λ x. (x, was_cancelled))
          (state_eq _ _ (cleared_twice (any_message types) false s.snapshot) (omega arith)
            (omega arith) (omega arith) (omega arith)))
    go types other_error later = rw receive_lem (
        ap (λ x. (x, died))
          (state_eq _ _ (cleared_twice (any_message types) false s.snapshot) (omega arith)
            (omega arith) (omega arith) (omega arith)))
