-- ===== src/MultiRegion.antt =====
-- app/services/multi_region.py: the simulation of one limit that two regions share, each of which
-- learns of the other's requests after a lag. The heap is a list in order, of which the first is
-- taken; events that compare equal are equal. `request_spacing_ms` is a natural number.
pub mod Queue
pub mod Counts
pub mod Drains
pub mod Summary
pub mod Order
pub mod NoLag
use distributed_rate_limiter.Base.{
  Bool, List, Option, [], false, if◌then◌else◌, leb, length, ltb, max, none, some, suc, true, zero,
  ℕ, ◌*◌, ◌++◌, ◌+◌, ◌-◌, ◌∷◌,
}
use distributed_rate_limiter.Base.Int.{ℤ, pos, negsuc}

pub data RegionName : Type 0 where
  india us : RegionName

pub data EventKind : Type 0 where
  request replication : EventKind

pub record RegionalDecision : Type 0 where
  pub region : RegionName
  pub kind : EventKind
  pub time_ms : ℕ
  pub accepted : Bool
  pub known_global_before_decision : ℕ
  pub actual_global_before_decision : ℕ
  pub observed_remote_count : ℕ

pub record RegionSnapshot : Type 0 where
  pub name : RegionName
  pub local_accepted : ℕ
  pub remote_observed : ℕ
  pub allowed_requests : ℕ
  pub blocked_requests : ℕ

pub record MultiRegionSummary : Type 0 where
  pub configured_limit : ℕ
  pub replication_lag_ms : ℕ
  pub request_spacing_ms : ℕ
  pub india_requests_sent : ℕ
  pub us_requests_sent : ℕ
  pub india_allowed : ℕ
  pub india_blocked : ℕ
  pub us_allowed : ℕ
  pub us_blocked : ℕ
  pub total_allowed : ℕ
  pub oversubscription : ℕ
  pub stale_allowed_decisions : ℕ
  pub max_replication_queue_depth : ℕ

-- `_Event`
pub record Event : Type 0 where
  pub time_ms : ℕ
  pub priority : ℕ
  pub kind : EventKind
  pub region : RegionName

-- The places of the texts in their order: "replication" < "request" and "india" < "us".
abbrev kind_rank : EventKind → ℕ
kind_rank replication = 0
kind_rank request = 1

abbrev region_rank : RegionName → ℕ
region_rank india = 0
region_rank us = 1

-- The order of the dataclass: field by field.
unfoldable pub event_lt : Event → Event → Bool
event_lt a b =
    if ltb a.time_ms b.time_ms
    then true
    else if ltb b.time_ms a.time_ms
    then false
    else if ltb a.priority b.priority
    then true
    else if ltb b.priority a.priority
    then false
    else if ltb (kind_rank a.kind) (kind_rank b.kind)
    then true
    else if ltb (kind_rank b.kind) (kind_rank a.kind)
    then false
    else ltb (region_rank a.region) (region_rank b.region)

-- `heapq.heappush`
unfoldable pub heappush : List Event → Event → List Event
heappush [] e = e ∷ []
heappush (x ∷ queue) e =
    let rest = heappush queue e in if event_lt x e then x ∷ rest else e ∷ x ∷ queue

-- `for index in range(count): heappush(...)`, from `index` on.
unfoldable pub push_requests : ℕ → RegionName → ℕ → ℕ → List Event → List Event
push_requests spacing region zero index queue = queue
push_requests spacing region (suc count) index queue =
    push_requests spacing region count (index + 1) (
      heappush queue
        (record { time_ms = index * spacing; priority = 1; kind = request; region = region }))

-- What the loop keeps.
pub record Simulation : Type 0 where
  pub india_region : RegionSnapshot
  pub us_region : RegionSnapshot
  pub queue : List Event
  pub decisions : List RegionalDecision
  pub stale_allowed : ℕ
  pub max_queue_depth : ℕ

abbrev pub known_global : RegionSnapshot → ℕ
known_global region = region.local_accepted + region.remote_observed

abbrev pub actual_global : Simulation → ℕ
actual_global s = s.india_region.local_accepted + s.us_region.local_accepted

-- A request in a region.
abbrev pub serve : ℕ → RegionSnapshot → RegionSnapshot
serve limit region =
    if ltb (known_global region) limit
    then record region {
      local_accepted = region.local_accepted + 1;
      allowed_requests = region.allowed_requests + 1;
    }
    else record region { blocked_requests = region.blocked_requests + 1 }

abbrev pub observe : RegionSnapshot → RegionSnapshot → RegionSnapshot
observe source target = record target {
  remote_observed = max target.remote_observed source.local_accepted;
}

-- The event is out of the queue, and the queue's length before counts.
abbrev pub taken : List Event → Simulation → Simulation
taken queue s = record s { queue = queue; max_queue_depth = max s.max_queue_depth (length s.queue) }

module _ (limit lag : ℕ) where
  -- What a request in a region leaves beside the two regions.
  abbrev pub after_request : Event → RegionSnapshot → Simulation → Simulation
  after_request event region s =
      let accepted = ltb (known_global region) limit in
      let replicated = heappush s.queue (record {
        time_ms = event.time_ms + lag;
        priority = 0;
        kind = replication;
        region = event.region;
      }) in
      record s {
        queue = if accepted then replicated else s.queue;
        stale_allowed =
            if accepted
            then if leb limit (actual_global s) then s.stale_allowed + 1 else s.stale_allowed
            else s.stale_allowed;
        decisions =
            s.decisions
            ++ record {
              region = event.region;
              kind = event.kind;
              time_ms = event.time_ms;
              accepted = accepted;
              known_global_before_decision = known_global region;
              actual_global_before_decision = actual_global s;
              observed_remote_count = (serve limit region).remote_observed;
            }
              ∷ [];
      }

  -- An event of a kind in a region.
  unfoldable pub process_as : EventKind → RegionName → Event → Simulation → Simulation
  process_as replication india event s = record s { us_region = observe s.india_region s.us_region }
  process_as replication us event s = record s { india_region = observe s.us_region s.india_region }
  process_as request india event s = record (after_request event s.india_region s) {
    india_region = serve limit s.india_region;
  }
  process_as request us event s = record (after_request event s.us_region s) {
    us_region = serve limit s.us_region;
  }

  -- One event that is taken from the queue.
  unfoldable pub process : Event → Simulation → Simulation
  process event s = process_as event.kind event.region event s

  -- `while queue`, for at most `rounds` rounds.
  unfoldable pub run_events : ℕ → Simulation → Simulation
  run_events zero s = s
  run_events (suc rounds) s = elim s.queue [
    | [] ↦ s
    | event ∷ queue ↦ run_events rounds (process event (taken queue s))
  ]

abbrev new_region : RegionName → RegionSnapshot
new_region name = record {
  name = name;
  local_accepted = 0;
  remote_observed = 0;
  allowed_requests = 0;
  blocked_requests = 0;
}

-- The state before the loop.
unfoldable pub started : ℕ → ℕ → ℕ → Simulation
started india_requests us_requests spacing =
    let queue =
      push_requests spacing us us_requests 0 (push_requests spacing india india_requests 0 []) in
    record {
      india_region = new_region india;
      us_region = new_region us;
      queue = queue;
      decisions = [];
      stale_allowed = 0;
      max_queue_depth = length queue;
    }

-- The state after the loop: each request takes a round, and at most one more for its replication.
unfoldable pub finished : ℕ → ℕ → ℕ → ℕ → ℕ → Simulation
finished limit lag india_requests us_requests spacing =
    run_events limit lag (2 * (india_requests + us_requests))
      (started india_requests us_requests spacing)

unfoldable pub summary_of : ℕ → ℕ → ℕ → ℕ → ℕ → Simulation → MultiRegionSummary
summary_of limit lag india_requests us_requests spacing s =
    let total_allowed = s.india_region.allowed_requests + s.us_region.allowed_requests in
    record {
      configured_limit = limit;
      replication_lag_ms = lag;
      request_spacing_ms = spacing;
      india_requests_sent = india_requests;
      us_requests_sent = us_requests;
      india_allowed = s.india_region.allowed_requests;
      india_blocked = s.india_region.blocked_requests;
      us_allowed = s.us_region.allowed_requests;
      us_blocked = s.us_region.blocked_requests;
      total_allowed = total_allowed;
      oversubscription = total_allowed - limit;
      stale_allowed_decisions = s.stale_allowed;
      max_replication_queue_depth = s.max_queue_depth;
    }

-- `simulate_multi_region_limit`: none where it raises ValueError.
unfoldable pub simulate_multi_region_limit :
    ℤ → ℤ → ℕ → ℕ → ℕ → Option (MultiRegionSummary × List RegionalDecision)
simulate_multi_region_limit (negsuc n) lag india_requests us_requests spacing = none
simulate_multi_region_limit (pos limit) (negsuc n) india_requests us_requests spacing = none
simulate_multi_region_limit (pos limit) (pos lag) india_requests us_requests spacing =
    let end = finished limit lag india_requests us_requests spacing in
    if leb limit 0
    then none
    else some (summary_of limit lag india_requests us_requests spacing end, end.decisions)
