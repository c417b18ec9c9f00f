-- ===== src/MultiRegion/Counts.antt =====
-- The counts of the two regions while the events run.
use distributed_rate_limiter.Base.{
  List, [], ap, arith, inl, inr, refl, subst, suc, sym, zero, ℕ, ◌+◌, ◌-◌, ◌<◌, ◌∷◌, ◌≡◌, ◌≤◌, ◌⊎◌,
}
use distributed_rate_limiter.MultiRegion.{
  RegionName, india, us, EventKind, request, replication, Event, Simulation, process, process_as,
  taken, run_events, actual_global,
}
use distributed_rate_limiter.MultiRegion.Queue.{total, total-heappush, request_in, in_region}

-- No region admits more than the limit, none has seen more of the other than there is, a request
-- is refused only if the limit is reached, and the stale decisions are those beyond the limit.
pub record Consistent (limit : ℕ) (s : Simulation) : Type 0 where
  pub india_within : s.india_region.local_accepted ≤ limit
  pub us_within : s.us_region.local_accepted ≤ limit
  pub india_behind : s.india_region.remote_observed ≤ s.us_region.local_accepted
  pub us_behind : s.us_region.remote_observed ≤ s.india_region.local_accepted
  pub india_allowed : s.india_region.allowed_requests ≡ s.india_region.local_accepted
  pub us_allowed : s.us_region.allowed_requests ≡ s.us_region.local_accepted
  pub stale : s.stale_allowed ≡ actual_global s - limit
  pub refused_late :
      0 < s.india_region.blocked_requests + s.us_region.blocked_requests → limit ≤ actual_global s

process_as-Consistent :
    (limit lag : ℕ) (kind : EventKind) (region : RegionName) (e : Event) (s : Simulation)
    → Consistent limit s
    → Consistent limit (process_as limit lag kind region e s)
unfolding process_as
process_as-Consistent limit lag replication india e s c = record {
  india_within = c.india_within;
  us_within = c.us_within;
  india_behind = c.india_behind;
  us_behind = ground arith;
  india_allowed = c.india_allowed;
  us_allowed = c.us_allowed;
  stale = c.stale;
  refused_late = c.refused_late;
}
process_as-Consistent limit lag replication us e s c = record {
  india_within = c.india_within;
  us_within = c.us_within;
  india_behind = ground arith;
  us_behind = c.us_behind;
  india_allowed = c.india_allowed;
  us_allowed = c.us_allowed;
  stale = c.stale;
  refused_late = c.refused_late;
}
process_as-Consistent limit lag request india e s c = record {
  india_within = ground arith;
  us_within = c.us_within;
  india_behind = ground arith;
  us_behind = ground arith;
  india_allowed = ground arith;
  us_allowed = c.us_allowed;
  stale = ground arith;
  refused_late = ground arith;
}
process_as-Consistent limit lag request us e s c = record {
  india_within = c.india_within;
  us_within = ground arith;
  india_behind = ground arith;
  us_behind = ground arith;
  india_allowed = c.india_allowed;
  us_allowed = ground arith;
  stale = ground arith;
  refused_late = ground arith;
}

pub queue_cases : (q : List Event) → (q ≡ []) ⊎ ((e : Event) × (rest : List Event) × (q ≡ e ∷ rest))
queue_cases [] = inl refl
queue_cases (e ∷ rest) = inr (e, rest, refl)

pub run_events_done :
    (limit lag rounds : ℕ) (s : Simulation) → s.queue ≡ [] → run_events limit lag rounds s ≡ s
unfolding run_events
run_events_done limit lag zero s e = refl
run_events_done limit lag (suc rounds) s e = λ i. elim (e i) [
  | [] ↦ s
  | event ∷ queue ↦ run_events limit lag rounds (process limit lag event (taken queue s))
]

pub run_events_next :
    (limit lag rounds : ℕ) (s : Simulation) (event : Event) (queue : List Event)
    → s.queue ≡ event ∷ queue
    → run_events limit lag (suc rounds) s
      ≡ run_events limit lag rounds (process limit lag event (taken queue s))
unfolding run_events
run_events_next limit lag rounds s event queue e = λ i. elim (e i) [
  | [] ↦ s
  | event ∷ queue ↦ run_events limit lag rounds (process limit lag event (taken queue s))
]

-- What each event keeps, the loop keeps.
pub run_events_keeps {ℓ} :
    (limit lag : ℕ) (P : Simulation → Type ℓ)
    → ((e : Event) (rest : List Event) (s : Simulation)
        → s.queue ≡ e ∷ rest
        → P s
        → P (process limit lag e (taken rest s)))
    → (rounds : ℕ) (s : Simulation) → P s
    → P (run_events limit lag rounds s)
unfolding run_events
run_events_keeps limit lag P each zero s p = p
run_events_keeps limit lag P each (suc rounds) s p = elim (queue_cases s.queue) [
  | inl e ↦ subst P (sym (run_events_done limit lag (suc rounds) s e)) p
  | inr (e, rest, q) ↦
      subst P (sym (run_events_next limit lag rounds s e rest q))
        (run_events_keeps limit lag P each rounds _ (each e rest s q p))
]

pub run_events-Consistent :
    (limit lag rounds : ℕ) (s : Simulation)
    → Consistent limit s
    → Consistent limit (run_events limit lag rounds s)
unfolding process
run_events-Consistent limit lag = run_events_keeps limit lag (Consistent limit) (λ e rest s q c.
    process_as-Consistent limit lag e.kind e.region e (taken rest s) (record {
      india_within = c.india_within;
      us_within = c.us_within;
      india_behind = c.india_behind;
      us_behind = c.us_behind;
      india_allowed = c.india_allowed;
      us_allowed = c.us_allowed;
      stale = c.stale;
      refused_late = c.refused_late;
    }))

-- Each request of a region is decided or waits.
abbrev pub Accounts : ℕ → ℕ → Simulation → Type 0
Accounts india_requests us_requests s =
    (s.india_region.allowed_requests
        + s.india_region.blocked_requests
        + total (in_region india) s.queue
      ≡ india_requests)
    × (s.us_region.allowed_requests + s.us_region.blocked_requests + total (in_region us) s.queue
        ≡ us_requests)

-- The event that an admitted request adds.
abbrev pub replication_of : ℕ → Event → Event
replication_of lag e = record {
  time_ms = e.time_ms + lag;
  priority = 0;
  kind = replication;
  region = e.region;
}

process_as-Accounts :
    (limit lag m n : ℕ) (kind : EventKind) (region : RegionName) (e : Event) (s : Simulation)
    → Accounts m n s
    → (let s' = process_as limit lag kind region e s in
        (s'.india_region.allowed_requests
            + s'.india_region.blocked_requests
            + total (in_region india) s'.queue
          ≡ m + request_in india kind region)
        × (s'.us_region.allowed_requests
              + s'.us_region.blocked_requests
              + total (in_region us) s'.queue
            ≡ n + request_in us kind region))
unfolding process_as request_in
process_as-Accounts limit lag m n replication india e s (a, b) =
    (omega (arith, a), omega (arith, b))
process_as-Accounts limit lag m n replication us e s (a, b) = (omega (arith, a), omega (arith, b))
process_as-Accounts limit lag m n request india e s (a, b) =
    let copy = replication_of lag e in
    let here = total-heappush (in_region india) s.queue copy in
    let there = total-heappush (in_region us) s.queue copy in
    (ground (arith, here, a), ground (arith, there, b))
process_as-Accounts limit lag m n request us e s (a, b) =
    let copy = replication_of lag e in
    let here = total-heappush (in_region india) s.queue copy in
    let there = total-heappush (in_region us) s.queue copy in
    (ground (arith, here, a), ground (arith, there, b))

-- One event taken and processed.
process-Accounts :
    (limit lag m n : ℕ) (e : Event) (rest : List Event) (s : Simulation)
    → s.queue ≡ e ∷ rest
    → Accounts m n s
    → Accounts m n (process limit lag e (taken rest s))
unfolding process total
process-Accounts limit lag m n e rest s q (a, b) =
    let split : (f : Event → ℕ) → total f s.queue ≡ f e + total f rest = λ f. ap (total f) q in
    let here = split (in_region india) in
    let there = split (in_region us) in
    let (a', b') =
      process_as-Accounts limit lag (m - in_region india e) (n - in_region us e) e.kind e.region e
        (taken rest s) (omega (arith, a, here), omega (arith, b, there)) in
    (omega (arith, a', a, here), omega (arith, b', b, there))

pub run_events-Accounts :
    (limit lag m n rounds : ℕ) (s : Simulation)
    → Accounts m n s
    → Accounts m n (run_events limit lag rounds s)
run_events-Accounts limit lag m n =
    run_events_keeps limit lag (Accounts m n) (process-Accounts limit lag m n)
