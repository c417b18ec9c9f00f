-- ===== src/MultiRegion/Summary.antt =====
-- What the summary of a simulation says.
use distributed_rate_limiter.Base.{
  [], ap, arith, false, leb, length, max, min, refl, some, ℕ, ◌*◌, ◌+◌, ◌<◌, ◌∙◌, ◌≡◌, ◌≤◌,
}
use distributed_rate_limiter.Base.Int.{pos}
use distributed_rate_limiter.MultiRegion.{
  RegionName, india, us, EventKind, request, replication, Event, Simulation, process, process_as,
  taken, run_events, started, finished, summary_of, simulate_multi_region_limit,
}
use distributed_rate_limiter.MultiRegion.Queue.{
  total, length-total, rounds_of, weight, request_in, in_region, total-push_requests,
}
use distributed_rate_limiter.MultiRegion.Counts.{
  Consistent, run_events-Consistent, run_events-Accounts, run_events_keeps,
}
use distributed_rate_limiter.MultiRegion.Drains.{process-total, run_events_drains}

process_as_depth :
    (limit lag : ℕ) (kind : EventKind) (region : RegionName) (e : Event) (s : Simulation)
    → (process_as limit lag kind region e s).max_queue_depth ≡ s.max_queue_depth
unfolding process_as
process_as_depth limit lag replication india e s = refl
process_as_depth limit lag replication us e s = refl
process_as_depth limit lag request india e s = refl
process_as_depth limit lag request us e s = refl

max_same : (d l n : ℕ) → d ≡ n → l ≤ n → max d l ≡ n
max_same d l n e le = omega arith

-- The queue never holds more events than requests were sent.
abbrev Depth : ℕ → Simulation → Type 0
Depth n s = (s.max_queue_depth ≡ n) × (length s.queue ≤ n)

run_events-Depth :
    (limit lag n rounds : ℕ) (s : Simulation) → Depth n s → Depth n (run_events limit lag rounds s)
unfolding process
run_events-Depth limit lag n = run_events_keeps limit lag (Depth n) (λ e rest s q (d, l).
    let shorter = (process-total limit lag e rest s q).1 in
    (
      process_as_depth limit lag e.kind e.region e (taken rest s) ∙ max_same _ _ n d l,
      omega (arith, shorter, l),
    ))

no_quota_lost :
    (limit a b c d m n : ℕ)
    → a + b ≡ m
    → c + d ≡ n
    → (0 < b + d → limit ≤ a + c)
    → min limit (m + n) ≤ a + c
no_quota_lost limit a b c d m n e e' late = ground arith

module _ (limit lag india_requests us_requests spacing : ℕ) where
  abbrev start : Simulation
  start = started india_requests us_requests spacing

  start_total :
      (f : Event → ℕ) (c d : ℕ)
      → ((index : ℕ)
          → f (record { time_ms = index * spacing; priority = 1; kind = request; region = us }) ≡ c)
      → ((index : ℕ)
          → f (record { time_ms = index * spacing; priority = 1; kind = request; region = india })
            ≡ d)
      → total f start.queue ≡ us_requests * c + (india_requests * d + 0)
  unfolding started total
  start_total f c d each_us each_india =
      total-push_requests f c spacing us each_us us_requests 0 _
      ∙ ap (λ n. us_requests * c + n)
          (total-push_requests f d spacing india each_india india_requests 0 [])

  abbrev end : Simulation
  end = finished limit lag india_requests us_requests spacing

  start_length : length start.queue ≡ india_requests + us_requests
  start_length =
      let ones = start_total (λ e. 1) 1 1 (λ index. refl) (λ index. refl) in
      let same = length-total start.queue in omega (arith, ones, same)

  -- The rounds suffice: the queue is empty at the end, and each request of either region has been
  -- admitted or blocked.
  pub finished_decides_all :
      (end.queue ≡ [])
      × (end.india_region.allowed_requests + end.india_region.blocked_requests ≡ india_requests)
      × (end.us_region.allowed_requests + end.us_region.blocked_requests ≡ us_requests)
  unfolding finished started request_in rounds_of total
  finished_decides_all =
      let work = start_total weight 2 2 (λ index. refl) (λ index. refl) in
      let empty =
        run_events_drains limit lag (2 * (india_requests + us_requests)) start
          (omega (arith, work)) in
      let of_india = start_total (in_region india) 0 1 (λ index. refl) (λ index. refl) in
      let of_us = start_total (in_region us) 1 0 (λ index. refl) (λ index. refl) in
      let (a, b) =
        run_events-Accounts limit lag india_requests us_requests
          (2 * (india_requests + us_requests)) start
          (omega (arith, of_india), omega (arith, of_us)) in
      let none_of : (region : RegionName) → total (in_region region) end.queue ≡ 0 =
        λ region. ap (total (in_region region)) empty in
      (empty, omega (arith, a, none_of india), omega (arith, b, none_of us))

  -- The greatest depth of the queue that the summary reports is the number of requests, whatever
  -- the limit and the lag are.
  pub finished_depth : end.max_queue_depth ≡ india_requests + us_requests
  unfolding finished started
  finished_depth =
      (run_events-Depth limit lag (india_requests + us_requests) _ start
        (start_length, omega (arith, start_length))).0

  pub finished-Consistent : Consistent limit end
  unfolding finished started
  finished-Consistent = run_events-Consistent limit lag _ start (record {
    india_within = omega arith;
    us_within = omega arith;
    india_behind = omega arith;
    us_behind = omega arith;
    india_allowed = refl;
    us_allowed = refl;
    stale = omega arith;
    refused_late = λ h. omega (arith, h);
  })

  -- With a positive limit, each region admits at most the limit, both together admit at least the
  -- limit or all that was sent, and the decisions that are counted as stale are those beyond the
  -- limit, of which there are at most as many as the limit.
  pub simulate_multi_region_limit_bounds :
      0 < limit
      → let s = summary_of limit lag india_requests us_requests spacing end in
        (simulate_multi_region_limit (pos limit) (pos lag) india_requests us_requests spacing
          ≡ some (s, end.decisions))
        × (s.india_allowed ≤ limit)
        × (s.us_allowed ≤ limit)
        × (min limit (india_requests + us_requests) ≤ s.total_allowed)
        × (s.stale_allowed_decisions ≡ s.oversubscription)
        × (s.oversubscription ≤ limit)
  unfolding simulate_multi_region_limit summary_of
  simulate_multi_region_limit_bounds positive =
      let c = finished-Consistent in
      let (done, a, b) = finished_decides_all in
      let not_zero : leb limit 0 ≡ false = ground arith in
      (
        rw not_zero refl,
        omega (arith, c.india_within, c.india_allowed),
        omega (arith, c.us_within, c.us_allowed),
        no_quota_lost limit _ _ _ _ _ _ a b
            (λ h. omega (arith, c.refused_late h, c.india_allowed, c.us_allowed)),
        omega (arith, c.stale, c.india_allowed, c.us_allowed),
        omega (arith, c.india_within, c.india_allowed, c.us_within, c.us_allowed),
      )
