-- ===== src/MultiRegion/NoLag.antt =====
-- Without a lag, the replication of an admitted request comes before every other event, so that
-- each decision is taken on what both regions have admitted.
use distributed_rate_limiter.Base.{
  Bool-cases, List, [], ap, arith, inl, inr, ltb, ltb→lt, min, refl, subst, sym, ℕ, ◌+◌, ◌<◌, ◌∙◌,
  ◌∷◌, ◌≡◌, ◌≤◌, ◌⊎◌,
}
use distributed_rate_limiter.MultiRegion.{
  RegionName, india, us, EventKind, request, replication, Event, Simulation, process, process_as,
  taken, started, finished, summary_of, known_global,
}
use distributed_rate_limiter.MultiRegion.Order.{
  Requests, Requests-lower, Requests-push_requests, replication_first,
}
use distributed_rate_limiter.MultiRegion.Counts.{run_events_keeps}
use distributed_rate_limiter.MultiRegion.Summary.{
  finished_decides_all, simulate_multi_region_limit_bounds, finished-Consistent,
}

-- Both regions know of everything that was admitted.
Synced : Simulation → Type 0
Synced s =
    Requests 0 s.queue
    × (s.india_region.remote_observed ≡ s.us_region.local_accepted)
    × (s.us_region.remote_observed ≡ s.india_region.local_accepted)

-- The other region is about to learn of a request that this one has admitted.
Pending : RegionName → Simulation → Type 0
Pending india s =
    (e : Event) × (queue : List Event) × (s.queue ≡ e ∷ queue)
    × (e.kind ≡ replication)
    × (e.region ≡ india)
    × Requests 0 queue
    × (s.india_region.remote_observed ≡ s.us_region.local_accepted)
    × (s.us_region.remote_observed ≤ s.india_region.local_accepted)
Pending us s =
    (e : Event) × (queue : List Event) × (s.queue ≡ e ∷ queue)
    × (e.kind ≡ replication)
    × (e.region ≡ us)
    × Requests 0 queue
    × (s.us_region.remote_observed ≡ s.india_region.local_accepted)
    × (s.india_region.remote_observed ≤ s.us_region.local_accepted)

-- The limit holds, and at most one request is not known to both regions.
Exact : ℕ → Simulation → Type 0
Exact limit s =
    (s.india_region.local_accepted + s.us_region.local_accepted ≤ limit)
    × (Synced s ⊎ (Pending india s ⊎ Pending us s))

served :
    (limit : ℕ) (r : RegionName) (e : Event) (rest : List Event) (s : Simulation)
    → e.region ≡ r
    → Requests e.time_ms rest
    → s.india_region.remote_observed ≡ s.us_region.local_accepted
    → s.us_region.remote_observed ≡ s.india_region.local_accepted
    → s.india_region.local_accepted + s.us_region.local_accepted ≤ limit
    → Exact limit (process_as limit 0 request r e (taken rest s))
unfolding process_as Exact Synced Pending
served limit india e rest s here late i u le =
    let first =
      replication_first e.time_ms rest
        (record { time_ms = e.time_ms + 0; priority = 0; kind = replication; region = e.region })
        (omega arith) refl late in
    elim (Bool-cases (ltb (known_global s.india_region) limit)) [
      | inl b ↦ rw b (
        (let room = ltb→lt _ _ b in omega (arith, room, i)),
        inr (
            inl (
              _,
              rest,
              first,
              refl,
              here,
              Requests-lower e.time_ms 0 rest (omega arith) late,
              i,
              omega (arith, u),
            )),
      )
      | inr b ↦ rw b (le, inl (Requests-lower e.time_ms 0 rest (omega arith) late, i, u))
    ]
served limit us e rest s here late i u le =
    let first =
      replication_first e.time_ms rest
        (record { time_ms = e.time_ms + 0; priority = 0; kind = replication; region = e.region })
        (omega arith) refl late in
    elim (Bool-cases (ltb (known_global s.us_region) limit)) [
      | inl b ↦ rw b (
        (let room = ltb→lt _ _ b in omega (arith, room, u)),
        inr (
            inr (
              _,
              rest,
              first,
              refl,
              here,
              Requests-lower e.time_ms 0 rest (omega arith) late,
              u,
              omega (arith, i),
            )),
      )
      | inr b ↦ rw b (le, inl (Requests-lower e.time_ms 0 rest (omega arith) late, i, u))
    ]

uncons : {x y : Event} {xs ys : List Event} → x ∷ xs ≡ y ∷ ys → (x ≡ y) × (xs ≡ ys)
uncons e = (cc, cc)

process_is :
    (limit : ℕ) (e : Event) (s : Simulation) (kind : EventKind) (r : RegionName)
    → e.kind ≡ kind
    → e.region ≡ r
    → process limit 0 e s ≡ process_as limit 0 kind r e s
unfolding process
process_is limit e s kind r same_kind here = λ i. process_as limit 0 (same_kind i) (here i) e s

region_cases : (r : RegionName) → (r ≡ india) ⊎ (r ≡ us)
region_cases india = inl refl
region_cases us = inr refl

learned :
    (limit : ℕ) (r : RegionName) (e : Event) (rest : List Event) (s : Simulation)
    → s.queue ≡ e ∷ rest
    → s.india_region.local_accepted + s.us_region.local_accepted ≤ limit
    → Pending r s
    → Exact limit (process limit 0 e (taken rest s))
unfolding Exact Synced Pending
learned limit india e rest s is le (e', queue, is', kind, here, requests, i, u) =
    let (same, same_rest) = uncons (sym is ∙ is') in
    subst (Exact limit)
      (sym (
        process_is limit e (taken rest s) replication india (ap (λ x. x.kind) same ∙ kind)
          (ap (λ x. x.region) same ∙ here)))
      (unfold process_as in
        (le, inl (subst (Requests 0) (sym same_rest) requests, i, omega (arith, u))))
learned limit us e rest s is le (e', queue, is', kind, here, requests, u, i) =
    let (same, same_rest) = uncons (sym is ∙ is') in
    subst (Exact limit)
      (sym (
        process_is limit e (taken rest s) replication us (ap (λ x. x.kind) same ∙ kind)
          (ap (λ x. x.region) same ∙ here)))
      (unfold process_as in
        (le, inl (subst (Requests 0) (sym same_rest) requests, omega (arith, i), u)))

process-Exact :
    (limit : ℕ) (e : Event) (rest : List Event) (s : Simulation)
    → s.queue ≡ e ∷ rest
    → Exact limit s
    → Exact limit (process limit 0 e (taken rest s))
unfolding Exact Synced Requests
process-Exact limit e rest s is (le, inl (requests, i, u)) =
    let (_, _, kind, late) = subst (Requests 0) is requests in
    elim (region_cases e.region) [
      | inl here ↦
          subst (Exact limit) (sym (process_is limit e (taken rest s) request india kind here))
            (served limit india e rest s here late i u le)
      | inr here ↦
          subst (Exact limit) (sym (process_is limit e (taken rest s) request us kind here))
            (served limit us e rest s here late i u le)
    ]
process-Exact limit e rest s is (le, inr (inl pending)) = learned limit india e rest s is le pending
process-Exact limit e rest s is (le, inr (inr pending)) = learned limit us e rest s is le pending

module _ (limit india_requests us_requests spacing : ℕ) where
  abbrev end : Simulation
  end = finished limit 0 india_requests us_requests spacing

  end-Exact : Exact limit end
  unfolding finished started Exact Synced Requests
  end-Exact = run_events_keeps limit 0 (Exact limit) (process-Exact limit) _ _ (
    omega arith,
    inl (
      Requests-push_requests spacing us us_requests 0 _
          (Requests-push_requests spacing india india_requests 0 [] tt),
      refl,
      refl,
    ),
  )

  -- With a positive limit and without a lag, both regions together admit exactly the limit, or all
  -- that was sent if this is less: nothing is admitted beyond the limit, and no decision is stale.
  pub simulate_multi_region_limit_exact :
      0 < limit
      → let s = summary_of limit 0 india_requests us_requests spacing end in
        (s.total_allowed ≡ min limit (india_requests + us_requests))
        × (s.oversubscription ≡ 0)
        × (s.stale_allowed_decisions ≡ 0)
  unfolding summary_of Exact
  simulate_multi_region_limit_exact positive =
      let (_, _, _, quota, stale, _) =
        simulate_multi_region_limit_bounds limit 0 india_requests us_requests spacing positive in
      let (_, a, b) = finished_decides_all limit 0 india_requests us_requests spacing in
      let c = finished-Consistent limit 0 india_requests us_requests spacing in
      let within = end-Exact.0 in
      let india_all = c.india_allowed in
      let us_all = c.us_allowed in
      (
        omega (arith, quota, a, b, within, india_all, us_all),
        omega (arith, within, india_all, us_all),
        omega (arith, stale, within, india_all, us_all),
      )
