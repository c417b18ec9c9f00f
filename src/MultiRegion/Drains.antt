-- ===== src/MultiRegion/Drains.antt =====
-- The simulation runs to the end: its rounds suffice, and what its summary says then.
use distributed_rate_limiter.Base.{
  List, [], ap, arith, inl, inr, length, refl, suc, zero, ℕ, ◌+◌, ◌∙◌, ◌∷◌, ◌≡◌, ◌≤◌,
}
use distributed_rate_limiter.MultiRegion.{
  RegionName, india, us, EventKind, request, replication, Event, Simulation, process, process_as,
  taken, run_events,
}
use distributed_rate_limiter.MultiRegion.Queue.{
  total, total-heappush, length-total, rounds_of, weight,
}
use distributed_rate_limiter.MultiRegion.Counts.{
  replication_of, run_events_done, run_events_next, queue_cases,
}

-- An event leaves at most one less round of work than it takes, and a queue that is no longer.
process_as-total :
    (limit lag : ℕ) (kind : EventKind) (region : RegionName) (e : Event) (s : Simulation)
    → let q = (process_as limit lag kind region e s).queue in
      (total weight q + 1 ≤ rounds_of kind + total weight s.queue)
      × (total (λ x. 1) q ≤ 1 + total (λ x. 1) s.queue)
unfolding process_as rounds_of
process_as-total limit lag replication india e s = (omega arith, omega arith)
process_as-total limit lag replication us e s = (omega arith, omega arith)
process_as-total limit lag request india e s =
    let w = total-heappush weight s.queue (replication_of lag e) in
    let l = total-heappush (λ x. 1) s.queue (replication_of lag e) in
    (ground (arith, w), ground (arith, l))
process_as-total limit lag request us e s =
    let w = total-heappush weight s.queue (replication_of lag e) in
    let l = total-heappush (λ x. 1) s.queue (replication_of lag e) in
    (ground (arith, w), ground (arith, l))

rounds_pos : (kind : EventKind) → 1 ≤ rounds_of kind
unfolding rounds_of
rounds_pos request = omega arith
rounds_pos replication = omega arith

nothing_left : (queue : List Event) → total weight queue ≤ 0 → queue ≡ []
unfolding total rounds_of
nothing_left [] le = refl
nothing_left (e ∷ queue) le = absurd (omega (arith, le, rounds_pos e.kind))

-- One event taken and processed.
pub process-total :
    (limit lag : ℕ) (e : Event) (rest : List Event) (s : Simulation)
    → s.queue ≡ e ∷ rest
    → let q = (process limit lag e (taken rest s)).queue in
      (total weight q + 1 ≤ total weight s.queue) × (length q ≤ length s.queue)
unfolding process total
process-total limit lag e rest s q =
    let (w, l) = process_as-total limit lag e.kind e.region e (taken rest s) in
    let here : total weight s.queue ≡ rounds_of e.kind + total weight rest = ap (total weight) q in
    let long : total (λ x. 1) s.queue ≡ 1 + total (λ x. 1) rest = ap (total (λ x. 1)) q in
    let before = length-total s.queue in
    let after = length-total (process limit lag e (taken rest s)).queue in
    (omega (arith, w, here), omega (arith, l, long, before, after))

less : (a b n : ℕ) → a + 1 ≤ b → b ≤ suc n → a ≤ n
less a b n h k = omega arith

-- With a round for the weight of each event, the loop empties the queue.
pub run_events_drains :
    (limit lag rounds : ℕ) (s : Simulation)
    → total weight s.queue ≤ rounds
    → (run_events limit lag rounds s).queue ≡ []
unfolding run_events
run_events_drains limit lag zero s le = nothing_left s.queue le
run_events_drains limit lag (suc rounds) s le = elim (queue_cases s.queue) [
  | inl e ↦ ap (λ x. x.queue) (run_events_done limit lag (suc rounds) s e) ∙ e
  | inr (e, rest, q) ↦
      ap (λ x. x.queue) (run_events_next limit lag rounds s e rest q)
      ∙ run_events_drains limit lag rounds (process limit lag e (taken rest s))
          (less _ _ _ (process-total limit lag e rest s q).0 le)
]
