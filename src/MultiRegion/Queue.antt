-- ===== src/MultiRegion/Queue.antt =====
-- Sums over the event queue: a push adds its event's share, wherever it is put.
use distributed_rate_limiter.Base.{
  Bool-cases, List, [], ap, arith, inl, inr, length, refl, suc, zero, ℕ, ◌*◌, ◌+◌, ◌∙◌, ◌∷◌, ◌≡◌,
}
use distributed_rate_limiter.MultiRegion.{
  RegionName, india, us, EventKind, request, replication, Event, event_lt, heappush, push_requests,
}

unfoldable pub total : (Event → ℕ) → List Event → ℕ
total f [] = 0
total f (e ∷ queue) = f e + total f queue

pub total-heappush :
    (f : Event → ℕ) (queue : List Event) (e : Event)
    → total f (heappush queue e) ≡ f e + total f queue
unfolding total heappush
total-heappush f [] e = refl
total-heappush f (x ∷ queue) e =
    let rest = total-heappush f queue e in
    elim (Bool-cases (event_lt x e)) [ inl lt ↦ rw lt (omega (arith, rest)) | inr ge ↦ rw ge refl ]

pub length-total : (queue : List Event) → total (λ e. 1) queue ≡ length queue
unfolding total
length-total [] = refl
length-total (e ∷ queue) = let rest = length-total queue in omega (arith, rest)

-- The rounds that an event needs: a request may add its replication.
unfoldable pub rounds_of : EventKind → ℕ
rounds_of request = 2
rounds_of replication = 1

abbrev pub weight : Event → ℕ
weight e = rounds_of e.kind

-- One for each request of the region.
unfoldable pub request_in : RegionName → EventKind → RegionName → ℕ
request_in india request india = 1
request_in us request us = 1
request_in _ _ _ = 0

abbrev pub in_region : RegionName → Event → ℕ
in_region region e = request_in region e.kind e.region

suc_mul : (n c t : ℕ) → n * c + (c + t) ≡ suc n * c + t
suc_mul n c t = grind arith

pub total-push_requests :
    (f : Event → ℕ) (c spacing : ℕ) (region : RegionName)
    → ((index : ℕ)
        → f (record { time_ms = index * spacing; priority = 1; kind = request; region = region })
          ≡ c)
    → (count index : ℕ) (queue : List Event)
    → total f (push_requests spacing region count index queue) ≡ count * c + total f queue
unfolding push_requests
total-push_requests f c spacing region each zero index queue = omega arith
total-push_requests f c spacing region each (suc count) index queue =
    let e : Event = record {
      time_ms = index * spacing;
      priority = 1;
      kind = request;
      region = region;
    } in
    let rest = total-push_requests f c spacing region each count (index + 1) (heappush queue e) in
    rest
    ∙ ap (λ n. count * c + n) (total-heappush f queue e)
    ∙ ap (λ n. count * c + (n + total f queue)) (each index)
    ∙ suc_mul count c (total f queue)
