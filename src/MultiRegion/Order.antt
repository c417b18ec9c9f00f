-- ===== src/MultiRegion/Order.antt =====
-- The order of the queue: requests by their times, and a replication before them.
use distributed_rate_limiter.Base.{
  Bool-cases, List, [], arith, false, inl, inr, refl, suc, true, zero, ℕ, ◌+◌, ◌∷◌, ◌≡◌, ◌≤◌,
}
use distributed_rate_limiter.MultiRegion.{
  RegionName, request, Event, event_lt, heappush, push_requests,
}

-- Requests in the order of their times, from `low` on.
unfoldable pub Requests : ℕ → List Event → Type 0
Requests low [] = Unit
Requests low (e ∷ queue) =
    (low ≤ e.time_ms) × (e.priority ≡ 1) × (e.kind ≡ request) × Requests e.time_ms queue

lt_time : (x e : Event) → event_lt x e ≡ true → x.time_ms ≤ e.time_ms
unfolding event_lt
lt_time x e h = ground (arith, h)

not_lt_time : (x e : Event) → event_lt x e ≡ false → e.time_ms ≤ x.time_ms
unfolding event_lt
not_lt_time x e h = ground (arith, h)

pub Requests-lower :
    (low low' : ℕ) (queue : List Event) → low' ≤ low → Requests low queue → Requests low' queue
unfolding Requests
Requests-lower low low' [] le h = tt
Requests-lower low low' (e ∷ queue) le (late, one, kind, rest) =
    (omega (arith, le, late), one, kind, rest)

Requests-heappush :
    (low : ℕ) (queue : List Event) (e : Event)
    → low ≤ e.time_ms
    → e.priority ≡ 1
    → e.kind ≡ request
    → Requests low queue
    → Requests low (heappush queue e)
unfolding Requests heappush
Requests-heappush low [] e le one kind h = (le, one, kind, tt)
Requests-heappush low (x ∷ queue) e le one kind (late, x_one, x_kind, rest) =
    elim (Bool-cases (event_lt x e)) [
      | inl b ↦
          rw b
            (late, x_one, x_kind, Requests-heappush x.time_ms queue e (lt_time x e b) one kind rest)
      | inr b ↦ rw b (le, one, kind, (not_lt_time x e b, x_one, x_kind, rest))
    ]

pub Requests-push_requests :
    (spacing : ℕ) (region : RegionName) (count index : ℕ) (queue : List Event)
    → Requests 0 queue
    → Requests 0 (push_requests spacing region count index queue)
unfolding push_requests
Requests-push_requests spacing region zero index queue h = h
Requests-push_requests spacing region (suc count) index queue h =
    Requests-push_requests spacing region count (index + 1) _
      (Requests-heappush 0 queue _ (omega arith) refl refl h)

-- A replication at the time of the event that caused it goes to the front.
pub replication_first :
    (low : ℕ) (queue : List Event) (e : Event)
    → e.time_ms ≤ low
    → e.priority ≡ 0
    → Requests low queue
    → heappush queue e ≡ e ∷ queue
unfolding Requests heappush
replication_first low [] e le zero_first h = refl
replication_first low (x ∷ queue) e le zero_first (late, one, kind, rest) =
    let behind : event_lt x e ≡ false =
      unfold event_lt in ground (arith, le, zero_first, late, one) in
    rw behind refl
