-- ===== src/Algorithms/TokenBucket/Bounds.antt =====
-- The bucket never holds less than nothing or more than its capacity.
use distributed_rate_limiter.Base.{
  Bool-cases, Option, arith, if◌then◌else◌, inl, inr, none, refl, some, true, ℕ, ◌-◌, ◌≡◌, ◌≤◌,
}
use distributed_rate_limiter.Base.Int.{pos_part}
use distributed_rate_limiter.Float.{Float, IsIeee, exact_bound, fmin}
use distributed_rate_limiter.Algorithms.TokenBucket.{
  TokenBucketState, bucket_or_full, available, apply_token_bucket,
}

pub record IsFilled (fl : Float) (capacity : ℕ) (s : TokenBucketState fl.F) : Type 0 where
  pub nonneg : fl.le (fl.of_int 0) s.tokens ≡ true
  pub le_capacity : fl.le s.tokens (fl.of_int capacity) ≡ true

module _ (fl : Float) (ieee : IsIeee fl) where
  open fl use {F, of_int, add, sub, mul, div, le, floor, ceil}

  pub fmin-le_left : (a b : F) → le (fmin fl a b) a ≡ true
  fmin-le_left a b = elim (Bool-cases (le a b)) [
    | inl e ↦ rw e (ieee.le_refl a)
    | inr e ↦ rw e (ieee.le_total a b e)
  ]

  pub fmin_nonneg :
      (a b : F)
      → le (of_int 0) a ≡ true
      → le (of_int 0) b ≡ true
      → le (of_int 0) (fmin fl a b) ≡ true
  fmin_nonneg a b ha hb = elim (Bool-cases (le a b)) [ inl e ↦ rw e ha | inr e ↦ rw e hb ]

  bucket_or_full-IsFilled :
      (state : Option (TokenBucketState F)) (capacity now_ms : ℕ)
      → ((s : TokenBucketState F) → state ≡ some s → IsFilled fl capacity s)
      → IsFilled fl capacity (bucket_or_full fl state capacity now_ms)
  bucket_or_full-IsFilled none capacity now_ms h = record {
    nonneg = ieee.of_int_mono 0 capacity (omega arith);
    le_capacity = ieee.le_refl (of_int capacity);
  }
  bucket_or_full-IsFilled (some s) capacity now_ms h = h s refl

  available_bounds :
      (s : TokenBucketState F) (capacity now_ms : ℕ) (refill : F)
      → IsFilled fl capacity s
      → le (of_int 0) refill ≡ true
      → (le (of_int 0) (available fl s capacity now_ms refill) ≡ true)
        × (le (available fl s capacity now_ms refill) (of_int capacity) ≡ true)
  unfolding available
  available_bounds s capacity now_ms refill h r =
      let elapsed = of_int (now_ms - s.last_refill_ms) in
      let gained =
        ieee.mul_nonneg (div elapsed (of_int 1000)) refill
          (ieee.div_nonneg elapsed (of_int 1000) (ieee.of_int_mono 0 _ (omega arith))
            (ieee.of_int_mono 0 1000 (omega arith)))
          r in
      (
        fmin_nonneg (of_int capacity) _ (ieee.of_int_mono 0 capacity (omega arith))
            (ieee.add_nonneg _ _ h.nonneg gained),
        fmin-le_left (of_int capacity) _,
      )

  pub floor-le_capacity :
      (a : F) (capacity : ℕ)
      → capacity ≤ exact_bound
      → le a (of_int capacity) ≡ true
      → pos_part (floor a) ≤ capacity
  floor-le_capacity a capacity fits h =
      ground (arith, ieee.floor_mono a (of_int capacity) h, ieee.floor_of_int capacity fits)

  take-IsFilled :
      (held requested : F) (capacity now_ms : ℕ)
      → le (of_int 0) requested ≡ true
      → (le (of_int 0) held ≡ true) × (le held (of_int capacity) ≡ true)
      → IsFilled fl capacity (record {
        tokens = if le requested held then sub held requested else held;
        last_refill_ms = now_ms;
      })
  take-IsFilled held requested capacity now_ms q (low, high) =
      elim (Bool-cases (le requested held)) [
        | inl e ↦ rw e (record {
          nonneg = ieee.sub_nonneg held requested e;
          le_capacity = ieee.le_trans _ held _ (ieee.sub_le held requested q) high;
        })
        | inr e ↦ rw e (record { nonneg = low; le_capacity = high })
      ]

  -- One request keeps the bucket between empty and full, whatever the clock does, and it reports
  -- no more whole tokens than the capacity.
  pub apply_token_bucket_bounds :
      (now_ms : ℕ) (state : Option (TokenBucketState F)) (capacity : ℕ) (refill requested : F)
      → ((s : TokenBucketState F) → state ≡ some s → IsFilled fl capacity s)
      → le (of_int 0) refill ≡ true
      → le (of_int 0) requested ≡ true
      → capacity ≤ exact_bound
      → let (s', c) = apply_token_bucket fl now_ms state capacity refill requested in
        IsFilled fl capacity s' × (c.remaining ≤ capacity)
  unfolding apply_token_bucket
  apply_token_bucket_bounds now_ms state capacity refill requested h r q fits =
      let s = bucket_or_full fl state capacity now_ms in
      let filled =
        take-IsFilled (available fl s capacity now_ms refill) requested capacity now_ms q (
          available_bounds s capacity now_ms refill
            (bucket_or_full-IsFilled state capacity now_ms h) r) in
      (filled, floor-le_capacity _ capacity fits filled.le_capacity)
