-- ===== src/Algorithms/TokenBucket/Burst.antt =====
-- A burst with no time between its requests.
use distributed_rate_limiter.Base.{
  Bool, Bool-cases, List, [], arith, count_if, false, if◌then◌else◌, inl, inr, min, refl, some,
  subst, suc, sym, true, zero, ℕ, ◌-◌, ◌∙◌, ◌∷◌, ◌≡◌, ◌≤◌,
}
use mathlib.Core.Bool.{false≢true}
use distributed_rate_limiter.Base.Int.{ℤ, pos, negsuc, negsuc, pos_part, ◌≤ℤ◌, ◌+ℤ◌}
use distributed_rate_limiter.Float.{Float, IsIeee, exact_bound, fmin}
use distributed_rate_limiter.Algorithms.TokenBucket.{
  TokenBucketState, available, apply_token_bucket, run_token_bucket,
}
use distributed_rate_limiter.Algorithms.TokenBucket.Bounds.{IsFilled, apply_token_bucket_bounds}

-- `n` requests at one time.
abbrev pub burst : ℕ → ℕ → List ℕ
burst zero now_ms = []
burst (suc n) now_ms = now_ms ∷ burst n now_ms

abbrev pub count_true : List Bool → ℕ
count_true = count_if (λ b. b)

pos_part_zero : (z : ℤ) → ¬ (pos 1 ≤ℤ z) → pos_part z ≡ 0
pos_part_zero (pos zero) h = refl
pos_part_zero (pos (suc n)) h = absurd (h (omega arith))
pos_part_zero (negsuc n) h = refl

module _ (fl : Float) (ieee : IsIeee fl) where
  open fl use {F, of_int, add, sub, mul, div, le, floor, ceil}

  fmin_of_le : (a b : F) → le b a ≡ true → fmin fl a b ≡ b
  fmin_of_le a b h = elim (Bool-cases (le a b)) [
    | inl e ↦ rw e (ieee.le_antisymm a b e h)
    | inr e ↦ rw e
  ]

  -- With no time elapsed nothing is refilled.
  available_now :
      (s : TokenBucketState F) (capacity : ℕ) (refill : F)
      → le refill (of_int exact_bound) ≡ true
      → IsFilled fl capacity s
      → available fl s capacity s.last_refill_ms refill ≡ s.tokens
  unfolding available
  available_now s capacity refill r h =
      let none_elapsed : s.last_refill_ms - s.last_refill_ms ≡ 0 = omega arith in
      rw (none_elapsed, ieee.zero_rate refill r, ieee.add_zero s.tokens)
        (fmin_of_le (of_int capacity) s.tokens h.le_capacity)

  step_now :
      (s : TokenBucketState F) (capacity : ℕ) (refill : F)
      → le refill (of_int exact_bound) ≡ true
      → IsFilled fl capacity s
      → let (s', c) = apply_token_bucket fl s.last_refill_ms (some s) capacity refill (of_int 1) in
        (c.allowed ≡ le (of_int 1) s.tokens)
        × (s'.tokens ≡ (if le (of_int 1) s.tokens then sub s.tokens (of_int 1) else s.tokens))
        × (s'.last_refill_ms ≡ s.last_refill_ms)
  unfolding apply_token_bucket
  step_now s capacity refill r h =
      let e = available_now s capacity refill r h in (rw e refl, rw e refl, refl)

  pub floor_step :
      (a : F) (capacity : ℕ)
      → capacity ≤ exact_bound
      → le (of_int 0) a ≡ true
      → le a (of_int capacity) ≡ true
      → pos_part (floor a)
        ≡ (if le (of_int 1) a then suc (pos_part (floor (sub a (of_int 1)))) else 0)
  unfolding ◌+ℤ◌
  floor_step a capacity fits low high = elim (Bool-cases (le (of_int 1) a)) [
    | inl e ↦
        let bounded = ieee.le_trans a _ _ high (ieee.of_int_mono capacity exact_bound fits) in
        let rest_nonneg =
          (ieee.floor_galois 0 (sub a (of_int 1)) (omega arith)).0
            (ieee.sub_nonneg a (of_int 1) e) in
        rw e (ground (arith, ieee.floor_sub_one a e bounded, rest_nonneg))
    | inr e ↦ rw e (below e)
  ]
    where
      below : le (of_int 1) a ≡ false → pos_part (floor a) ≡ 0
      below e =
          pos_part_zero (floor a)
            (λ h. false≢true (sym e ∙ (ieee.floor_galois 1 a (omega arith)).1 h))

  -- Of `n` requests at the time of the last refill as many are admitted as the bucket holds whole
  -- tokens, up to `n`: no request is refused while a token is left, and none is admitted after.
  pub token_bucket_burst :
      (n : ℕ) (s : TokenBucketState F) (capacity : ℕ) (refill : F)
      → le (of_int 0) refill ≡ true
      → le refill (of_int exact_bound) ≡ true
      → capacity ≤ exact_bound
      → IsFilled fl capacity s
      → count_true (run_token_bucket fl capacity refill s (burst n s.last_refill_ms)).0
        ≡ min n (pos_part (floor s.tokens))
  unfolding run_token_bucket
  token_bucket_burst zero s capacity refill r0 r fits h = omega arith
  token_bucket_burst (suc n) s capacity refill r0 r fits h =
      let s' = (apply_token_bucket fl s.last_refill_ms (some s) capacity refill (of_int 1)).0 in
      let (ok, left, same_time) = step_now s capacity refill r h in
      let (filled, _) =
        apply_token_bucket_bounds fl ieee s.last_refill_ms (some s) capacity refill (of_int 1)
          (λ s2 e. let same : s ≡ s2 = cc in subst (IsFilled fl capacity) same h) r0
          (ieee.of_int_mono 0 1 (omega arith)) fits in
      let rest = token_bucket_burst n s' capacity refill r0 r fits filled in
      let later =
        subst
          (λ t.
            count_true (run_token_bucket fl capacity refill s' (burst n t)).0
            ≡ min n (pos_part (floor s'.tokens)))
          same_time rest in
      ground (arith, ok, left, later, floor_step s.tokens capacity fits h.nonneg h.le_capacity)
