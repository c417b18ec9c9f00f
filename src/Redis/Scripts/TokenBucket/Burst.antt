-- ===== src/Redis/Scripts/TokenBucket/Burst.antt =====
-- A burst of requests at one time on the token-bucket script.
use distributed_rate_limiter.Base.{
  zero, suc, refl, Bool-cases, List, [], arith, if◌then◌else◌, inl, inr, ltb, subst, true, ℕ, ◌+◌,
  ◌<◌, ◌∙◌, ◌∷◌, ◌≡◌, ◌≤◌, false, ap, refl,
}
use distributed_rate_limiter.Base.Int.{pos_part}
use distributed_rate_limiter.Base.Text.{Text}
use distributed_rate_limiter.Float.{Float, IsIeee, exact_bound}
use distributed_rate_limiter.Algorithms.TokenBucket.Bounds.{floor-le_capacity}
use distributed_rate_limiter.Redis.{Redis, Bucket}
use distributed_rate_limiter.Redis.Hashes.{Hashes}
use distributed_rate_limiter.Redis.Scripts.{Reply, last_or, token_bucket_lua}
use distributed_rate_limiter.Redis.Scripts.TokenBucket.{
  Holds, refilled, left, replies, refilled-Within, stored, step-Holds,
}
use distributed_rate_limiter.Algorithms.TokenBucket.Burst.{floor_step}

-- How many of the requests are admitted.
pub admitted_of : List Reply → ℕ
admitted_of [] = 0
admitted_of (reply ∷ rest) = reply.allowed + admitted_of rest

-- `n` requests at one time.
pub at_once : ℕ → ℕ → List ℕ
at_once zero t = []
at_once (suc n) t = t ∷ at_once n t

not_refilled : (last now_ms : ℕ) → ltb (if ltb last now_ms then now_ms else last) now_ms ≡ false
not_refilled last now_ms = ground arith

module _ (fl : Float) (ieee : IsIeee fl) (r : Redis fl.F) (laws : Hashes r) (key : Text)
    (capacity : ℕ) (refill_per_ms : fl.F) (ttl_ms : ℕ)
    (rate_ok : fl.le (fl.of_int 0) refill_per_ms ≡ true) (fits : capacity ≤ exact_bound)
    (kept : 0 < ttl_ms) where
  open fl use {F, of_int, add, sub, mul, div, le, floor, ceil}

  ask_ok : le (of_int 0) (of_int 1) ≡ true
  ask_ok = ieee.of_int_mono 0 1 (omega arith)

  abbrev bucket : ℕ → r.Db → Bucket F
  bucket t db = r.hmget t key db

  abbrev full_at : ℕ → r.Db → F
  full_at t db = refilled fl r key capacity refill_per_ms (of_int 1) ttl_ms t (bucket t db)

  abbrev left_at : ℕ → r.Db → F
  left_at t db = left fl r key capacity refill_per_ms (of_int 1) ttl_ms t (bucket t db)

  abbrev next : ℕ → r.Db → r.Db
  next t db = (token_bucket_lua fl r t key capacity refill_per_ms (of_int 1) ttl_ms db).1

  abbrev pub Held : ℕ → r.Db → Type 0
  Held t db = Holds fl r key capacity refill_per_ms (of_int 1) ttl_ms (bucket t db)

  -- A second request at the same time finds what the first has left.
  full_at-next : (t : ℕ) (db : r.Db) → full_at t (next t db) ≡ left_at t db
  full_at-next t db =
      let is =
        stored fl r key capacity refill_per_ms (of_int 1) ttl_ms ieee laws rate_ok ask_ok fits kept
          t db in
      ap (λ b. refilled fl r key capacity refill_per_ms (of_int 1) ttl_ms t b) is
      ∙ (rw (not_refilled (last_or fl r t (bucket t db).last_refill_ms) t) refl)

  -- The script's decision.
  allowed_lem :
      (t : ℕ) (db : r.Db)
      → (token_bucket_lua fl r t key capacity refill_per_ms (of_int 1) ttl_ms db).0.allowed
        ≡ (if le (of_int 1) (full_at t db) then 1 else 0)
  unfolding token_bucket_lua
  allowed_lem t db = refl

  count_step :
      (held later : F) (a n : ℕ)
      → a ≡ (if le (of_int 1) held then 1 else 0)
      → pos_part (floor held)
        ≡ (if le (of_int 1) held then suc (pos_part (floor (sub held (of_int 1)))) else 0)
      → later ≡ (if le (of_int 1) held then sub held (of_int 1) else held)
      → n ≤ pos_part (floor later)
      → a + n ≤ pos_part (floor held)
  count_step held later a n decided floors found rest = elim (Bool-cases (le (of_int 1) held)) [
    | inl e ↦
        let one : a ≡ 1 = rw e at decided in
        let more : pos_part (floor held) ≡ suc (pos_part (floor (sub held (of_int 1)))) =
          rw e at floors in
        let is : later ≡ sub held (of_int 1) = rw e at found in
        let rest' : n ≤ pos_part (floor (sub held (of_int 1))) =
          subst (λ x. n ≤ pos_part (floor x)) is rest in
        omega (arith, one, more, rest')
    | inr e ↦
        let none_left : a ≡ 0 = rw e at decided in
        let is : later ≡ held = rw e at found in
        let rest' : n ≤ pos_part (floor held) = subst (λ x. n ≤ pos_part (floor x)) is rest in
        omega (arith, none_left, rest')
  ]

  burst-le :
      (n t : ℕ) (db : r.Db)
      → Held t db
      → admitted_of (replies fl r key capacity refill_per_ms (of_int 1) ttl_ms db (at_once n t))
        ≤ pos_part (floor (full_at t db))
  unfolding at_once replies admitted_of
  burst-le zero t db h = omega arith
  burst-le (suc n) t db h =
      let (low, high) =
        refilled-Within fl r key capacity refill_per_ms (of_int 1) ttl_ms ieee laws rate_ok ask_ok
          fits kept t (bucket t db) h in
      let h' =
        (step-Holds fl r key capacity refill_per_ms (of_int 1) ttl_ms ieee laws rate_ok ask_ok fits
          kept t db h).1 in
      let rest = burst-le n t (next t db) h' in
      let decided = allowed_lem t db in
      let floors = floor_step fl ieee (full_at t db) capacity fits low high in
      let found = full_at-next t db in
      count_step (full_at t db) (full_at t (next t db)) _ _ decided floors found rest

  -- Let the refill rate not be negative, the time to live be positive, and the capacity be exact as
  -- a float. However many requests for one token come at the same time, at most `capacity` of them
  -- are admitted, where the bucket holds between no tokens and the capacity, or nothing, at first.
  pub token_bucket_lua_burst :
      (n t : ℕ) (db : r.Db)
      → Held t db
      → admitted_of (replies fl r key capacity refill_per_ms (of_int 1) ttl_ms db (at_once n t))
        ≤ capacity
  token_bucket_lua_burst n t db h =
      let (low, high) =
        refilled-Within fl r key capacity refill_per_ms (of_int 1) ttl_ms ieee laws rate_ok ask_ok
          fits kept t (bucket t db) h in
      let spent = burst-le n t db h in
      let whole = floor-le_capacity fl ieee (full_at t db) capacity fits high in
      omega (arith, spent, whole)
