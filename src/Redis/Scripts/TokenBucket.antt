-- ===== src/Redis/Scripts/TokenBucket.antt =====
-- The token-bucket script keeps the bucket between empty and full.
pub mod Burst
use distributed_rate_limiter.Base.{
  All, Ascending, Bool-cases, List, [], arith, if◌then◌else◌, inl, inr, ltb, some, subst, sym, true,
  ℕ, ◌-◌, ◌<◌, ◌∙◌, ◌∷◌, ◌≡◌, ◌≤◌,
}
use distributed_rate_limiter.Base.Int.{pos, ◌≤ℤ◌}
use distributed_rate_limiter.Base.Text.{Text}
use distributed_rate_limiter.Float.{Float, IsIeee, exact_bound, fmin}
use distributed_rate_limiter.Algorithms.TokenBucket.Bounds.{fmin-le_left, fmin_nonneg}
use distributed_rate_limiter.Redis.{Redis, Bucket}
use distributed_rate_limiter.Redis.Hashes.{Hashes}
use distributed_rate_limiter.Redis.Scripts.{Reply, tokens_or, last_or, token_bucket_lua}

module _ (fl : Float) (r : Redis fl.F) (key : Text) (capacity : ℕ) (refill_per_ms requested : fl.F)
    (ttl_ms : ℕ) where
  open fl use {F, of_int, add, sub, mul, div, le, floor, ceil}

  abbrev pub Within : F → Type 0
  Within a = (le (of_int 0) a ≡ true) × (le a (of_int capacity) ≡ true)

  -- What a bucket holds, if it holds anything, is between empty and full.
  abbrev pub Holds : Bucket F → Type 0
  Holds b = Within (tokens_or fl r (of_int capacity) b.tokens)

  -- The tokens after the refill, and after the request.
  abbrev pub refilled : ℕ → Bucket F → F
  refilled now_ms b =
      let tokens = tokens_or fl r (of_int capacity) b.tokens in
      let last = last_or fl r now_ms b.last_refill_ms in
      if ltb last now_ms
      then fmin fl (of_int capacity) (add tokens (mul (of_int (now_ms - last)) refill_per_ms))
      else tokens

  abbrev pub left : ℕ → Bucket F → F
  left now_ms b =
      if le requested (refilled now_ms b)
      then sub (refilled now_ms b) requested
      else refilled now_ms b

  -- The requests come at the times, which do not decrease, from `low` on.
  pub replies : r.Db → List ℕ → List Reply
  replies db [] = []
  replies db (t ∷ ts) =
      let (reply, db') = token_bucket_lua fl r t key capacity refill_per_ms requested ttl_ms db in
      reply ∷ replies db' ts

  module _ (ieee : IsIeee fl) (laws : Hashes r) (rate_ok : le (of_int 0) refill_per_ms ≡ true)
      (ask_ok : le (of_int 0) requested ≡ true) (fits : capacity ≤ exact_bound)
      (kept : 0 < ttl_ms) where
    pub refilled-Within : (now_ms : ℕ) (b : Bucket F) → Holds b → Within (refilled now_ms b)
    refilled-Within now_ms b (low, high) =
        let last = last_or fl r now_ms b.last_refill_ms in
        let gained =
          ieee.mul_nonneg (of_int (now_ms - last)) refill_per_ms
            (ieee.of_int_mono 0 _ (omega arith)) rate_ok in
        elim (Bool-cases (ltb last now_ms)) [
          | inl e ↦ rw e (
            fmin_nonneg fl ieee (of_int capacity) _ (ieee.of_int_mono 0 capacity (omega arith))
                (ieee.add_nonneg _ _ low gained),
            fmin-le_left fl ieee (of_int capacity) _,
          )
          | inr e ↦ rw e (low, high)
        ]

    left-Within : (now_ms : ℕ) (b : Bucket F) → Holds b → Within (left now_ms b)
    left-Within now_ms b h =
        let (low, high) = refilled-Within now_ms b h in
        elim (Bool-cases (le requested (refilled now_ms b))) [
          | inl e ↦ rw e (
            ieee.sub_nonneg _ requested e,
            ieee.le_trans _ (refilled now_ms b) _ (ieee.sub_le _ requested ask_ok) high,
          )
          | inr e ↦ rw e (low, high)
        ]

    floor-Within : (a : F) → Within a → (pos 0 ≤ℤ floor a) × (floor a ≤ℤ pos capacity)
    floor-Within a (low, high) = (
      (ieee.floor_galois 0 a (omega arith)).0 low,
      subst (λ n. floor a ≤ℤ n) (ieee.floor_of_int capacity fits)
          (ieee.floor_mono a (of_int capacity) high),
    )

    -- The bucket that the script leaves.
    abbrev touched : ℕ → Bucket F → ℕ
    touched now_ms b =
        let last = last_or fl r now_ms b.last_refill_ms in if ltb last now_ms then now_ms else last

    pub stored :
        (t : ℕ) (db : r.Db)
        → let b = r.hmget t key db in
          r.hmget t key (token_bucket_lua fl r t key capacity refill_per_ms requested ttl_ms db).1
          ≡ record { tokens = some (left t b); last_refill_ms = some (touched t b) }
    unfolding token_bucket_lua
    stored t db = laws.hmget-pexpire t ttl_ms key _ kept ∙ laws.hmget-hmset t key _ _ db

    pub step-Holds :
        (t : ℕ) (db : r.Db)
        → Holds (r.hmget t key db)
        → let (reply, db') =
            token_bucket_lua fl r t key capacity refill_per_ms requested ttl_ms db in
          ((pos 0 ≤ℤ reply.remaining) × (reply.remaining ≤ℤ pos capacity))
          × Holds (r.hmget t key db')
    unfolding token_bucket_lua
    step-Holds t db h =
        let filled = left-Within t (r.hmget t key db) h in
        (floor-Within _ filled, subst Holds (sym (stored t db)) filled)

    later-Holds :
        (s t : ℕ) (db : r.Db) → s ≤ t → Holds (r.hmget s key db) → Holds (r.hmget t key db)
    later-Holds s t db le_t h = elim (laws.hmget_later s t key db le_t) [
      | inl same ↦ subst Holds (sym same) h
      | inr gone ↦
          subst Holds (sym gone) (ieee.of_int_mono 0 capacity (omega arith), ieee.le_refl _)
    ]

    -- Let the refill rate and the amount of a request not be negative, the time to live be positive,
    -- and the capacity be exact as a float. Whatever the times of the requests are, if the server's
    -- clock does not go back, each reply reports between no tokens and the capacity as remaining,
    -- where the bucket holds such an amount or nothing at first: neither a refill, nor a request, nor the removal of the key takes it out
    -- of these bounds.
    pub token_bucket_lua_bounds :
        (low : ℕ) (db : r.Db) (ts : List ℕ)
        → Holds (r.hmget low key db)
        → Ascending low ts
        → All
            (λ reply. (pos 0 ≤ℤ reply.remaining) × (reply.remaining ≤ℤ pos capacity))
            (replies db ts)
    unfolding replies
    token_bucket_lua_bounds low db [] h asc = tt
    token_bucket_lua_bounds low db (t ∷ ts) h (le_t, asc) =
        let (bounded, h') = step-Holds t db (later-Holds low t db le_t h) in
        (bounded, token_bucket_lua_bounds t _ ts h' asc)
