-- ===== src/Redis/Scripts.antt =====
-- app/redis/scripts.py: the three Lua scripts. A script runs atomically. Lua's numbers are
-- doubles; times and counts are integers below 2 ** 53 and stand as such. The sixth value of a
-- reply, which no caller reads, is left out.
pub mod Replies
pub mod FixedWindow
pub mod SlidingWindow
pub mod TokenBucket
use distributed_rate_limiter.Base.{
  Option, if◌then◌else◌, leb, ltb, none, some, ℕ, ◌%◌, ◌*◌, ◌++◌, ◌+◌, ◌-◌, ◌/◌, ◌==◌, ◌∷◌,
}
use distributed_rate_limiter.Base.Int.{ℤ, pos, sub_ℕ, ◌+ℤ◌}
use distributed_rate_limiter.Base.Text.{Text, decimal}
use distributed_rate_limiter.Float.{Float, fmin}
use distributed_rate_limiter.Redis.{Redis}

-- What TIME answers: seconds and microseconds.
pub record ServerTime : Type 0 where
  pub seconds : ℕ
  pub microseconds : ℕ

-- `now[1] * 1000 + math.floor(now[2] / 1000)`
abbrev pub now_ms_of : ServerTime → ℕ
now_ms_of now = now.seconds * 1000 + now.microseconds / 1000

-- `{allowed, limit, remaining, reset_at_ms, retry_ms, ...}`
pub record Reply : Type 0 where
  pub allowed : ℕ
  pub limit : ℕ
  pub remaining : ℤ
  pub reset_at_ms : ℤ
  pub retry_ms : ℤ

-- `KEYS[1] .. ":" .. window_start`
abbrev pub window_key : Text → ℕ → Text
window_key key window_start = key ++ b':' ∷ decimal window_start

-- `tonumber(oldest[2]) + window_ms`, or `now_ms + window_ms` if the set is empty.
abbrev pub reset_of : ℕ → ℕ → Option ℕ → ℕ
reset_of now_ms window_ms none = now_ms + window_ms
reset_of now_ms window_ms (some score) = score + window_ms

module _ (fl : Float) (r : Redis fl.F) where
  open r use {Db, incr, pexpire, zremrangebyscore, zcard, zadd, zrange_first, hmget, hmset}

  -- FIXED_WINDOW_LUA, at the time that TIME gives.
  unfoldable pub fixed_window_lua : ℕ → Text → ℕ → ℕ → Db → Reply × Db
  fixed_window_lua now_ms key1 limit window_ms db =
      let window_start = now_ms - now_ms % window_ms in
      let key = window_key key1 window_start in
      let (count, db1) = incr now_ms key db in
      let db2 = if count == 1 then pexpire now_ms key (window_ms + 1000) db1 else db1 in
      let reset_at_ms = window_start + window_ms in
      (
        record {
          allowed = if leb count limit then 1 else 0;
          limit = limit;
          remaining = pos (if leb count limit then limit - count else 0);
          reset_at_ms = pos reset_at_ms;
          retry_ms = pos (reset_at_ms - now_ms);
        },
        db2,
      )

  -- SLIDING_WINDOW_LOG_LUA.
  unfoldable pub sliding_window_lua : ℕ → Text → ℕ → ℕ → Text → Db → Reply × Db
  sliding_window_lua now_ms key limit window_ms member db =
      let db1 = zremrangebyscore now_ms key (sub_ℕ now_ms window_ms) db in
      let count = zcard now_ms key db1 in
      let allowed = ltb count limit in
      let db2 =
        if allowed
        then pexpire now_ms key (window_ms + 1000) (zadd now_ms key now_ms member db1)
        else db1 in
      let reset_at_ms = reset_of now_ms window_ms (zrange_first now_ms key db2) in
      (
        record {
          allowed = if allowed then 1 else 0;
          limit = limit;
          remaining = pos (if allowed then limit - (count + 1) else 0);
          reset_at_ms = pos reset_at_ms;
          retry_ms = pos (reset_at_ms - now_ms);
        },
        db2,
      )

  open fl use {F, of_int, add, sub, mul, div, le, floor, ceil}

  abbrev pub tokens_or : F → Option F → F
  tokens_or capacity none = capacity
  tokens_or capacity (some t) = t

  abbrev pub last_or : ℕ → Option ℕ → ℕ
  last_or now_ms none = now_ms
  last_or now_ms (some t) = t

  -- TOKEN_BUCKET_LUA.
  unfoldable pub token_bucket_lua : ℕ → Text → ℕ → F → F → ℕ → Db → Reply × Db
  token_bucket_lua now_ms key capacity refill_per_ms requested ttl_ms db =
      let current = hmget now_ms key db in
      let tokens = tokens_or (of_int capacity) current.tokens in
      let last = last_or now_ms current.last_refill_ms in
      let later = ltb last now_ms in
      let refilled =
        if later
        then fmin fl (of_int capacity) (add tokens (mul (of_int (now_ms - last)) refill_per_ms))
        else tokens in
      let last' = if later then now_ms else last in
      let allowed = le requested refilled in
      let left = if allowed then sub refilled requested else refilled in
      let retry_ms = if allowed then pos 0 else ceil (div (sub requested refilled) refill_per_ms) in
      let refill_to_full_ms = ceil (div (sub (of_int capacity) left) refill_per_ms) in
      (
        record {
          allowed = if allowed then 1 else 0;
          limit = capacity;
          remaining = floor left;
          reset_at_ms = pos now_ms +ℤ refill_to_full_ms;
          retry_ms = retry_ms;
        },
        pexpire now_ms key ttl_ms (hmset now_ms key left last' db),
      )
