-- ===== src/Redis.antt =====
-- The Redis server: the commands that the program calls are an interface, since the server is no
-- code of the program. A command runs at the server's time in milliseconds. `Counters` states the
-- documented behaviour of INCR and PEXPIRE that the fixed-window script relies on, by what a read
-- of a key would give.
pub mod SortedSets
pub mod Hashes
pub mod Scripts
use distributed_rate_limiter.Base.{
  Bool, Option, if◌then◌else◌, ltb, none, some, true, ℕ, ◌+◌, ◌<◌, ◌≡◌, ◌≤◌,
}
use distributed_rate_limiter.Base.Int.{ℤ}
use distributed_rate_limiter.Base.Text.{Text, text_eq}

-- The fields of a token bucket's hash.
pub record Bucket (F : Type 0) : Type 0 where
  pub tokens : Option F
  pub last_refill_ms : Option ℕ

pub record Redis (F : Type 0) : Type 1 where
  pub Db : Type 0
  -- INCR key: the new value
  pub incr : ℕ → Text → Db → ℕ × Db
  -- PEXPIRE key ms
  pub pexpire : ℕ → Text → ℕ → Db → Db
  -- ZREMRANGEBYSCORE key 0 max
  pub zremrangebyscore : ℕ → Text → ℤ → Db → Db
  pub zcard : ℕ → Text → Db → ℕ
  -- ZADD key score member
  pub zadd : ℕ → Text → ℕ → Text → Db → Db
  -- ZRANGE key 0 0 WITHSCORES: the least score
  pub zrange_first : ℕ → Text → Db → Option ℕ
  -- HMGET key tokens last_refill_ms
  pub hmget : ℕ → Text → Db → Bucket F
  -- HMSET key tokens last_refill_ms
  pub hmset : ℕ → Text → F → ℕ → Db → Db

-- A counter and the time at which its key is removed.
pub record Counter : Type 0 where
  pub value : ℕ
  pub deadline : Option ℕ

-- Whether a key with this deadline is still there at `now_ms`.
abbrev pub alive : ℕ → Option ℕ → Bool
alive now_ms none = true
alive now_ms (some deadline) = ltb now_ms deadline

-- What a read at `now_ms` gives of what an earlier read gave, if nothing was written between.
abbrev pub after : ℕ → Option Counter → Option Counter
after now_ms none = none
after now_ms (some c) = if alive now_ms c.deadline then some c else none

-- INCR counts a missing key from 0, and keeps the deadline.
abbrev pub incremented : Option Counter → Counter
incremented none = record { value = 1; deadline = none }
incremented (some c) = record c { value = c.value + 1 }

abbrev pub with_deadline : ℕ → Option Counter → Option Counter
with_deadline deadline none = none
with_deadline deadline (some c) = some (record c { deadline = some deadline })

pub record Counters {F : Type 0} (r : Redis F) : Type 0 where
  -- what a read of the key at a time gives
  pub counter : ℕ → Text → r.Db → Option Counter
  pub counter_later :
      (s t : ℕ) (key : Text) (db : r.Db) → s ≤ t → counter t key db ≡ after t (counter s key db)
  pub incr_value :
      (t : ℕ) (key : Text) (db : r.Db)
      → (r.incr t key db).0 ≡ (incremented (counter t key db)).value
  pub counter-incr :
      (t : ℕ) (key j : Text) (db : r.Db)
      → counter t j (r.incr t key db).1
        ≡ (if text_eq key j then some (incremented (counter t key db)) else counter t j db)
  pub counter-pexpire :
      (t ms : ℕ) (key j : Text) (db : r.Db)
      → 0 < ms
      → counter t j (r.pexpire t key ms db)
        ≡ (if text_eq key j then with_deadline (t + ms) (counter t key db) else counter t j db)
