-- ===== src/Redis/Hashes.antt =====
-- The documented behaviour of HMGET and HMSET on one key, that the token-bucket script relies on.
use distributed_rate_limiter.Base.{none, some, ℕ, ◌<◌, ◌≡◌, ◌≤◌, ◌⊎◌}
use distributed_rate_limiter.Base.Text.{Text}
use distributed_rate_limiter.Redis.{Redis, Bucket}

-- What HMGET gives for a missing key.
abbrev pub no_bucket : {F : Type 0} → Bucket F
no_bucket = record { tokens = none; last_refill_ms = none }

pub record Hashes {F : Type 0} (r : Redis F) : Type 0 where
  -- unless it is written, a key keeps its fields until it is removed
  pub hmget_later :
      (s t : ℕ) (key : Text) (db : r.Db)
      → s ≤ t
      → (r.hmget t key db ≡ r.hmget s key db) ⊎ (r.hmget t key db ≡ no_bucket)
  pub hmget-hmset :
      (t : ℕ) (key : Text) (tokens : F) (last : ℕ) (db : r.Db)
      → r.hmget t key (r.hmset t key tokens last db)
        ≡ record { tokens = some tokens; last_refill_ms = some last }
  pub hmget-pexpire :
      (t ms : ℕ) (key : Text) (db : r.Db)
      → 0 < ms
      → r.hmget t key (r.pexpire t key ms db) ≡ r.hmget t key db
