-- ===== src/Redis/SortedSets.antt =====
-- The documented behaviour of the sorted-set commands on one key, that the sliding-window script
-- relies on: what a read of the scores, of the deadline and of the members would give.
use distributed_rate_limiter.Base.{
  List, Option, [], head?, if◌then◌else◌, keep_if, length, ltb, some, ℕ, ◌+◌, ◌<◌, ◌∷◌, ◌≡◌, ◌≢◌,
  ◌≤◌, ◌⊎◌,
}
use distributed_rate_limiter.Base.Int.{ℤ, pos, ltb_ℤ}
use distributed_rate_limiter.Base.Text.{Text}
use distributed_rate_limiter.Redis.{Redis, alive}

-- A score goes behind those that do not exceed it.
unfoldable pub insert_score : ℕ → List ℕ → List ℕ
insert_score score [] = score ∷ []
insert_score score (s ∷ scores) =
    let rest = insert_score score scores in if ltb score s then score ∷ s ∷ scores else s ∷ rest

pub record SortedSets {F : Type 0} (r : Redis F) : Type 1 where
  -- the scores that a read of the key at a time gives; a missing key has none
  pub scores : ℕ → Text → r.Db → List ℕ
  -- the time at which the key is removed, where it is there
  pub deadline : Text → r.Db → Option ℕ
  -- the key holds the member
  pub Member : Text → Text → r.Db → Type 0
  pub scores_later :
      (s t : ℕ) (key : Text) (db : r.Db)
      → s ≤ t
      → scores t key db ≡ (if alive t (deadline key db) then scores s key db else [])
  pub zcard_lem : (t : ℕ) (key : Text) (db : r.Db) → r.zcard t key db ≡ length (scores t key db)
  pub zrange_first_lem :
      (t : ℕ) (key : Text) (db : r.Db) → r.zrange_first t key db ≡ head? (scores t key db)
  -- the scores up to the bound go, and a key without scores goes with them
  pub scores-zremrangebyscore :
      (t : ℕ) (key : Text) (bound : ℤ) (db : r.Db)
      → scores t key (r.zremrangebyscore t key bound db)
        ≡ keep_if (λ s. ltb_ℤ bound (pos s)) (scores t key db)
  pub deadline-zremrangebyscore :
      (t : ℕ) (key : Text) (bound : ℤ) (db : r.Db)
      → scores t key (r.zremrangebyscore t key bound db) ≢ []
      → deadline key (r.zremrangebyscore t key bound db) ≡ deadline key db
  pub Member-zremrangebyscore :
      (t : ℕ) (key : Text) (bound : ℤ) (db : r.Db) (m : Text)
      → Member m key (r.zremrangebyscore t key bound db)
      → Member m key db
  -- a member that the key does not hold is added
  pub scores-zadd :
      (t : ℕ) (key : Text) (score : ℕ) (member : Text) (db : r.Db)
      → ¬ Member member key db
      → scores t key (r.zadd t key score member db) ≡ insert_score score (scores t key db)
  pub Member-zadd :
      (t : ℕ) (key : Text) (score : ℕ) (member : Text) (db : r.Db) (m : Text)
      → Member m key (r.zadd t key score member db)
      → (m ≡ member) ⊎ Member m key db
  pub scores-pexpire :
      (t ms : ℕ) (key : Text) (db : r.Db)
      → 0 < ms
      → scores t key (r.pexpire t key ms db) ≡ scores t key db
  pub deadline-pexpire :
      (t ms : ℕ) (key : Text) (db : r.Db)
      → 0 < ms
      → scores t key db ≢ []
      → deadline key (r.pexpire t key ms db) ≡ some (t + ms)
  pub Member-pexpire :
      (t ms : ℕ) (key : Text) (db : r.Db) (m : Text)
      → Member m key (r.pexpire t key ms db)
      → Member m key db
