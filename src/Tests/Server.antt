-- ===== src/Tests/Server.antt =====
-- A small server that answers the commands: counters with their deadlines, logs of scores and
-- buckets. It meets the laws of `Counters` and of `Hashes`.
use distributed_rate_limiter.Base.{
  Bool-cases, List, Option, [], arith, head?, if◌then◌else◌, inl, inr, keep_if, length, ltb, none,
  refl, some, ℕ, ◌++◌, ◌+◌, ◌<◌, ◌∷◌, ◌≡◌, ◌≤◌,
}
use distributed_rate_limiter.Base.Int.{ℤ, pos, negsuc}
use distributed_rate_limiter.Base.Text.{Text, text_eq, text_eq_refl}
use distributed_rate_limiter.Redis.Hashes.{Hashes}
use distributed_rate_limiter.Redis.{
  Redis, Bucket, Counter, Counters, after, incremented, with_deadline,
}

pub record Tables (F : Type 0) : Type 0 where
  counters : Text → Option Counter
  logs : Text → List ℕ
  buckets : Text → Bucket F

abbrev put {ℓ} : {V : Type ℓ} → Text → V → (Text → V) → Text → V
put key v d j = if text_eq key j then v else d j

abbrev pub no_tables : {F : Type 0} → Tables F
no_tables = record {
  counters = λ key. none;
  logs = λ key. [];
  buckets = λ key. record { tokens = none; last_refill_ms = none };
}

abbrev kept : ℤ → List ℕ → List ℕ
kept (pos upto) scores = keep_if (λ s. ltb upto s) scores
kept (negsuc n) scores = scores

after-after : (s t : ℕ) (o : Option Counter) → s ≤ t → after t o ≡ after t (after s o)
after-after s t none le = refl
after-after s t (some c) le = ground arith

after-incremented :
    (t : ℕ) (o : Option Counter)
    → after t (some (incremented (after t o))) ≡ some (incremented (after t o))
after-incremented t none = refl
after-incremented t (some c) = ground arith

after-with_deadline :
    (t ms : ℕ) (o : Option Counter)
    → 0 < ms
    → after t (with_deadline (t + ms) o) ≡ with_deadline (t + ms) o
after-with_deadline t ms none lt = refl
after-with_deadline t ms (some c) lt = ground arith

module _ {F : Type 0} where
  abbrev count_at : ℕ → Text → Tables F → Option Counter
  count_at t key db = after t (db.counters key)

  abbrev pub server : Redis F
  server = record {
    Db = Tables F;
    incr = λ t key db.
        let c = incremented (count_at t key db) in
        (c.value, record db { counters = put key (some c) db.counters });
    pexpire = λ t key ms db. record db {
      counters = put key (with_deadline (t + ms) (count_at t key db)) db.counters;
    };
    zremrangebyscore =
        λ t key upto db. record db { logs = put key (kept upto (db.logs key)) db.logs };
    zcard = λ t key db. length (db.logs key);
    zadd =
        λ t key score member db. record db { logs = put key (db.logs key ++ score ∷ []) db.logs };
    zrange_first = λ t key db. head? (db.logs key);
    hmget = λ t key db. db.buckets key;
    hmset = λ t key tokens last db. record db {
      buckets = put key (record { tokens = some tokens; last_refill_ms = some last }) db.buckets;
    };
  }

  pub server-Counters : Counters server
  server-Counters = record {
    counter = count_at;
    counter_later = λ s t key db le. after-after s t (db.counters key) le;
    incr_value = λ t key db. refl;
    counter-incr = λ t key j db. elim (Bool-cases (text_eq key j)) [
      | inl e ↦ rw (e) (after-incremented t (db.counters key))
      | inr e ↦ rw (e) refl
    ];
    counter-pexpire = λ t ms key j db lt. elim (Bool-cases (text_eq key j)) [
      | inl e ↦ rw (e) (after-with_deadline t ms (count_at t key db) lt)
      | inr e ↦ rw (e) refl
    ];
  }

-- A bucket stays until it is written.
pub server-Hashes : {F : Type 0} → Hashes (server {F = F})
server-Hashes = record {
  hmget_later = λ s t key db le. inl refl;
  hmget-hmset = λ t key tokens last db. rw (text_eq_refl key) refl;
  hmget-pexpire = λ t ms key db lt. refl;
}

-- The server starts without counters.
pub no_counters :
    (F : Type 0) (t : ℕ) (key : Text)
    → (server-Counters {F = F}).counter t key (no_tables {F = F}) ≡ none
unfolding server-Counters
no_counters F t key = refl
