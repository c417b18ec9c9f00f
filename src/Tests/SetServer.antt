-- ===== src/Tests/SetServer.antt =====
-- A small server that keeps sorted sets, with the removal of a key at its deadline. It meets the
-- laws of `SortedSets`.
use distributed_rate_limiter.Base.{
  Bool, Bool-cases, Elem, List, Option, [], ap, arith, head?, if◌then◌else◌, inl, inr, keep_if,
  length, none, refl, some, subst, true, ℕ, ◌+◌, ◌∙◌, ◌∷◌, ◌≡◌, ◌≢◌, ◌≤◌,
}
use distributed_rate_limiter.Base.Int.{ltb_ℤ, pos}
use distributed_rate_limiter.Base.Text.{Text, text_eq, text_eq_refl}
use distributed_rate_limiter.Redis.{Redis, alive}
use distributed_rate_limiter.Redis.SortedSets.{SortedSets, insert_score}
use distributed_rate_limiter.Redis.Hashes.{no_bucket}

pub record Log : Type 0 where
  log_scores : List ℕ
  members : List Text
  expires : Option ℕ

abbrev empty_log : Log
empty_log = record { log_scores = []; members = []; expires = none }

-- What is there of a log at a time.
abbrev live : ℕ → Log → Log
live t g = if alive t g.expires then g else empty_log

abbrev Logs : Type 0
Logs = Text → Log

abbrev pub no_logs : Logs
no_logs key = empty_log

abbrev put : Text → Log → Logs → Logs
put key g db j = if text_eq key j then g else db j

abbrev pub set_server : Redis ℕ
set_server = record {
  Db = Logs;
  incr = λ t key db. (0, db);
  pexpire = λ t key ms db. put key (record (live t (db key)) { expires = some (t + ms) }) db;
  zremrangebyscore = λ t key bound db.
      put key
        (record (live t (db key)) {
          log_scores = keep_if (λ s. ltb_ℤ bound (pos s)) (live t (db key)).log_scores;
        })
        db;
  zcard = λ t key db. length (live t (db key)).log_scores;
  zadd = λ t key score member db.
      put key
        (record (live t (db key)) {
          log_scores = insert_score score (live t (db key)).log_scores;
          members = member ∷ (live t (db key)).members;
        })
        db;
  zrange_first = λ t key db. head? (live t (db key)).log_scores;
  hmget = λ t key db. no_bucket;
  hmset = λ t key tokens last db. db;
}

-- A key that is there later is there before.
alive_before : (s t : ℕ) (o : Option ℕ) → s ≤ t → alive t o ≡ true → alive s o ≡ true
alive_before s t none le e = refl
alive_before s t (some d) le e = ground (arith, e)

-- A log that is there stays there.
live-alive : (t : ℕ) (g : Log) → alive t (live t g).expires ≡ true
live-alive t g = elim (Bool-cases (alive t g.expires)) [
  | inl e ↦ rw (e, e) refl
  | inr e ↦ rw (e) refl
]

put_lem : (key : Text) (g : Log) (db : Logs) → put key g db key ≡ g
put_lem key g db = rw (text_eq_refl key) refl

read_put :
    (t : ℕ) (key : Text) (g : Log) (db : Logs)
    → alive t g.expires ≡ true
    → live t (put key g db key) ≡ g
read_put t key g db e = rw (put_lem key g db, e) refl

live_kept : (t : ℕ) (g : Log) → (live t g).log_scores ≢ [] → (live t g).expires ≡ g.expires
live_kept t g left = elim (Bool-cases (alive t g.expires)) [
  | inl e ↦ rw (e) refl
  | inr e ↦ absurd (left (rw (e) refl))
]

live_members : (t : ℕ) (g : Log) (m : Text) → Elem m (live t g).members → Elem m g.members
live_members t g m held = elim (Bool-cases (alive t g.expires)) [
  | inl e ↦ (rw e at held)
  | inr e ↦ absurd (rw e at held)
]

live_later :
    (s t : ℕ) (g : Log)
    → s ≤ t
    → (live t g).log_scores ≡ (if alive t g.expires then (live s g).log_scores else [])
live_later s t g le = elim (Bool-cases (alive t g.expires)) [
  | inl e ↦ rw (e, alive_before s t g.expires le e) refl
  | inr e ↦ rw (e) refl
]

keep_nonempty : (p : ℕ → Bool) (xs : List ℕ) → keep_if p xs ≢ [] → xs ≢ []
keep_nonempty p xs left e = left (ap (keep_if p) e)

pub set_server-SortedSets : SortedSets set_server
set_server-SortedSets = record {
  scores = λ t key db. (live t (db key)).log_scores;
  deadline = λ key db. (db key).expires;
  Member = λ m key db. Elem m (db key).members;
  scores_later = λ s t key db le. live_later s t (db key) le;
  zcard_lem = λ t key db. refl;
  zrange_first_lem = λ t key db. refl;
  scores-zremrangebyscore =
      λ t key bound db. ap (λ g. g.log_scores) (read_put t key _ db (live-alive t (db key)));
  deadline-zremrangebyscore = λ t key bound db left.
      ap (λ g. g.expires) (put_lem key _ db)
      ∙ live_kept t (db key) (
          keep_nonempty _ _
            (λ e. left (ap (λ g. g.log_scores) (read_put t key _ db (live-alive t (db key))) ∙ e)));
  Member-zremrangebyscore = λ t key bound db m held.
      live_members t (db key) m (subst (λ g. Elem m g.members) (put_lem key _ db) held);
  scores-zadd = λ t key score member db new.
      ap (λ g. g.log_scores) (read_put t key _ db (live-alive t (db key)));
  Member-zadd = λ t key score member db m held.
      elim (subst (λ g. Elem m g.members) (put_lem key _ db) held) [
        | inl e ↦ inl e
        | inr old ↦ inr (live_members t (db key) m old)
      ];
  scores-pexpire = λ t ms key db lt. ap (λ g. g.log_scores) (read_put t key _ db (ground arith));
  deadline-pexpire = λ t ms key db lt left. ap (λ g. g.expires) (put_lem key _ db);
  Member-pexpire = λ t ms key db m held.
      live_members t (db key) m (subst (λ g. Elem m g.members) (put_lem key _ db) held);
}

-- The server starts without members and scores.
pub no_scores : (t : ℕ) (key : Text) → set_server-SortedSets.scores t key no_logs ≡ []
unfolding set_server-SortedSets
no_scores t key = refl

pub no_members : (m key : Text) → ¬ set_server-SortedSets.Member m key no_logs
unfolding set_server-SortedSets
no_members m key held = held
