-- ===== src/Limiter/Attempts.antt =====
-- The loop over the attempts: what one attempt does, and what a row of failures leaves.
use distributed_rate_limiter.Base.{
  Option, ap, arith, false, ltb, lt→ltb, none, refl, some, subst, suc, sym, true, zero, ℕ, ◌+◌, ◌<◌,
  ◌∙◌, ◌≡◌, ◌≢◌, ◌≤◌,
}
use distributed_rate_limiter.Float.{Float}
use distributed_rate_limiter.Policy.{Policy}
use distributed_rate_limiter.Keys.{RequestIdentity, build_rate_limit_key}
use distributed_rate_limiter.Redis.{Redis}
use distributed_rate_limiter.Redis.Scripts.{Reply}
use distributed_rate_limiter.Limiter.{
  RateLimitDecision, Settings, Metrics, Fault, answered, refused, answer_lost, Attempt,
  parse_common_decision, World, script_of, eval, run_policy, recover_after_redis_failure,
  attempts_from, mark_redis_error, mark_redis_retry,
}

module _ (fl : Float) (r : Redis fl.F) (settings : Settings) (p : Policy) (i : RequestIdentity)
    (env : ℕ → Attempt) (clock_ms : ℕ) where
  -- The script's run in an attempt.
  abbrev pub script_run : ℕ → r.Db → Reply × r.Db
  script_run k db = script_of fl r p.algorithm p (build_rate_limit_key p i) (env k) db

  eval_failed :
      (f : Fault) (run : Reply × r.Db) (db : r.Db) → f ≢ answered → (eval fl r f run db).0 ≡ none
  unfolding eval
  eval_failed answered run db ne = absurd (ne refl)
  eval_failed refused run db ne = refl
  eval_failed answer_lost run db ne = refl

  pub run_policy_failed :
      (k : ℕ) (db : r.Db) → (env k).fault ≢ answered → (run_policy fl r p i (env k) db).0 ≡ none
  unfolding run_policy
  run_policy_failed k db ne =
      rw (eval_failed (env k).fault (script_run k db) db ne, run_policy) refl

  pub run_policy_answered :
      (k : ℕ) (db : r.Db)
      → (env k).fault ≡ answered
      → run_policy fl r p i (env k) db
        ≡ (some (parse_common_decision (script_run k db).0), (script_run k db).1)
  unfolding run_policy eval
  run_policy_answered k db e = rw e refl

  -- The database after `m` failed attempts from `attempt` on: the script has run in those whose
  -- answer was lost.
  unfoldable pub failed_db : ℕ → ℕ → r.Db → r.Db
  failed_db zero attempt db = db
  failed_db (suc m) attempt db = failed_db m (attempt + 1) (run_policy fl r p i (env attempt) db).1

  -- The counters after `m` failed attempts that were all tried again.
  abbrev pub retried : ℕ → Metrics → Metrics
  retried m x = record x { redis_errors = x.redis_errors + m; redis_retries = x.redis_retries + m }

  -- One round of the loop, by the outcome of its attempt.
  pub round_answered :
      (max_attempts rounds attempt : ℕ) (w : World fl r) (d : RateLimitDecision) (db' : r.Db)
      → run_policy fl r p i (env attempt) w.db ≡ (some d, db')
      → attempts_from fl r settings p i env clock_ms max_attempts (suc rounds) attempt w
        ≡ (some d, record w { db = db' })
  unfolding attempts_from
  round_answered max_attempts rounds attempt w d db' e =
      let answer = ap (λ (o : Option RateLimitDecision × r.Db). o.0) e in
      let after = ap (λ (o : Option RateLimitDecision × r.Db). o.1) e in
      rw (answer, attempts_from) (λ j. (some d, record w { db = after j }))

  -- The world after a failed attempt.
  abbrev pub failed_world : ℕ → World fl r → World fl r
  failed_world attempt w = record w {
    db = (run_policy fl r p i (env attempt) w.db).1;
    metrics = mark_redis_error w.metrics;
  }

  pub round_retried :
      (max_attempts rounds attempt : ℕ) (w : World fl r)
      → (run_policy fl r p i (env attempt) w.db).0 ≡ none
      → ltb attempt max_attempts ≡ true
      → let failed = failed_world attempt w in
        attempts_from fl r settings p i env clock_ms max_attempts (suc rounds) attempt w
        ≡ attempts_from fl r settings p i env clock_ms max_attempts rounds
            (attempt + 1)
            (record failed { metrics = mark_redis_retry failed.metrics })
  unfolding attempts_from
  round_retried max_attempts rounds attempt w e more = rw (e, more, attempts_from) refl

  pub round_recovered :
      (max_attempts rounds attempt : ℕ) (w : World fl r)
      → (run_policy fl r p i (env attempt) w.db).0 ≡ none
      → ltb attempt max_attempts ≡ false
      → let (d, end) =
          recover_after_redis_failure fl r settings p i clock_ms (failed_world attempt w) in
        attempts_from fl r settings p i env clock_ms max_attempts (suc rounds) attempt w
        ≡ (some d, end)
  unfolding attempts_from
  round_recovered max_attempts rounds attempt w e last = rw (e, last, attempts_from) refl

  retried-zero : (x : Metrics) → x ≡ retried 0 x
  retried-zero x = ground arith

  retried-suc :
      (m : ℕ) (x : Metrics) → retried m (mark_redis_retry (mark_redis_error x)) ≡ retried (suc m) x
  retried-suc m x = ground arith

  -- The outcome when attempt `k` is answered on the database `db`.
  abbrev pub answer_at : ℕ → r.Db → Metrics → World fl r → Option RateLimitDecision × World fl r
  answer_at k db x w =
      let (reply, db') = script_run k db in
      (some (parse_common_decision reply), record w { db = db'; metrics = x })

  pub attempts_from_answered :
      (max_attempts m rounds attempt : ℕ) (w : World fl r)
      → m < rounds
      → attempt + m ≤ max_attempts
      → ((k : ℕ) → k < m → (env (attempt + k)).fault ≢ answered)
      → (env (attempt + m)).fault ≡ answered
      → attempts_from fl r settings p i env clock_ms max_attempts rounds attempt w
        ≡ answer_at (attempt + m) (failed_db m attempt w.db) (retried m w.metrics) w
  unfolding failed_db
  attempts_from_answered max_attempts m zero attempt w lt le bad good = absurd (omega arith)
  attempts_from_answered max_attempts zero (suc rounds) attempt w lt le bad good =
      let here : attempt + 0 ≡ attempt = omega arith in
      let good' = subst (λ k. (env k).fault ≡ answered) here good in
      let (reply, db') = script_run attempt w.db in
      round_answered max_attempts rounds attempt w (parse_common_decision reply) db'
        (run_policy_answered attempt w.db good')
      ∙ (λ j. answer_at (sym here j) w.db (retried-zero w.metrics j) w)
  attempts_from_answered max_attempts (suc m) (suc rounds) attempt w lt le bad good =
      let here : attempt + 0 ≡ attempt = omega arith in
      let failed =
        run_policy_failed attempt w.db
          (subst (λ k. (env k).fault ≢ answered) here (bad 0 (omega arith))) in
      let next : (k : ℕ) → attempt + suc k ≡ attempt + 1 + k = λ k. omega arith in
      let w' = record (failed_world attempt w) {
        metrics = mark_redis_retry (failed_world attempt w).metrics;
      } in
      round_retried max_attempts rounds attempt w failed (lt→ltb _ _ (omega arith))
      ∙ attempts_from_answered max_attempts m rounds (attempt + 1) w' (omega arith) (omega arith)
          (λ k h. subst (λ j. (env j).fault ≢ answered) (next k) (bad (suc k) (omega arith)))
          (subst (λ j. (env j).fault ≡ answered) (next m) good)
      ∙ (λ j.
          answer_at (sym (next m) j)
            (failed_db m (attempt + 1) (run_policy fl r p i (env attempt) w.db).1)
            (retried-suc m w.metrics j) w)

  -- The counters after `m` failed attempts of which the last was not tried again.
  abbrev pub gave_up : ℕ → Metrics → Metrics
  gave_up m x = record x {
    redis_errors = x.redis_errors + suc m;
    redis_retries = x.redis_retries + m;
  }

  gave_up-suc :
      (m : ℕ) (x : Metrics) → gave_up m (mark_redis_retry (mark_redis_error x)) ≡ gave_up (suc m) x
  gave_up-suc m x = ground arith

  gave_up-zero : (x : Metrics) → mark_redis_error x ≡ gave_up 0 x
  gave_up-zero x = ground arith

  abbrev pub recovered_at : r.Db → Metrics → World fl r → Option RateLimitDecision × World fl r
  recovered_at db x w =
      let (d, end) =
        recover_after_redis_failure fl r settings p i clock_ms
          (record w { db = db; metrics = x }) in
      (some d, end)

  pub attempts_from_failed :
      (max_attempts m attempt : ℕ) (w : World fl r)
      → attempt + m ≡ max_attempts
      → ((k : ℕ) → k ≤ m → (env (attempt + k)).fault ≢ answered)
      → attempts_from fl r settings p i env clock_ms max_attempts (suc m) attempt w
        ≡ recovered_at (failed_db (suc m) attempt w.db) (gave_up m w.metrics) w
  unfolding failed_db
  attempts_from_failed max_attempts zero attempt w e bad =
      let here : attempt + 0 ≡ attempt = omega arith in
      let failed =
        run_policy_failed attempt w.db
          (subst (λ k. (env k).fault ≢ answered) here (bad 0 (omega arith))) in
      let last : ltb attempt max_attempts ≡ false = ground arith in
      round_recovered max_attempts 0 attempt w failed last
      ∙ (λ j. recovered_at (run_policy fl r p i (env attempt) w.db).1 (gave_up-zero w.metrics j) w)
  attempts_from_failed max_attempts (suc m) attempt w e bad =
      let here : attempt + 0 ≡ attempt = omega arith in
      let failed =
        run_policy_failed attempt w.db
          (subst (λ k. (env k).fault ≢ answered) here (bad 0 (omega arith))) in
      let next : (k : ℕ) → attempt + suc k ≡ attempt + 1 + k = λ k. omega arith in
      let w' = record (failed_world attempt w) {
        metrics = mark_redis_retry (failed_world attempt w).metrics;
      } in
      round_retried max_attempts (suc m) attempt w failed (lt→ltb _ _ (omega arith))
      ∙ attempts_from_failed max_attempts m (attempt + 1) w' (omega arith)
          (λ k h. subst (λ j. (env j).fault ≢ answered) (next k) (bad (suc k) (omega arith)))
      ∙ (λ j.
          recovered_at (failed_db (suc m) (attempt + 1) (run_policy fl r p i (env attempt) w.db).1)
            (gave_up-suc m w.metrics j) w)
