-- ===== src/Serving/Attempted.antt =====
-- One request of a limited route whose policy the cache gives and whose script is answered in the
-- end: what it leaves of the shared state.
use distributed_rate_limiter.Base.{
  List, Option, ap, arith, none, refl, some, subst, suc, true, zero, ℕ, ◌+◌, ◌<◌, ◌∙◌, ◌≡◌, ◌≢◌,
  ◌≤◌,
}
use distributed_rate_limiter.Float.{Float}
use distributed_rate_limiter.Policy.{Policy}
use distributed_rate_limiter.Policy.Matcher.{select_best_policy}
use distributed_rate_limiter.Keys.{RequestIdentity}
use distributed_rate_limiter.Redis.{Redis}
use distributed_rate_limiter.Limiter.{
  RateLimitDecision, Settings, answered, refused, Attempt, World, eval, run_policy, evaluate,
  parse_common_decision, max_attempts_of, count_decision,
}
use distributed_rate_limiter.Limiter.Attempts.{script_run, failed_db}
use distributed_rate_limiter.Limiter.Retries.{evaluate_answered}
use distributed_rate_limiter.PolicyService.Libraries.{Library, Documented}
use distributed_rate_limiter.PolicyService.{Store, list_policies, resolve_policy}
use distributed_rate_limiter.PolicyService.Coherent.{Coherent, list_active_policies_cached-Reads}
use distributed_rate_limiter.Serving.{
  AppSettings, Arrival, AppState, RequestState, evaluate_identity,
}

module _ (fl : Float) (r : Redis fl.F) where
  count_decision-db :
      (p : Policy) (d : RateLimitDecision) (w : World fl r) → (count_decision fl r p d w).db ≡ w.db
  count_decision-db p d w = ground arith

  module _ (settings : Settings) (p : Policy) (i : RequestIdentity) (env : ℕ → Attempt)
      (clock_ms : ℕ) where
    refused-db :
        (k : ℕ) (db : r.Db) → (env k).fault ≡ refused → (run_policy fl r p i (env k) db).1 ≡ db
    unfolding run_policy eval
    refused-db k db e = rw e refl

    failed_db-refused :
        (m attempt : ℕ) (db : r.Db)
        → ((k : ℕ) → k < m → (env (attempt + k)).fault ≡ refused)
        → failed_db fl r settings p i env clock_ms m attempt db ≡ db
    unfolding failed_db
    failed_db-refused zero attempt db bad = refl
    failed_db-refused (suc m) attempt db bad =
        let here : attempt + 0 ≡ attempt = omega arith in
        let now =
          refused-db attempt db (subst (λ k. (env k).fault ≡ refused) here (bad 0 (omega arith))) in
        let next : (k : ℕ) → attempt + suc k ≡ attempt + 1 + k = λ k. omega arith in
        ap (failed_db fl r settings p i env clock_ms m (attempt + 1)) now
        ∙ failed_db-refused m (attempt + 1) db
            (λ k lt. subst (λ j. (env j).fault ≡ refused) (next k) (bad (suc k) (omega arith)))

    -- Attempts that do not reach the server leave no trace in it.
    pub evaluate_reached :
        (m : ℕ) (w : World fl r)
        → m < max_attempts_of fl r settings
        → ((k : ℕ) → k < m → (env (1 + k)).fault ≡ refused)
        → (env (1 + m)).fault ≡ answered
        → let (reply, db') = script_run fl r settings p i env clock_ms (1 + m) w.db in
          let (outcome, w') = evaluate fl r settings (some p) i env clock_ms w in
          (outcome ≡ some (parse_common_decision reply, p)) × (w'.db ≡ db')
    evaluate_reached m w lt bad good =
        let fails : (k : ℕ) → k < m → (env (1 + k)).fault ≢ answered =
          λ k h e. let b = bad k h in cc in
        let run = script_run fl r settings p i env clock_ms (1 + m) in
        let before = failed_db fl r settings p i env clock_ms m 1 w.db in
        let same = failed_db-refused m 1 w.db bad in
        let all = evaluate_answered fl r settings p i env clock_ms m w lt fails good in
        (
          ap (λ (o : RequestState × World fl r). o.0) all
              ∙ ap (λ db. some (parse_common_decision (run db).0, p)) same,
          ap (λ (o : RequestState × World fl r). o.1.db) all
              ∙ count_decision-db p (parse_common_decision (run before).0) _
              ∙ ap (λ db. (run db).1) same,
        )

module _ (fl : Float) (r : Redis fl.F) (l : Library) (laws : Documented l) (config : AppSettings)
    (rows : List Policy) where
  -- The store's tables are `rows`, and what is cached of them agrees from a time on.
  abbrev pub Fresh : ℕ → Store l → Type 0
  Fresh low s = Coherent l laws config.cache low s × (s.rows ≡ rows)

  -- The best active policy of the table.
  abbrev pub best_for : RequestIdentity → Option Policy
  best_for i = select_best_policy (list_policies l true rows) i

  pub resolve_policy-Fresh :
      (low : ℕ) (q : Arrival) (i : RequestIdentity) (s : Store l)
      → low ≤ q.monotonic_ms
      → Fresh low s
      → let (policy, s') = resolve_policy l config.cache q.calls q.monotonic_ms i s in
        (policy ≡ best_for i) × Fresh q.monotonic_ms s'
  unfolding resolve_policy
  resolve_policy-Fresh low q i s le (c, same) =
      let (found, c', kept) =
        list_active_policies_cached-Reads l laws config.cache low q.monotonic_ms q.calls s le c in
      (
        ap (λ policies. select_best_policy policies i) (found ∙ ap (list_policies l true) same),
        (c', kept ∙ same),
      )

  -- A request that no policy limits changes nothing that the limiter keeps.
  pub evaluate_identity-unlimited :
      (low : ℕ) (q : Arrival) (i : RequestIdentity) (a : AppState fl r l config)
      → low ≤ q.monotonic_ms
      → Fresh low a.store
      → best_for i ≡ none
      → let (state, a') = evaluate_identity fl r l config q i a in
        (state ≡ none) × (a'.world ≡ a.world) × Fresh q.monotonic_ms a'.store
  unfolding evaluate_identity evaluate
  evaluate_identity-unlimited low q i a le fresh free =
      let (found, fresh') = resolve_policy-Fresh low q i a.store le fresh in
      let e = found ∙ free in
      (rw (e, evaluate_identity) refl, rw (e, evaluate_identity) refl, fresh')
