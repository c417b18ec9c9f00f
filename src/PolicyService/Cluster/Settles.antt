-- ===== src/PolicyService/Cluster/Settles.antt =====
-- After the last write, every process comes to read the database's list.
use distributed_rate_limiter.Base.{
  Bool-cases, List, Option, ap, arith, inl, inr, none, refl, some, sym, true, ℕ, ◌*◌, ◌+◌, ◌<◌, ◌∙◌,
  ◌≡◌, ◌⊎◌,
}
use distributed_rate_limiter.PolicyService.Libraries.{Library, Documented}
use distributed_rate_limiter.PolicyService.{
  CacheSettings, CacheMetrics, Calls, Store, LocalPolicySnapshot, payload_of, get_fresh,
  list_policies, policies_from, policies_without_redis, list_active_policies_cached, went_well,
  mark_error, Policy, set_snapshot,
}
use distributed_rate_limiter.PolicyService.Cluster.{
  Label, read, Cluster, Step, tick, commit, clear, delete, get, list, setex, set, get_local, Run,
  here, next, Quiet, AnyLabel, settling_ms,
}
use distributed_rate_limiter.PolicyService.Cluster.Ages.{
  Fresh, Ages, Fresh-Timely, Timely-Run, Timely-Ages, Ages-Step, limit_of-le,
}

-- The cluster as one process sees it, with the counters of that process.
abbrev pub view : (l : Library) → ℕ → CacheMetrics → Cluster l → Store l
view l process metrics c = record {
  rows = c.rows;
  cache = c.cache;
  snapshot = c.snapshots process;
  metrics = metrics;
}

-- The list of a step in which a process reads one.
abbrev pub Lists : List Policy → Label → Type 0
Lists target (read found) = found ≡ target
Lists target _ = Unit

module _ (l : Library) (laws : Documented l) (settings : CacheSettings) (delay_ms : ℕ) where
  rows_kept :
      {c c' : Cluster l} {a : Label} → Step l settings delay_ms c a c' → Quiet a → c'.rows ≡ c.rows
  rows_kept (tick t le) q = refl
  rows_kept (commit rows) q = absurd q
  rows_kept (clear process) q = refl
  rows_kept delete q = refl
  rows_kept (get call process payload found) q = refl
  rows_kept (list call process) q = refl
  rows_kept (setex call load flies listed soon) q = refl
  rows_kept (set call load flies soon) q = refl
  rows_kept (get_local process found fresh) q = refl

  module _ (target : List Policy) (t0 : ℕ) where
    Settled : Cluster l → Type 0
    Settled c = (list_policies l true c.rows ≡ target) × Ages l laws settings delay_ms target t0 c

    Settled-Run : {c c' : Cluster l} → Run l settings delay_ms Quiet c c' → Settled c → Settled c'
    unfolding Settled
    Settled-Run here h = h
    Settled-Run (next run q st) h =
        let (same, ages) = Settled-Run run h in
        (
          ap (list_policies l true) (rows_kept st q) ∙ same,
          Ages-Step l laws settings delay_ms target t0 st q same ages,
        )

    -- A snapshot that is fresh is not older than the local time to live.
    fresh_target :
        (now_ms : ℕ) (o : Option LocalPolicySnapshot) (found : List Policy)
        → ((sn : LocalPolicySnapshot)
            → o ≡ some sn
            → (sn.policies ≡ target)
              ⊎ (sn.loaded_at_monotonic + settings.local_policy_cache_ttl_seconds * 1000 < now_ms))
        → get_fresh l settings.local_policy_cache_ttl_seconds now_ms o ≡ some found
        → found ≡ target
    unfolding get_fresh
    fresh_target now_ms none found h e = absurd (cc)
    fresh_target now_ms (some sn) found h e = elim (h sn refl) [
      | inl same ↦ ground (arith, e, same)
      | inr old ↦ ground (arith, e, old)
    ]

    module _ (c : Cluster l) (late : t0 + settling_ms settings delay_ms < c.now_ms)
        (h : Settled c) where
      shot_target :
          (p : ℕ) (found : List Policy)
          → get_fresh l settings.local_policy_cache_ttl_seconds c.now_ms (c.snapshots p)
            ≡ some found
          → found ≡ target
      unfolding Settled
      shot_target p found e =
          fresh_target c.now_ms (c.snapshots p) found
            (λ sn is. elim (h.1.shot p sn is) [
              | inl same ↦ inl same
              | inr old ↦ inr (omega (arith, old, late))
            ])
            e

      cached_target :
          (payload : l.Json)
          → payload_of l (l.get c.now_ms c.cache) ≡ some payload
          → l.loads payload ≡ target
      unfolding Settled
      cached_target payload e = elim (h.1.cached c.now_ms payload (omega arith) e) [
        | inl same ↦ same
        | inr old ↦ absurd (omega (arith, old, late))
      ]

      Step-Lists : {c' : Cluster l} {a : Label} → Step l settings delay_ms c a c' → Lists target a
      unfolding Settled
      Step-Lists (tick t le) = tt
      Step-Lists (commit rows) = tt
      Step-Lists (clear process) = tt
      Step-Lists delete = tt
      Step-Lists (get call process payload found) = tt
      Step-Lists (list call process) = tt
      Step-Lists (setex call load flies listed soon) = tt
      Step-Lists (set call load flies soon) = elim (h.1.flying call load flies) [
        | inl same ↦ same
        | inr old ↦
            let most = limit_of-le l laws settings delay_ms t0 load.source in
            absurd (omega (arith, most, old, soon, late))
      ]
      Step-Lists (get_local process found fresh) = shot_target process found fresh

      from_cache :
          (calls : Calls) (s : Store l) (o : Option l.Json)
          → s.rows ≡ c.rows
          → payload_of l (l.get c.now_ms c.cache) ≡ o
          → (policies_from l o settings calls c.now_ms s).0 ≡ target
      unfolding policies_from Settled
      from_cache calls s none rows e = ap (list_policies l true) rows ∙ h.0
      from_cache calls s (some payload) rows e = cached_target payload e

      without_redis :
          (s : Store l) (p : ℕ)
          → s.rows ≡ c.rows
          → s.snapshot ≡ c.snapshots p
          → (policies_without_redis l settings c.now_ms s).0 ≡ target
      unfolding policies_without_redis Settled
      without_redis s p rows shots =
          choose (get_fresh l settings.local_policy_cache_ttl_seconds c.now_ms s.snapshot) refl
        where
          choose :
              (o : Option (List Policy))
              → get_fresh l settings.local_policy_cache_ttl_seconds c.now_ms s.snapshot ≡ o
              → (elim o as (λ x. List Policy × Store l) [
                | none ↦ (
                  list_policies l true s.rows,
                  set_snapshot l c.now_ms (list_policies l true s.rows) s,
                )
                | some local_policies ↦ (local_policies, s)
              ]).0
                ≡ target
          choose none e = ap (list_policies l true) rows ∙ h.0
          choose (some found) e =
              shot_target p found
                (ap (get_fresh l settings.local_policy_cache_ttl_seconds c.now_ms) (sym shots) ∙ e)

      reads_target :
          (p : ℕ) (metrics : CacheMetrics) (calls : Calls)
          → (list_active_policies_cached l settings calls c.now_ms (view l p metrics c)).0 ≡ target
      unfolding list_active_policies_cached
      reads_target p metrics calls = elim (Bool-cases (went_well calls.get_call)) [
        | inl e ↦ rw e (from_cache calls (view l p metrics c) _ refl refl)
        | inr e ↦ rw e (without_redis (mark_error l (view l p metrics c)) p refl refl)
      ]

  -- Let processes start on an empty cache and run in any interleaving, where calls of Redis fail,
  -- deletions of the cache's key do not take place, and messages of the refresh channel are lost.
  -- If no transaction commits for longer than twice the delay of a call and the two times to live
  -- of the cached list and of the snapshot, then every list that a step of a process reads is the
  -- database's list of active policies, as it has been since the last commit; and a call of
  -- `list_active_policies_cached` in any process gives this list, whichever of its calls of Redis
  -- fail.
  pub cluster_settles :
      (c0 c1 c2 : Cluster l)
      → Fresh l laws settings delay_ms c0
      → Run l settings delay_ms AnyLabel c0 c1
      → Run l settings delay_ms Quiet c1 c2
      → c1.now_ms + settling_ms settings delay_ms < c2.now_ms
      → let target = list_policies l true c1.rows in
        ((a : Label) (c3 : Cluster l) → Step l settings delay_ms c2 a c3 → Lists target a)
        × ((p : ℕ) (metrics : CacheMetrics) (calls : Calls)
            → (list_active_policies_cached l settings calls c2.now_ms (view l p metrics c2)).0
              ≡ target)
  unfolding Settled
  cluster_settles c0 c1 c2 start history quiet late =
      let target = list_policies l true c1.rows in
      let timely =
        Timely-Run l laws settings delay_ms history
          (Fresh-Timely l laws settings delay_ms c0 start) in
      let settled =
        Settled-Run target c1.now_ms quiet (refl, Timely-Ages l laws settings delay_ms c1 timely) in
      (
        λ a c3 st. Step-Lists target c1.now_ms c2 late settled st,
        λ p metrics calls. reads_target target c1.now_ms c2 late settled p metrics calls,
      )
