-- ===== src/PolicyService/Cluster/Ages.antt =====
-- How old the lists are that a cluster still holds, after the last write.
use distributed_rate_limiter.Base.{
  Bool-cases, List, Option, ap, arith, inl, inr, ltb, ltb→lt, none, some, subst, sym, true, ℕ, ◌*◌,
  ◌+◌, ◌<◌, ◌==◌, ◌∙◌, ◌≡◌, ◌≤◌, ◌⊎◌,
}
use distributed_rate_limiter.PolicyService.Libraries.{Library, Documented}
use distributed_rate_limiter.PolicyService.{
  CacheSettings, LocalPolicySnapshot, payload_of, list_policies, Policy,
}
use distributed_rate_limiter.PolicyService.Coherent.{payload_of-some}
use distributed_rate_limiter.PolicyService.Cluster.{
  Source, redis, postgres, Load, Label, put_at, Cluster, Step, tick, commit, clear, delete, get,
  list, setex, set, get_local, Run, here, next, Quiet, AnyLabel,
}

module _ (l : Library) (laws : Documented l) (settings : CacheSettings) (delay_ms : ℕ) where
  abbrev pub ttl_ms : ℕ
  ttl_ms = settings.policy_cache_ttl_seconds * 1000

  -- What a cluster starts with: no snapshots, nothing in flight, and no list in the cache.
  pub record Fresh (c : Cluster l) : Type 0 where
    pub no_payload : (t : ℕ) → payload_of l (l.get t c.cache) ≡ none
    pub no_snapshot : (p : ℕ) → c.snapshots p ≡ none
    pub no_load : (k : ℕ) → c.loads_in_flight k ≡ none

  -- A list is `target`, or it comes from a time up to `until`.
  abbrev pub Old : List Policy → List Policy → ℕ → ℕ → Type 0
  Old target policies at until = (policies ≡ target) ⊎ (at ≤ until)

  -- When a call in flight can have got a list other than the target, if `t0` is the time of the last write.
  abbrev pub limit_of : ℕ → Source → ℕ
  limit_of t0 postgres = t0
  limit_of t0 redis = t0 + delay_ms + ttl_ms

  -- All the lists are `target`, or from a time not too long after `t0`.
  pub record Ages (target : List Policy) (t0 : ℕ) (c : Cluster l) : Type 0 where
    pub flying :
        (k : ℕ) (d : Load)
        → c.loads_in_flight k ≡ some d
        → Old target d.loaded d.loaded_at_ms (limit_of t0 d.source)
    pub cached :
        (t : ℕ) (payload : l.Json)
        → c.now_ms ≤ t
        → payload_of l (l.get t c.cache) ≡ some payload
        → Old target (l.loads payload) t (t0 + delay_ms + ttl_ms)
    pub shot :
        (p : ℕ) (sn : LocalPolicySnapshot)
        → c.snapshots p ≡ some sn
        → Old target sn.policies sn.loaded_at_monotonic (t0 + delay_ms + ttl_ms + delay_ms)

  -- Nothing comes from the future.
  pub record Timely (c : Cluster l) : Type 0 where
    pub flying_past : (k : ℕ) (d : Load) → c.loads_in_flight k ≡ some d → d.loaded_at_ms ≤ c.now_ms
    pub cached_past :
        (t : ℕ) (payload : l.Json)
        → payload_of l (l.get t c.cache) ≡ some payload
        → c.now_ms ≤ t
        → t ≤ c.now_ms + ttl_ms
    pub shot_past :
        (p : ℕ) (sn : LocalPolicySnapshot)
        → c.snapshots p ≡ some sn
        → sn.loaded_at_monotonic ≤ c.now_ms

  abbrev OnSome {ℓ κ} : {A : Type ℓ} → (A → Type κ) → Option A → Type κ
  OnSome P none = Unit
  OnSome P (some a) = P a

  OnSome_some {ℓ κ} :
      {A : Type ℓ} (P : A → Type κ) (o : Option A) (a : A) → OnSome P o → o ≡ some a → P a
  OnSome_some P none a h e = absurd (cc)
  OnSome_some P (some b) a h e = let same : b ≡ a = cc in subst P same h

  -- What holds of the new entry and of the old ones holds after an update.
  put_at-All {ℓ κ} :
      {A : Type ℓ} (P : A → Type κ) (k : ℕ) (o : Option A) (f : ℕ → Option A)
      → OnSome P o
      → ((j : ℕ) (a : A) → f j ≡ some a → P a)
      → (j : ℕ) (a : A) → put_at k o f j ≡ some a
      → P a
  put_at-All P k o f new old j a e = elim (Bool-cases (k == j)) [
    | inl same ↦ OnSome_some P o a new (rw same at e)
    | inr other ↦ old j a (rw other at e)
  ]

  -- The payload that SETEX writes is found while it lives.
  setex_found :
      (s t ttl : ℕ) (d payload : l.Json) (c : l.Cache)
      → s ≤ t
      → payload_of l (l.get t (l.setex s ttl d c)) ≡ some payload
      → (payload ≡ d) × (t < s + ttl * 1000)
  setex_found s t ttl d payload c le e =
      let is =
        sym (laws.get-setex s t ttl d c le)
        ∙ payload_of-some l laws settings (l.get t (l.setex s ttl d c)) payload e in
      elim (Bool-cases (ltb t (s + ttl * 1000))) [
        | inl alive ↦ let same : some d ≡ some payload = rw alive at is in (cc, ltb→lt t _ alive)
        | inr gone ↦ let no : none ≡ some payload = rw gone at is in absurd (cc)
      ]

  deleted :
      (c : l.Cache) (t : ℕ) (payload : l.Json)
      → ¬ (payload_of l (l.get t (l.delete c)) ≡ some payload)
  deleted c t payload e =
      let no : payload_of l (l.get t (l.delete c)) ≡ none =
        ap (payload_of l) (laws.get-delete t c) in
      absurd (cc)

  pub limit_of-le : (t0 : ℕ) (s : Source) → limit_of t0 s ≤ t0 + delay_ms + ttl_ms
  limit_of-le t0 postgres = omega arith
  limit_of-le t0 redis = omega arith

  pub Fresh-Timely : (c : Cluster l) → Fresh c → Timely c
  Fresh-Timely c f = record {
    flying_past = λ k d e. let no = f.no_load k in absurd (cc);
    cached_past = λ t payload e le. let no = f.no_payload t in absurd (cc);
    shot_past = λ p sn e. let no = f.no_snapshot p in absurd (cc);
  }

  Timely-Step :
      {c c' : Cluster l} {a : Label} → Step l settings delay_ms c a c' → Timely c → Timely c'
  Timely-Step {c = c} (tick t le) h = record {
    flying_past = λ k d e. let past = h.flying_past k d e in omega (arith, past, le);
    cached_past = λ u payload e later.
        let past = h.cached_past u payload e (omega (arith, le, later)) in omega (arith, past, le);
    shot_past = λ p sn e. let past = h.shot_past p sn e in omega (arith, past, le);
  }
  Timely-Step (commit rows) h = record {
    flying_past = h.flying_past;
    cached_past = h.cached_past;
    shot_past = h.shot_past;
  }
  Timely-Step {c = c} (clear process) h = record {
    flying_past = h.flying_past;
    cached_past = h.cached_past;
    shot_past =
        put_at-All (λ sn. sn.loaded_at_monotonic ≤ c.now_ms) process none c.snapshots tt
          h.shot_past;
  }
  Timely-Step {c = c} delete h = record {
    flying_past = h.flying_past;
    cached_past = λ t payload e le. absurd (deleted c.cache t payload e);
    shot_past = h.shot_past;
  }
  Timely-Step {c = c} (get call process payload found) h = record {
    flying_past =
        put_at-All (λ d. d.loaded_at_ms ≤ c.now_ms) call _ c.loads_in_flight (omega arith)
          h.flying_past;
    cached_past = h.cached_past;
    shot_past = h.shot_past;
  }
  Timely-Step {c = c} (list call process) h = record {
    flying_past =
        put_at-All (λ d. d.loaded_at_ms ≤ c.now_ms) call _ c.loads_in_flight (omega arith)
          h.flying_past;
    cached_past = h.cached_past;
    shot_past = h.shot_past;
  }
  Timely-Step {c = c} (setex call load flies listed soon) h = record {
    flying_past = h.flying_past;
    cached_past = λ t payload e le.
        let (_, alive) = setex_found c.now_ms t _ _ payload c.cache le e in omega (arith, alive);
    shot_past = h.shot_past;
  }
  Timely-Step {c = c} (set call load flies soon) h = record {
    flying_past =
        put_at-All (λ d. d.loaded_at_ms ≤ c.now_ms) call none c.loads_in_flight tt h.flying_past;
    cached_past = h.cached_past;
    shot_past =
        put_at-All (λ sn. sn.loaded_at_monotonic ≤ c.now_ms) load.process _ c.snapshots
          (omega arith) h.shot_past;
  }
  Timely-Step (get_local process found fresh) h = h

  pub Timely-Run : {c c' : Cluster l} → Run l settings delay_ms AnyLabel c c' → Timely c → Timely c'
  Timely-Run here h = h
  Timely-Run (next run _ st) h = Timely-Step st (Timely-Run run h)

  -- When the last write commits, all lists are from a time up to then.
  pub Timely-Ages : (c : Cluster l) → Timely c → Ages (list_policies l true c.rows) c.now_ms c
  Timely-Ages c h = record {
    flying = λ k d e. inr (early (h.flying_past k d e) d.source);
    cached = λ t payload le e. let past = h.cached_past t payload e le in inr (omega (arith, past));
    shot = λ p sn e. let past = h.shot_past p sn e in inr (omega (arith, past));
  }
    where
      early : {m : ℕ} → m ≤ c.now_ms → (s : Source) → m ≤ limit_of c.now_ms s
      early le postgres = le
      early le redis = omega (arith, le)

  module _ (target : List Policy) (t0 : ℕ) where
    abbrev OldLoad : Load → Type 0
    OldLoad d = Old target d.loaded d.loaded_at_ms (limit_of t0 d.source)

    abbrev OldShot : LocalPolicySnapshot → Type 0
    OldShot sn = Old target sn.policies sn.loaded_at_monotonic (t0 + delay_ms + ttl_ms + delay_ms)

    pub Ages-Step :
        {c c' : Cluster l} {a : Label}
        → Step l settings delay_ms c a c'
        → Quiet a
        → list_policies l true c.rows ≡ target
        → Ages target t0 c
        → Ages target t0 c'
    Ages-Step {c = c} (tick t le) q same h = record {
      flying = h.flying;
      cached = λ u payload later e. h.cached u payload (omega (arith, le, later)) e;
      shot = h.shot;
    }
    Ages-Step (commit rows) q same h = absurd q
    Ages-Step {c = c} (clear process) q same h = record {
      flying = h.flying;
      cached = h.cached;
      shot = put_at-All OldShot process none c.snapshots tt h.shot;
    }
    Ages-Step {c = c} delete q same h = record {
      flying = h.flying;
      cached = λ t payload le e. absurd (deleted c.cache t payload e);
      shot = h.shot;
    }
    Ages-Step {c = c} (get call process payload found) q same h = record {
      flying =
          put_at-All OldLoad call _ c.loads_in_flight
            (h.cached c.now_ms payload (omega arith) found) h.flying;
      cached = h.cached;
      shot = h.shot;
    }
    Ages-Step {c = c} (list call process) q same h = record {
      flying = put_at-All OldLoad call _ c.loads_in_flight (inl same) h.flying;
      cached = h.cached;
      shot = h.shot;
    }
    Ages-Step {c = c} (setex call load flies listed soon) q same h = record {
      flying = h.flying;
      cached = λ t payload le e.
          let (is, alive) = setex_found c.now_ms t _ _ payload c.cache le e in
          elim (h.flying call load flies) [
            | inl e' ↦ inl (ap l.loads is ∙ laws.loads-dumps load.loaded ∙ e')
            | inr old ↦
                let at_most : load.loaded_at_ms ≤ t0 =
                  subst (λ s. load.loaded_at_ms ≤ limit_of t0 s) listed old in
                inr (omega (arith, at_most, soon, alive))
          ];
      shot = h.shot;
    }
    Ages-Step {c = c} (set call load flies soon) q same h = record {
      flying = put_at-All OldLoad call none c.loads_in_flight tt h.flying;
      cached = h.cached;
      shot =
          put_at-All OldShot load.process _ c.snapshots
            (elim (h.flying call load flies) [
              | inl e ↦ inl e
              | inr old ↦
                  let most = limit_of-le t0 load.source in inr (omega (arith, most, soon, old))
            ])
            h.shot;
    }
    Ages-Step (get_local process found fresh) q same h = h
