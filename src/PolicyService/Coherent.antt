-- ===== src/PolicyService/Coherent.antt =====
-- The cached lists agree with the database, as long as the cache's key is deleted after each write.
use distributed_rate_limiter.Base.{
  Bool, Bool-cases, List, Option, ap, arith, false, if◌then◌else◌, inl, inr, ltb, none, refl, some,
  sym, true, ℕ, ◌*◌, ◌+◌, ◌∙◌, ◌≡◌, ◌≤◌, ◌⊎◌,
}
use distributed_rate_limiter.Policy.{Policy}
use distributed_rate_limiter.Limiter.{Fault, answered, refused, answer_lost}
use distributed_rate_limiter.PolicyService.Libraries.{Library, Documented}
use distributed_rate_limiter.PolicyService.{
  CacheSettings, Calls, went_well, has_run, LocalPolicySnapshot, Store, get_fresh, list_policies,
  invalidate_policy_cache, payload_of, policies_from, policies_without_redis,
  list_active_policies_cached, set_snapshot, mark_error, mark_policy_cache_hit,
  mark_policy_cache_miss,
}

pub fault_cases : (f : Fault) → (f ≡ answered) ⊎ (f ≡ refused) ⊎ (f ≡ answer_lost)
fault_cases answered = inl refl
fault_cases refused = inr (inl refl)
fault_cases answer_lost = inr (inr refl)

module _ (l : Library) (laws : Documented l) (settings : CacheSettings) where
  -- The active policies of the database, as they are listed.
  abbrev pub current : Store l → List Policy
  current s = list_policies l true s.rows

  -- From a time on, what the cache and the snapshot hold is what the database lists.
  pub record Coherent (now_ms : ℕ) (s : Store l) : Type 0 where
    pub cached :
        (t : ℕ) (payload : l.Json)
        → now_ms ≤ t
        → payload_of l (l.get t s.cache) ≡ some payload
        → l.loads payload ≡ current s
    pub shot :
        (snapshot : LocalPolicySnapshot)
        → s.snapshot ≡ some snapshot
        → snapshot.policies ≡ current s

  emptied-Coherent :
      (now_ms : ℕ) (s : Store l) (c : l.Cache)
      → s.cache ≡ l.delete c
      → s.snapshot ≡ none
      → Coherent now_ms s
  emptied-Coherent now_ms s c gone cleared = record {
    cached = λ t payload le e.
        let missing : payload_of l (l.get t s.cache) ≡ none =
          ap (λ x. payload_of l (l.get t x)) gone ∙ ap (payload_of l) (laws.get-delete t c) in
        absurd (cc);
    shot = λ snapshot e. absurd (cc);
  }

  pub invalidate-rows :
      (calls : Calls) (s : Store l) → (invalidate_policy_cache l settings calls s).rows ≡ s.rows
  unfolding invalidate_policy_cache
  invalidate-rows calls s = ground arith

  -- Deleting the key makes any store coherent.
  pub invalidate-Coherent :
      (now_ms : ℕ) (calls : Calls) (s : Store l)
      → has_run calls.delete_call ≡ true
      → Coherent now_ms (invalidate_policy_cache l settings calls s)
  unfolding invalidate_policy_cache
  invalidate-Coherent now_ms calls s run =
      emptied-Coherent now_ms _ s.cache (ground (arith, run)) (ground (arith, run))

  get_fresh-current :
      (ttl now_ms : ℕ) (o : Option LocalPolicySnapshot) (policies found : List Policy)
      → ((sn : LocalPolicySnapshot) → o ≡ some sn → sn.policies ≡ policies)
      → get_fresh l ttl now_ms o ≡ some found
      → found ≡ policies
  unfolding get_fresh
  get_fresh-current ttl now_ms none policies found same e = cc
  get_fresh-current ttl now_ms (some sn) policies found same e = ground (arith, e, same sn refl)

  -- What a read promises: the database's list, a store that stays coherent, and the same rows.
  abbrev pub Reads : ℕ → Store l → List Policy × Store l → Type 0
  Reads t s (found, s') = (found ≡ current s) × Coherent t s' × (s'.rows ≡ s.rows)

  -- A snapshot of the database's list keeps the store coherent.
  snapshot-Reads :
      (now_ms t : ℕ) (s : Store l) (found : List Policy)
      → now_ms ≤ t
      → Coherent now_ms s
      → found ≡ current s
      → Reads t s (found, set_snapshot l t found s)
  snapshot-Reads now_ms t s found le c same = (
    same,
    record {
      cached = λ u payload later e. c.cached u payload (omega (arith, le, later)) e;
      shot = λ snapshot e.
          let is : some (record { policies = found; loaded_at_monotonic = t }) ≡ some snapshot =
            e in
          let fields : found ≡ snapshot.policies = cc in sym fields ∙ same;
    },
    refl,
  )

  -- Without Redis, the list is the database's.
  without_redis-Reads :
      (now_ms t : ℕ) (s : Store l)
      → now_ms ≤ t
      → Coherent now_ms s
      → Reads t s (policies_without_redis l settings t s)
  unfolding policies_without_redis
  without_redis-Reads now_ms t s le c =
      choose (get_fresh l settings.local_policy_cache_ttl_seconds t s.snapshot) refl
    where
      choose :
          (o : Option (List Policy))
          → get_fresh l settings.local_policy_cache_ttl_seconds t s.snapshot ≡ o
          → Reads t s (elim o [
            | some found ↦ (found, s)
            | none ↦ (current s, set_snapshot l t (current s) s)
          ])
      choose none e = snapshot-Reads now_ms t s (current s) le c refl
      choose (some found) e = (
        get_fresh-current settings.local_policy_cache_ttl_seconds t s.snapshot (current s) found
            c.shot e,
        record {
          cached = λ u payload later e. c.cached u payload (omega (arith, le, later)) e;
          shot = c.shot;
        },
        refl,
      )

  pub payload_of-some :
      (o : Option l.Json) (payload : l.Json) → payload_of l o ≡ some payload → o ≡ some payload
  payload_of-some none payload e = cc
  payload_of-some (some found) payload e = ground (arith, e)

  held : (b : Bool) (d payload : l.Json) → (if b then some d else none) ≡ some payload → d ≡ payload
  held true d payload e = cc
  held false d payload e = cc

  -- The cache holds the list, or nothing, after it is written.
  written-Coherent :
      (t : ℕ) (s : Store l)
      → Coherent t s
      → Coherent t (record s {
        cache = l.setex t settings.policy_cache_ttl_seconds (l.dumps (current s)) s.cache;
      })
  written-Coherent t s c = record {
    cached = λ u payload later e.
        let d = l.dumps (current s) in
        let got =
          payload_of-some (l.get u (l.setex t settings.policy_cache_ttl_seconds d s.cache)) payload
            e in
        let law = laws.get-setex t u settings.policy_cache_ttl_seconds d s.cache later in
        let is : d ≡ payload =
          held (ltb u (t + settings.policy_cache_ttl_seconds * 1000)) d payload (sym law ∙ got) in
        ap l.loads (sym is) ∙ laws.loads-dumps (current s);
    shot = c.shot;
  }

  pub later-Coherent : (now_ms t : ℕ) (s : Store l) → now_ms ≤ t → Coherent now_ms s → Coherent t s
  later-Coherent now_ms t s le c = record {
    cached = λ u payload later e. c.cached u payload (omega (arith, le, later)) e;
    shot = c.shot;
  }

  -- The counters have no part in it.
  counted-Coherent :
      (t : ℕ) (s s' : Store l)
      → s'.rows ≡ s.rows
      → s'.cache ≡ s.cache
      → s'.snapshot ≡ s.snapshot
      → Coherent t s
      → Coherent t s'
  counted-Coherent t s s' rows cache shots c = record {
    cached = λ u payload later e.
        c.cached u payload later (ap (λ x. payload_of l (l.get u x)) (sym cache) ∙ e)
        ∙ ap (list_policies l true) (sym rows);
    shot = λ snapshot e. c.shot snapshot (sym shots ∙ e) ∙ ap (list_policies l true) (sym rows);
  }

  -- The store after a miss, before the snapshot is taken.
  refilled :
      (t : ℕ) (calls : Calls) (s : Store l)
      → Coherent t s
      → let written =
          if has_run calls.setex_call
          then record s {
            cache = l.setex t settings.policy_cache_ttl_seconds (l.dumps (current s)) s.cache;
          }
          else s in
        Coherent t (if went_well calls.setex_call then written else mark_error l written)
  refilled t calls s c = elim (fault_cases calls.setex_call) [
    | inl e ↦ rw e (written-Coherent t s c)
    | inr (inl e) ↦ rw e (counted-Coherent t s (mark_error l s) refl refl refl c)
    | inr (inr e) ↦ rw e (counted-Coherent t _ _ refl refl refl (written-Coherent t s c))
  ]

  refilled_rows :
      (t : ℕ) (calls : Calls) (s : Store l)
      → let written =
          if has_run calls.setex_call
          then record s {
            cache = l.setex t settings.policy_cache_ttl_seconds (l.dumps (current s)) s.cache;
          }
          else s in
        (if went_well calls.setex_call then written else mark_error l written).rows ≡ s.rows
  refilled_rows t calls s = ground arith

  policies_from-Reads :
      (now_ms t : ℕ) (calls : Calls) (s : Store l)
      → now_ms ≤ t
      → Coherent now_ms s
      → (o : Option l.Json) → payload_of l (l.get t s.cache) ≡ o
      → Reads t s (policies_from l o settings calls t s)
  unfolding policies_from
  policies_from-Reads now_ms t calls s le c (some payload) e =
      snapshot-Reads t t (mark_policy_cache_hit l s) (l.loads payload) (omega arith)
        (counted-Coherent t s _ refl refl refl (later-Coherent now_ms t s le c))
        (c.cached t payload le e)
  policies_from-Reads now_ms t calls s le c none e =
      let m = mark_policy_cache_miss l s in
      let kept = refilled_rows t calls m in
      let c' =
        refilled t calls m
          (counted-Coherent t s m refl refl refl (later-Coherent now_ms t s le c)) in
      let (_, shot, _) =
        snapshot-Reads t t _ (current s) (omega arith) c' (ap (list_policies l true) (sym kept)) in
      (refl, shot, kept)

  -- A read gives the database's list, whichever calls of Redis fail.
  pub list_active_policies_cached-Reads :
      (now_ms t : ℕ) (calls : Calls) (s : Store l)
      → now_ms ≤ t
      → Coherent now_ms s
      → Reads t s (list_active_policies_cached l settings calls t s)
  unfolding list_active_policies_cached
  list_active_policies_cached-Reads now_ms t calls s le c =
      elim (Bool-cases (went_well calls.get_call)) [
        | inl e ↦ rw e (policies_from-Reads now_ms t calls s le c _ refl)
        | inr e ↦ rw e (
            without_redis-Reads now_ms t (mark_error l s) le
              (counted-Coherent now_ms s (mark_error l s) refl refl refl c))
      ]
