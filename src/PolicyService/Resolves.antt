-- ===== src/PolicyService/Resolves.antt =====
-- Requests to the policy service in turn, and what a request is matched against after them.
use distributed_rate_limiter.Base.{
  &&_split, Elem, Elem-keep_if, Elem-keep_if_of, List, Option, [], arith, keep_if, none, some,
  subst, sym, true, ℕ, ◌∷◌, ◌≡◌, ◌≤◌,
}
use distributed_rate_limiter.Policy.{Policy}
use distributed_rate_limiter.Policy.Matcher.{select_best_policy, is_candidate, policy_matches}
use distributed_rate_limiter.Policy.Matcher.Best.{Selected, select_best_policy-Selected}
use distributed_rate_limiter.Keys.{RequestIdentity}
use distributed_rate_limiter.PolicyService.Libraries.{Library, Documented}
use distributed_rate_limiter.PolicyService.{
  CacheSettings, Calls, has_run, Store, list_policies, resolve_policy,
}
use distributed_rate_limiter.PolicyService.Coherent.{
  current, Coherent, invalidate-Coherent, later-Coherent, list_active_policies_cached-Reads,
}
use distributed_rate_limiter.PolicyService.Operations.{
  Operation, Request, perform, perform_all, perform_keeps,
}

-- The requests come at times that do not decrease, up to `end`, and each deletion of the key runs.
abbrev pub Reaches : ℕ → List Request → ℕ → Type 0
Reaches low [] end = low ≤ end
Reaches low (r ∷ requests) end =
    (low ≤ r.at_ms) × (has_run r.calls.delete_call ≡ true) × Reaches r.at_ms requests end

module _ (l : Library) (laws : Documented l) (settings : CacheSettings) where
  perform-Coherent :
      (t : ℕ) (calls : Calls) (s : Store l)
      → has_run calls.delete_call ≡ true
      → Coherent l laws settings t s
      → (o : Operation) → Coherent l laws settings t (perform l settings o calls t s)
  perform-Coherent t calls s run c =
      perform_keeps l settings t calls s (Coherent l laws settings t) c
        (λ rows. invalidate-Coherent l laws settings t calls _ run)
        (list_active_policies_cached-Reads l laws settings t t calls s (omega arith) c).1

  perform_all-Coherent :
      (low end : ℕ) (requests : List Request) (s : Store l)
      → Reaches low requests end
      → Coherent l laws settings low s
      → Coherent l laws settings end (perform_all l settings requests s)
  unfolding perform_all
  perform_all-Coherent low end [] s le c = later-Coherent l laws settings low end s le c
  perform_all-Coherent low end (r ∷ requests) s (le, run, reaches) c =
      perform_all-Coherent r.at_ms end requests _ reaches (
        perform-Coherent r.at_ms r.calls s run (later-Coherent l laws settings low r.at_ms s le c)
          r.operation)

  listed :
      (rows : List Policy) (i : RequestIdentity) (q : Policy)
      → Elem q rows
      → is_candidate i q ≡ true
      → Elem q (list_policies l true rows)
  unfolding list_policies is_candidate
  listed rows i q mem ok =
      let (active, _) = &&_split q.active (policy_matches q i) ok in
      (laws.order_by-Elem q (keep_if (λ p. p.active) rows)).1
        (Elem-keep_if_of (λ p. p.active) q rows mem active)

  in_rows : (rows : List Policy) (q : Policy) → Elem q (list_policies l true rows) → Elem q rows
  unfolding list_policies
  in_rows rows q mem =
      (Elem-keep_if (λ p. p.active) q rows
        ((laws.order_by-Elem q (keep_if (λ p. p.active) rows)).0 mem)).0

  -- The best policy among the active ones is the best policy among all rows.
  Selected-rows :
      (rows : List Policy) (i : RequestIdentity) (o : Option Policy)
      → Selected (list_policies l true rows) i o
      → Selected rows i o
  Selected-rows rows i none h = λ q mem ok. h q (listed rows i q mem ok) ok
  Selected-rows rows i (some best) (mem, ok, most) =
      (in_rows rows best mem, ok, λ q m k. most q (listed rows i q m k) k)

  -- Let any operations be performed from a store on in which the cache and the snapshot agree with
  -- the database, such as an empty one, at times that do not decrease, where each deletion of the
  -- cache's key runs on the server. Then whichever other calls of Redis fail, a request is matched
  -- against the rows of the database: the policy it resolves to is an active, matching row that no
  -- active, matching row is above, and there is none only if no active row matches.
  pub resolve_policy-Selected :
      (low end : ℕ) (requests : List Request) (s : Store l) (calls : Calls) (i : RequestIdentity)
      → Reaches low requests end
      → Coherent l laws settings low s
      → let s' = perform_all l settings requests s in
        Selected s'.rows i (resolve_policy l settings calls end i s').0
  unfolding resolve_policy
  resolve_policy-Selected low end requests s calls i reaches c =
      let s' = perform_all l settings requests s in
      let c' = perform_all-Coherent low end requests s reaches c in
      let (same, _, _) =
        list_active_policies_cached-Reads l laws settings end end calls s' (omega arith) c' in
      Selected-rows s'.rows i _ (
        subst (λ policies. Selected (current l laws settings s') i (select_best_policy policies i))
          (sym same) (select_best_policy-Selected (current l laws settings s') i))
