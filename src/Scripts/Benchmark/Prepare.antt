-- ===== src/Scripts/Benchmark/Prepare.antt =====
-- Preparing the policies of a scenario over the admin API.
use distributed_rate_limiter.Base.{
  Bool-cases, Elem, Elem-keep_if, List, [], ap, arith, false, inl, inr, keep_if, none, refl, sym,
  true, ℕ, ◌∙◌, ◌∷◌, ◌≡◌,
}
use distributed_rate_limiter.Base.Text.{Text, text_eq, eq_text_eq}
use distributed_rate_limiter.Policy.{Policy, PolicyCreate}
use distributed_rate_limiter.PolicyService.Libraries.{Library, Documented}
use distributed_rate_limiter.PolicyService.{
  CacheSettings, Store, create_policy, list_policies, integrity_error, data_error, commit_error,
  ServiceError,
}
use distributed_rate_limiter.PolicyService.Rows.{name_taken, numbers_fit}
use distributed_rate_limiter.Api.{on_error, admin_list, admin_create}
use distributed_rate_limiter.Scripts.Seed.{Creation}
use distributed_rate_limiter.Scripts.Benchmark.{
  id_of, put_or_post, prepare_each, prepare_benchmark_policies, benchmark_policy_payloads,
}

-- No item has the name.
id_of-none :
    (name : Text) (items : List Policy)
    → ((p : Policy) → Elem p items → text_eq p.name name ≡ false)
    → id_of name items ≡ none
unfolding id_of
id_of-none name [] h = refl
id_of-none name (p ∷ items) h =
    rw (id_of-none name items (λ q mem. h q (inr mem)), h p (inl refl)) refl

-- A row of the name with another id.
name_taken_lem :
    (id name : Text) (rows : List Policy) (q : Policy)
    → Elem q rows
    → q.name ≡ name
    → text_eq q.id id ≡ false
    → name_taken id name rows ≡ true
unfolding name_taken
name_taken_lem id name [] q mem same other = absurd mem
name_taken_lem id name (p ∷ rows) q (inl e) same other =
    rw
      (
        eq_text_eq p.name name (ap (λ x. x.name) (sym e) ∙ same),
        ap (λ x. text_eq x.id id) (sym e) ∙ other,
      )
      refl
name_taken_lem id name (p ∷ rows) q (inr mem) same other =
    ground (arith, name_taken_lem id name rows q mem same other)

module _ (l : Library) (laws : Documented l) (settings : CacheSettings)
    (creations : ℕ → Creation) where
  -- The POST of a name that is taken.
  posted :
      (n : ℕ) (payload : PolicyCreate) (s : Store l)
      → name_taken (creations n).new_id payload.name s.rows ≡ true
      → (e : ServiceError) × (put_or_post l settings creations none (creations n) payload s
          ≡ (inl (on_error e), s))
  unfolding put_or_post admin_create create_policy commit_error
  posted n payload s taken =
      let row : Policy = record {
        payload = payload;
        id = (creations n).new_id;
        version = 1;
        created_at = (creations n).at_ms;
        updated_at = (creations n).at_ms;
      } in
      elim (Bool-cases (numbers_fit row)) [
        | inl fit ↦ (integrity_error, rw (fit, taken) refl)
        | inr wide ↦ (data_error, rw wide refl)
      ]

  refused :
      (items : List Policy) (n : ℕ) (payload : PolicyCreate) (payloads : List PolicyCreate)
      (s : Store l)
      → id_of payload.name items ≡ none
      → name_taken (creations n).new_id payload.name s.rows ≡ true
      → prepare_each l settings creations items n (payload ∷ payloads) s ≡ (false, s)
  unfolding prepare_each
  refused items n payload payloads s missing taken =
      let (e, failed) = posted n payload s taken in
      let is : put_or_post l settings creations (id_of payload.name items) (creations n) payload s
          ≡ (inl (on_error e), s) =
        rw missing failed in
      rw (is, prepare_each) (ap (λ r. (false, r.1)) is)

  -- If the first policy of the scenario has the name of a row, whose id is not the one that a new
  -- row would get, and of no active one, then preparing ends with an error and changes nothing: the
  -- row is not in the list that the API gives, so that it is not updated, and the POST finds its
  -- name taken.
  pub prepare_benchmark_policies_inactive :
      (scenario : Text) (payload : PolicyCreate) (payloads : List PolicyCreate) (s : Store l)
      (row : Policy)
      → benchmark_policy_payloads scenario ≡ payload ∷ payloads
      → Elem row s.rows
      → row.name ≡ payload.name
      → text_eq row.id (creations 0).new_id ≡ false
      → ((q : Policy) → Elem q s.rows → q.active ≡ true → text_eq q.name payload.name ≡ false)
      → prepare_benchmark_policies l settings creations scenario s ≡ (false, s)
  unfolding prepare_benchmark_policies admin_list list_policies
  prepare_benchmark_policies_inactive scenario payload payloads s row first mem same fresh
        none_active =
      let missing =
        id_of-none payload.name (l.order_by (keep_if (λ p. p.active) s.rows)) (λ q listed.
          let (m, active) =
            Elem-keep_if (λ p. p.active) q s.rows ((laws.order_by-Elem q _).0 listed) in
          none_active q m active) in
      let taken = name_taken_lem (creations 0).new_id payload.name s.rows row mem same fresh in
      rw first
        (refused (l.order_by (keep_if (λ p. p.active) s.rows)) 0 payload payloads s missing taken)
