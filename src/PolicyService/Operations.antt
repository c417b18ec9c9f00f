-- ===== src/PolicyService/Operations.antt =====
-- Operations of the policy service, one after the other, and what all of them keep.
use distributed_rate_limiter.Base.{
  Bool-cases, List, Option, [], if◌then◌else◌, inl, inr, keep_if, none, not, refl, some, subst, sym,
  ℕ, ◌∷◌, ◌≡◌, ◌⊎◌,
}
use distributed_rate_limiter.Base.Text.{Text, text_eq}
use distributed_rate_limiter.Policy.{Policy, PolicyCreate, validate}
use distributed_rate_limiter.Keys.{RequestIdentity}
use distributed_rate_limiter.PolicyService.Libraries.{Library}
use distributed_rate_limiter.PolicyService.Update.{PolicyUpdate, is_empty, merged}
use distributed_rate_limiter.PolicyService.{
  ServiceError, CacheSettings, Calls, Store, invalidate_policy_cache, create_policy, update_policy,
  update_row, commit_row, delete_policy, upsert_policy_by_name, resolve_policy,
  list_active_policies_cached, with_action, committed, policy_not_found, SyncAction, created,
  updated, unchanged,
}
use distributed_rate_limiter.PolicyService.Rows.{find_id, find_name, payload_eq}

pub data Operation : Type 0 where
  create : Text → PolicyCreate → Operation
  update : Text → PolicyUpdate → Operation
  remove : Text → Operation
  upsert : Text → PolicyCreate → Operation
  resolve : RequestIdentity → Operation

pub record Request : Type 0 where
  pub operation : Operation
  pub calls : Calls
  pub at_ms : ℕ

module _ (l : Library) (settings : CacheSettings) where
  -- The store after an operation.
  unfoldable pub perform : Operation → Calls → ℕ → Store l → Store l
  perform (create new_id payload) calls t s = (create_policy l settings calls new_id t payload s).1
  perform (update policy_id u) calls t s = (update_policy l settings calls t policy_id u s).1
  perform (remove policy_id) calls t s = (delete_policy l settings calls policy_id s).1
  perform (upsert new_id payload) calls t s =
      (upsert_policy_by_name l settings calls new_id t payload s).1
  perform (resolve i) calls t s = (resolve_policy l settings calls t i s).1

  unfoldable pub perform_all : List Request → Store l → Store l
  perform_all [] s = s
  perform_all (r ∷ requests) s = perform_all requests (perform r.operation r.calls r.at_ms s)

module _ (l : Library) (settings : CacheSettings) where
  with_action_store :
      (a : SyncAction) (r : (ServiceError ⊎ Policy) × Store l) → (with_action l a r).1 ≡ r.1
  with_action_store a (inl e, s) = refl
  with_action_store a (inr p, s) = refl

  -- What holds of a store still holds after an operation, if it holds after rows are replaced and
  -- the cache is invalidated, and after the active policies are listed.
  module _ (t : ℕ) (calls : Calls) (s : Store l) (P : Store l → Type 0) (c : P s)
      (written : (rows : List Policy)
        → P (invalidate_policy_cache l settings calls (record s { rows = rows })))
      (listed : P (list_active_policies_cached l settings calls t s).1) where
    committed_keeps :
        (o : Option ServiceError) (row : Policy) (stored : Store l)
        → P stored
        → P (committed l o row stored s).1
    committed_keeps (some e) row stored h = c
    committed_keeps none row stored h = h

    create_policy_keeps :
        (new_id : Text) (payload : PolicyCreate)
        → P (create_policy l settings calls new_id t payload s).1
    unfolding create_policy
    create_policy_keeps new_id payload = committed_keeps _ _ _ (written _)

    commit_row_keeps :
        (payload : PolicyCreate) (row : Policy) → P (commit_row l settings calls t payload row s).1
    unfolding commit_row
    commit_row_keeps payload row = committed_keeps _ _ _ (written _)

    update_row_keeps :
        (o : Option PolicyCreate) (row : Policy) → P (update_row l settings calls t o row s).1
    update_row_keeps none row = c
    update_row_keeps (some payload) row = elim (Bool-cases (validate payload)) [
      | inl e ↦ rw e (commit_row_keeps payload row)
      | inr e ↦ rw e c
    ]

    update_policy_keeps :
        (policy_id : Text) (u : PolicyUpdate) → P (update_policy l settings calls t policy_id u s).1
    unfolding update_policy
    update_policy_keeps policy_id u = found (find_id policy_id s.rows)
      where
        found :
            (o : Option Policy)
            → P
                (elim o as (λ x. (ServiceError ⊎ Policy) × Store l) [
                  | none ↦ (inl policy_not_found, s)
                  | some row ↦
                      if is_empty u
                      then (inr row, s)
                      else update_row l settings calls t (merged row.payload u) row s
                ]).1
        found none = c
        found (some row) = elim (Bool-cases (is_empty u)) [
          | inl e ↦ rw e c
          | inr e ↦ rw e (update_row_keeps (merged row.payload u) row)
        ]

    delete_policy_keeps : (policy_id : Text) → P (delete_policy l settings calls policy_id s).1
    unfolding delete_policy
    delete_policy_keeps policy_id = found (find_id policy_id s.rows)
      where
        found :
            (o : Option Policy)
            → P
                (elim o as (λ x. Option ServiceError × Store l) [
                  | none ↦ (some policy_not_found, s)
                  | some row ↦ (
                    none,
                    invalidate_policy_cache l settings calls
                        (record s { rows = keep_if (λ p. not (text_eq p.id policy_id)) s.rows }),
                  )
                ]).1
        found none = c
        found (some row) = written _

    upsert_keeps :
        (new_id : Text) (payload : PolicyCreate)
        → P (upsert_policy_by_name l settings calls new_id t payload s).1
    unfolding upsert_policy_by_name
    upsert_keeps new_id payload = found (find_name payload.name s.rows)
      where
        found :
            (o : Option Policy)
            → P
                (elim o as (λ x. (ServiceError ⊎ Policy × SyncAction) × Store l) [
                  | none ↦ with_action l created (create_policy l settings calls new_id t payload s)
                  | some row ↦
                      if payload_eq row.payload payload
                      then (inr (row, unchanged), s)
                      else with_action l updated (commit_row l settings calls t payload row s)
                ]).1
        found none =
            subst P (sym (with_action_store created _)) (create_policy_keeps new_id payload)
        found (some row) = elim (Bool-cases (payload_eq row.payload payload)) [
          | inl e ↦ rw e c
          | inr e ↦
              rw e (subst P (sym (with_action_store updated _)) (commit_row_keeps payload row))
        ]

    pub perform_keeps : (o : Operation) → P (perform l settings o calls t s)
    unfolding perform resolve_policy
    perform_keeps (create new_id payload) = create_policy_keeps new_id payload
    perform_keeps (update policy_id u) = update_policy_keeps policy_id u
    perform_keeps (remove policy_id) = delete_policy_keeps policy_id
    perform_keeps (upsert new_id payload) = upsert_keeps new_id payload
    perform_keeps (resolve i) = listed
