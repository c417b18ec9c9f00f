-- ===== src/PolicyService/Upsert.antt =====
-- `upsert_policy_by_name` twice with one payload, as a repeated synchronisation does.
use distributed_rate_limiter.Base.{
  Bool, Bool-cases, List, Option, [], ap, arith, false, if◌then◌else◌, inl, inr, none, refl, some,
  subst, true, ℕ, ◌++◌, ◌+◌, ◌==◌, ◌∙◌, ◌∷◌, ◌≡◌, ◌⊎◌,
}
use distributed_rate_limiter.Base.Int.{ℤ, eqb_ℤ}
use distributed_rate_limiter.Base.Text.{Text, text_eq, text_eq_refl, option_text_eq_refl}
use distributed_rate_limiter.Policy.{
  Policy, PolicyCreate, FailureMode, fail_open, fail_closed, algorithm_text,
}
use distributed_rate_limiter.PolicyService.{
  Library, CacheSettings, Calls, create_policy, upsert_policy_by_name, invalidate_policy_cache,
  Store, commit_row, committed, ServiceError, unchanged, SyncAction, with_action, updated, created,
}
use distributed_rate_limiter.PolicyService.Rows.{
  find_name, put_row, payload_eq, eq_option_ℕ, eq_bool, eq_mode,
}

some_injective : {p q : Policy} → some p ≡ some q → p ≡ q
some_injective e = cc

same_row :
    {E : Type 0} {p q : Policy} {a b : SyncAction}
    → ◌≡◌ {A = E ⊎ Policy × SyncAction} (inr (p, a)) (inr (q, b))
    → p ≡ q
same_row e = cc

eq_ℕ_refl : (n : ℕ) → (n == n) ≡ true
eq_ℕ_refl n = ground arith

eq_option_ℕ_refl : (o : Option ℕ) → eq_option_ℕ o o ≡ true
eq_option_ℕ_refl none = refl
eq_option_ℕ_refl (some n) = eq_ℕ_refl n

eq_bool_refl : (b : Bool) → eq_bool b b ≡ true
eq_bool_refl true = refl
eq_bool_refl false = refl

eq_mode_refl : (m : FailureMode) → eq_mode m m ≡ true
eq_mode_refl fail_open = refl
eq_mode_refl fail_closed = refl

eqb_ℤ_refl : (a : ℤ) → eqb_ℤ a a ≡ true
eqb_ℤ_refl a = ground arith

payload_eq_refl : (p : PolicyCreate) → payload_eq p p ≡ true
unfolding payload_eq
payload_eq_refl p =
    rw
      (
        text_eq_refl p.name,
        option_text_eq_refl p.description,
        text_eq_refl (algorithm_text p.algorithm),
        eq_ℕ_refl p.rate,
        eq_ℕ_refl p.window_seconds,
        eq_option_ℕ_refl p.burst_capacity,
        eq_bool_refl p.active,
        eqb_ℤ_refl p.priority,
        option_text_eq_refl p.route,
        option_text_eq_refl p.user_id,
        option_text_eq_refl p.ip_address,
        option_text_eq_refl p.tenant_id,
        option_text_eq_refl p.api_key,
        eq_mode_refl p.failure_mode,
      )
      refl

-- The row of a name, after the row that was found is replaced by one of the same id and name.
find_name-put_row :
    (row' : Policy) (rows : List Policy) (row : Policy)
    → find_name row'.name rows ≡ some row
    → text_eq row.id row'.id ≡ true
    → find_name row'.name (put_row row' rows) ≡ some row'
unfolding find_name put_row
find_name-put_row row' [] row e same = cc
find_name-put_row row' (p ∷ rows) row e same =
    let rest = find_name-put_row row' rows row in
    elim (Bool-cases (text_eq p.id row'.id)) [
      | inl i ↦ rw (i, text_eq_refl row'.name) refl
      | inr i ↦ elim (Bool-cases (text_eq p.name row'.name)) [
        | inl n ↦
            let here : some p ≡ some row = rw n at e in
            let clash : text_eq p.id row'.id ≡ true =
              ap (λ q. text_eq q.id row'.id) (some_injective here) ∙ same in
            absurd (cc)
        | inr n ↦ rw (i, n) (rest (rw n at e) same)
      ]
    ]

find_name-append :
    (row : Policy) (rows : List Policy)
    → find_name row.name rows ≡ none
    → find_name row.name (rows ++ row ∷ []) ≡ some row
unfolding find_name
find_name-append row [] e = rw (text_eq_refl row.name) refl
find_name-append row (p ∷ rows) e = elim (Bool-cases (text_eq p.name row.name)) [
  | inl n ↦ absurd (let here : some p ≡ none = rw n at e in cc)
  | inr n ↦ rw n (find_name-append row rows (rw n at e))
]

module _ (l : Library) (settings : CacheSettings) (payload : PolicyCreate) where
  -- A row with the name and the payload is there.
  abbrev pub Settled : Store l → Policy → Type 0
  Settled s p = (find_name payload.name s.rows ≡ some p) × (payload_eq p.payload payload ≡ true)

  pub Settled-unchanged :
      (calls : Calls) (new_id : Text) (t : ℕ) (s : Store l) (p : Policy)
      → Settled s p
      → upsert_policy_by_name l settings calls new_id t payload s ≡ (inr (p, unchanged), s)
  unfolding upsert_policy_by_name
  Settled-unchanged calls new_id t s p (e, same) = rw (upsert_policy_by_name, e, same) refl

  invalidate_rows :
      (calls : Calls) (s : Store l) → (invalidate_policy_cache l settings calls s).rows ≡ s.rows
  unfolding invalidate_policy_cache
  invalidate_rows calls s = ground arith

  -- What a result and its store say after a write.
  abbrev pub Leaves : (ServiceError ⊎ Policy × SyncAction) × Store l → Type 0
  Leaves (r, s) = (p : Policy) (a : SyncAction) → r ≡ inr (p, a) → Settled s p

  -- A commit leaves the payload under its name, if the row that it stores does.
  committed-Leaves :
      (action : SyncAction) (o : Option ServiceError) (row : Policy) (stored s : Store l)
      → Settled stored row
      → Leaves (with_action l action (committed l o row stored s))
  committed-Leaves action (some e) row stored s h p a is = cc
  committed-Leaves action none row stored s h p a is = subst (Settled stored) (same_row is) h

  create-Leaves :
      (calls : Calls) (new_id : Text) (t : ℕ) (s : Store l)
      → find_name payload.name s.rows ≡ none
      → Leaves (with_action l created (create_policy l settings calls new_id t payload s))
  unfolding create_policy
  create-Leaves calls new_id t s e =
      let row : Policy = record {
        payload = payload;
        id = new_id;
        version = 1;
        created_at = t;
        updated_at = t;
      } in
      let stored = record s { rows = s.rows ++ row ∷ [] } in
      committed-Leaves created _ row (invalidate_policy_cache l settings calls stored) s (
        ap (find_name payload.name) (invalidate_rows calls stored) ∙ find_name-append row s.rows e,
        payload_eq_refl payload,
      )

  commit-Leaves :
      (calls : Calls) (t : ℕ) (s : Store l) (row : Policy)
      → find_name payload.name s.rows ≡ some row
      → Leaves (with_action l updated (commit_row l settings calls t payload row s))
  unfolding commit_row
  commit-Leaves calls t s row e =
      let row' : Policy = record row {
        payload = payload;
        version = row.version + 1;
        updated_at = t;
      } in
      let stored = record s { rows = put_row row' s.rows } in
      committed-Leaves updated _ row' (invalidate_policy_cache l settings calls stored) s (
        ap (find_name payload.name) (invalidate_rows calls stored)
            ∙ find_name-put_row row' s.rows row e (text_eq_refl row.id),
        payload_eq_refl payload,
      )

  pub upsert-Leaves :
      (calls : Calls) (new_id : Text) (t : ℕ) (s : Store l)
      → Leaves (upsert_policy_by_name l settings calls new_id t payload s)
  unfolding upsert_policy_by_name
  upsert-Leaves calls new_id t s = found (find_name payload.name s.rows) refl
    where
      found :
          (o : Option Policy)
          → find_name payload.name s.rows ≡ o
          → Leaves (elim o as (λ x. (ServiceError ⊎ Policy × SyncAction) × Store l) [
            | none ↦ with_action l created (create_policy l settings calls new_id t payload s)
            | some row ↦
                if payload_eq row.payload payload
                then (inr (row, unchanged), s)
                else with_action l updated (commit_row l settings calls t payload row s)
          ])
      found none e = create-Leaves calls new_id t s e
      found (some row) e = elim (Bool-cases (payload_eq row.payload payload)) [
        | inl same ↦ rw same (λ p a h. subst (Settled s) (same_row h) (e, same))
        | inr other ↦ rw other (commit-Leaves calls t s row e)
      ]

  -- If a policy is synchronised without an error, then the same payload again, whichever calls of
  -- Redis failed the first time, finds it unchanged: it returns the same row, writes nothing and
  -- leaves the caches as they are.
  pub upsert_policy_by_name_again :
      (calls calls' : Calls) (new_id new_id' : Text) (t t' : ℕ) (s : Store l) (p : Policy)
      → (a : SyncAction)
      → (upsert_policy_by_name l settings calls new_id t payload s).0 ≡ inr (p, a)
      → let s' = (upsert_policy_by_name l settings calls new_id t payload s).1 in
        upsert_policy_by_name l settings calls' new_id' t' payload s' ≡ (inr (p, unchanged), s')
  upsert_policy_by_name_again calls calls' new_id new_id' t t' s p a ok =
      Settled-unchanged calls' new_id' t' _ p (upsert-Leaves calls new_id t s p a ok)

  committed_failed :
      (action : SyncAction) (o : Option ServiceError) (row : Policy) (stored s : Store l)
      (e : ServiceError)
      → (with_action l action (committed l o row stored s)).0 ≡ inl e
      → (with_action l action (committed l o row stored s)).1 ≡ s
  committed_failed action (some x) row stored s e h = refl
  committed_failed action none row stored s e h = cc

  -- An exception leaves the database and the caches as they are.
  pub upsert_policy_by_name_failed :
      (calls : Calls) (new_id : Text) (t : ℕ) (s : Store l) (e : ServiceError)
      → (upsert_policy_by_name l settings calls new_id t payload s).0 ≡ inl e
      → (upsert_policy_by_name l settings calls new_id t payload s).1 ≡ s
  unfolding upsert_policy_by_name create_policy commit_row
  upsert_policy_by_name_failed calls new_id t s e = found (find_name payload.name s.rows)
    where
      found :
          (o : Option Policy)
          → let r = elim o as (λ x. (ServiceError ⊎ Policy × SyncAction) × Store l) [
            | none ↦ with_action l created (create_policy l settings calls new_id t payload s)
            | some row ↦
                if payload_eq row.payload payload
                then (inr (row, unchanged), s)
                else with_action l updated (commit_row l settings calls t payload row s)
          ] in
            r.0 ≡ inl e → r.1 ≡ s
      found none = committed_failed created _ _ _ s e
      found (some row) = elim (Bool-cases (payload_eq row.payload payload)) [
        | inl same ↦ rw same (λ h. refl)
        | inr other ↦ rw other (committed_failed updated _ _ _ s e)
      ]
