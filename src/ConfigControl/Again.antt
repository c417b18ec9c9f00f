-- ===== src/ConfigControl/Again.antt =====
-- A synchronisation that is asked for again, while ConfigControl answers the same.
use distributed_rate_limiter.Base.{
  Bool-cases, Option, Option-cases, Sum-cases, ap, inl, inr, none, refl, some, subst, sym, true, ℕ,
  ◌∙◌, ◌≡◌, ◌⊎◌,
}
use distributed_rate_limiter.Base.Int.{ℤ}
use distributed_rate_limiter.Base.Text.{Text}
use distributed_rate_limiter.Policy.{Policy, PolicyCreate}
use distributed_rate_limiter.Keys.{Request, or_own}
use distributed_rate_limiter.Shell.Config.{Settings, cache_settings}
use distributed_rate_limiter.PolicyService.Libraries.{Library}
use distributed_rate_limiter.PolicyService.{
  ServiceError, Calls, Store, SyncAction, unchanged, upsert_policy_by_name,
}
use distributed_rate_limiter.PolicyService.Upsert.{upsert_policy_by_name_again}
use distributed_rate_limiter.Api.{require_service_token}
use distributed_rate_limiter.Api.{TokenError, denied, type_error}
use distributed_rate_limiter.ConfigControl.{
  refusal, ConfigRequest, ConfigPayload, Reply, SyncError, sync_failed, service_failed,
  ConfigControlSyncRequest, ConfigControlSyncResponse, is_configured, fetch_config, policy_payload,
  SyncAnswer, responded, Synced, with_payload, store_value, reply_to, sync_policy, filled,
  response_of, answer_of, sync_policy_from_config_control, sync_route,
}

refusal-no_response :
    (x : TokenError) (response : ConfigControlSyncResponse) → refusal x ≡ responded response → ⊥
refusal-no_response (denied e) response h = cc
refusal-no_response type_error response h = cc

module _ (l : Library) (control : ConfigRequest → Reply) (settings : Settings) where
  -- ConfigControl is configured and answers the object `payload`, which holds the policy `value`.
  Holds : ConfigControlSyncRequest → ConfigPayload → PolicyCreate → Type 0
  Holds request payload value =
      let name = or_own request.config_name settings.config_control_policy_name in
      (is_configured settings ≡ true)
      × (fetch_config name (reply_to l control settings request) ≡ inr payload)
      × (policy_payload payload.value ≡ inr value)

  Holds-sync_policy :
      (request : ConfigControlSyncRequest) (payload : ConfigPayload) (value : PolicyCreate)
      → Holds request payload value
      → (calls : Calls) (new_id : Text) (t : ℕ) (s : Store l)
      → sync_policy l control settings request calls new_id t s
        ≡ with_payload l control settings payload
            (upsert_policy_by_name l (cache_settings settings) calls new_id t value s)
  unfolding Holds sync_policy store_value
  Holds-sync_policy request payload value (on, fetched, held) calls new_id t s =
      rw (on, fetched, store_value, held) refl

  sync_policy-Holds :
      (request : ConfigControlSyncRequest) (calls : Calls) (new_id : Text) (t : ℕ) (s : Store l)
      (done : Policy × SyncAction × ConfigPayload)
      → (sync_policy l control settings request calls new_id t s).0 ≡ inr done
      → (payload : ConfigPayload) × (value : PolicyCreate) × Holds request payload value
  unfolding Holds sync_policy store_value
  sync_policy-Holds request calls new_id t s done ok =
      let name = or_own request.config_name settings.config_control_policy_name in
      elim (Bool-cases (is_configured settings)) [
        | inr off ↦ absurd (let h = rw off at ok in cc)
        | inl on ↦ elim (Sum-cases (fetch_config name (reply_to l control settings request))) [
          | inl (message, e) ↦ absurd (let h = rw (on, e) at ok in cc)
          | inr (payload, e) ↦ elim (Sum-cases (policy_payload payload.value)) [
            | inl (message, v) ↦ absurd (let h = rw (on, e, store_value, v) at ok in cc)
            | inr (value, v) ↦ (payload, value, (on, e, v))
          ]
        ]
      ]

  with_payload_again :
      (payload : ConfigPayload) (value : PolicyCreate) (calls' : Calls) (new_id' : Text) (t' : ℕ)
      (r : (ServiceError ⊎ Policy × SyncAction) × Store l) (p : Policy) (a : SyncAction)
      (shown : ConfigPayload)
      → ((q : Policy) (b : SyncAction)
          → r.0 ≡ inr (q, b)
          → upsert_policy_by_name l (cache_settings settings) calls' new_id' t' value r.1
            ≡ (inr (q, unchanged), r.1))
      → (with_payload l control settings payload r).0 ≡ inr (p, a, shown)
      → with_payload l control settings payload (
          upsert_policy_by_name l
            (cache_settings settings)
            calls'
            new_id'
            t'
            value
            (with_payload l control settings payload r).1)
        ≡ (inr (p, unchanged, shown), (with_payload l control settings payload r).1)
  with_payload_again payload value calls' new_id' t' (inl e, s') p a shown again ok = absurd (cc)
  with_payload_again payload value calls' new_id' t' (inr (q, b), s') p a shown again ok =
      rw (again q b refl) cc

  -- Once a synchronisation has succeeded, the same one finds the policy unchanged.
  pub sync_policy_again :
      (request : ConfigControlSyncRequest) (calls calls' : Calls) (new_id new_id' : Text) (t t' : ℕ)
      (s : Store l) (p : Policy) (a : SyncAction) (payload : ConfigPayload)
      → (sync_policy l control settings request calls new_id t s).0 ≡ inr (p, a, payload)
      → let s' = (sync_policy l control settings request calls new_id t s).1 in
        sync_policy l control settings request calls' new_id' t' s'
        ≡ (inr (p, unchanged, payload), s')
  sync_policy_again request calls calls' new_id new_id' t t' s p a payload ok =
      let (held, value, holds) = sync_policy-Holds request calls new_id t s (p, a, payload) ok in
      let first = Holds-sync_policy request held value holds calls new_id t s in
      let s' = (sync_policy l control settings request calls new_id t s).1 in
      Holds-sync_policy request held value holds calls' new_id' t' s'
      ∙ subst
          (λ (r : Synced l control settings).
            with_payload l control settings held
              (upsert_policy_by_name l (cache_settings settings) calls' new_id' t' value r.1)
            ≡ (inr (p, unchanged, payload), r.1))
          (sym first)
          (with_payload_again held value calls' new_id' t'
            (upsert_policy_by_name l (cache_settings settings) calls new_id t value s) p a payload
            (λ q b done.
              upsert_policy_by_name_again l (cache_settings settings) value calls calls' new_id
                new_id' t t' s q b done)
            (subst (λ (r : Synced l control settings). r.0 ≡ inr (p, a, payload)) first ok))

  answer_of-unchanged :
      (r : SyncError ⊎ Policy × SyncAction × ConfigPayload) (response : ConfigControlSyncResponse)
      → answer_of l control settings r ≡ responded response
      → (p : Policy) × (a : SyncAction) × (payload : ConfigPayload) × (r ≡ inr (p, a, payload))
        × (answer_of l control settings (inr (p, unchanged, payload))
            ≡ responded (record response { action = unchanged }))
  unfolding response_of
  answer_of-unchanged (inl (sync_failed message)) response e = absurd (cc)
  answer_of-unchanged (inl (service_failed x)) response e = absurd (cc)
  answer_of-unchanged (inr (p, a, payload)) response e = (
    p,
    a,
    payload,
    refl,
    fields payload.name payload.environment payload.target payload.version e,
  )
    where
      fields :
          (name environment target : Option Text) (version : Option ℤ)
          → filled p a name environment target version ≡ responded response
          → filled p unchanged name environment target version
            ≡ responded (record response { action = unchanged })
      fields none environment target version e = absurd (cc)
      fields (some n) none target version e = absurd (cc)
      fields (some n) (some v) none version e = absurd (cc)
      fields (some n) (some v) (some w) none e = absurd (cc)
      fields (some n) (some v) (some w) (some x) e =
          ap
            (λ answer. elim answer [
              | responded r ↦ responded (record r { action = unchanged })
              | other ↦ other
            ])
            e

  handler_again :
      (request : ConfigControlSyncRequest) (calls calls' : Calls) (new_id new_id' : Text) (t t' : ℕ)
      (s : Store l) (response : ConfigControlSyncResponse)
      → (sync_policy_from_config_control l control settings request calls new_id t s).0
        ≡ responded response
      → let s' = (sync_policy_from_config_control l control settings request calls new_id t s).1 in
        sync_policy_from_config_control l control settings request calls' new_id' t' s'
        ≡ (responded (record response { action = unchanged }), s')
  unfolding sync_policy_from_config_control
  handler_again request calls calls' new_id new_id' t t' s response ok =
      let (p, a, payload, e, answer) =
        answer_of-unchanged (sync_policy l control settings request calls new_id t s).0 response
          ok in
      let again = sync_policy_again request calls calls' new_id new_id' t t' s p a payload e in
      ap (λ (r : Synced l control settings). (answer_of l control settings r.0, r.1)) again
      ∙ ap (λ r. (r, (sync_policy l control settings request calls new_id t s).1)) answer

  admitted :
      (caller : Request)
      → require_service_token settings caller ≡ none
      → (request : ConfigControlSyncRequest) (calls : Calls) (new_id : Text) (t : ℕ) (s : Store l)
      → sync_route l control settings caller request calls new_id t s
        ≡ sync_policy_from_config_control l control settings request calls new_id t s
  unfolding sync_route
  admitted caller passed request calls new_id t s = rw (sync_route, passed) refl

  -- If the route has answered with a response, then the same request again, while ConfigControl
  -- answers the same, gets the same response but for its action, which is `unchanged`, and the
  -- database and the caches stay as they are, whichever calls of Redis failed the first time.
  pub sync_route_again :
      (caller : Request) (request : ConfigControlSyncRequest) (calls calls' : Calls)
      (new_id new_id' : Text) (t t' : ℕ) (s : Store l) (response : ConfigControlSyncResponse)
      → (sync_route l control settings caller request calls new_id t s).0 ≡ responded response
      → let s' = (sync_route l control settings caller request calls new_id t s).1 in
        sync_route l control settings caller request calls' new_id' t' s'
        ≡ (responded (record response { action = unchanged }), s')
  unfolding sync_route
  sync_route_again caller request calls calls' new_id new_id' t t' s response ok =
      elim (Option-cases (require_service_token settings caller)) [
        | inl passed ↦
            let first = admitted caller passed request calls new_id t s in
            let s' = (sync_route l control settings caller request calls new_id t s).1 in
            admitted caller passed request calls' new_id' t' s'
            ∙ subst
                (λ (r : SyncAnswer × Store l).
                  sync_policy_from_config_control l control settings request calls' new_id' t' r.1
                  ≡ (responded (record response { action = unchanged }), r.1))
                (sym first)
                (handler_again request calls calls' new_id new_id' t t' s response
                  (subst (λ (r : SyncAnswer × Store l). r.0 ≡ responded response) first ok))
        | inr (x, shut) ↦
            absurd (refusal-no_response x response (let h = rw (sync_route, shut) at ok in h))
      ]
