-- ===== src/ConfigControl/Outcomes.antt =====
-- What each answer of the synchronisation says of the policies that are stored.
use distributed_rate_limiter.Base.{
  Bool, Option, arith, false, if◌then◌else◌, inl, inr, none, not, refl, some, true, ℕ, ◌&&◌, ◌≡◌,
  ◌⊎◌,
}
use distributed_rate_limiter.Base.Int.{ℤ}
use distributed_rate_limiter.Base.Text.{Text, codes, option_text_eq}
use distributed_rate_limiter.Policy.{Policy, PolicyCreate}
use distributed_rate_limiter.Keys.{Request, or_own}
use distributed_rate_limiter.Shell.Config.{Settings, cache_settings}
use distributed_rate_limiter.PolicyService.Libraries.{Library}
use distributed_rate_limiter.PolicyService.{
  ServiceError, Calls, Store, SyncAction, upsert_policy_by_name,
}
use distributed_rate_limiter.PolicyService.Upsert.{
  Settled, upsert-Leaves, upsert_policy_by_name_failed,
}
use distributed_rate_limiter.Api.{
  HttpException, TokenError, denied, type_error, is_ascii, require_token, require_service_token,
}
use distributed_rate_limiter.ConfigControl.{
  ConfigRequest, ConfigValue, no_object, invalid, valid, ConfigPayload, Reply, failed,
  not_an_object, body, sync_failed, service_failed, ConfigControlSyncRequest, is_configured,
  fetch_config, policy_payload, SyncAnswer, responded, http, unhandled, field_missing, token_error,
  refusal, Synced, with_payload, store_value, reply_to, sync_policy, filled, response_of, answer_of,
  sync_policy_from_config_control, sync_route,
}

-- Whether the caller carries the service token.
abbrev pub carries_token : Settings → Request → Bool
carries_token settings caller =
    option_text_eq (caller.header (codes "X-Service-Token")) (some settings.service_token)

abbrev pub plain_text : Option Text → Bool
plain_text none = true
plain_text (some s) = is_ascii s

-- Whether the tokens that are compared are ASCII.
abbrev pub plain_tokens : Settings → Request → Bool
plain_tokens settings caller =
    plain_text (caller.header (codes "X-Service-Token")) && is_ascii settings.service_token

passed :
    (provided : Option Text) (expected detail : Text)
    → require_token provided expected detail ≡ none
    → option_text_eq provided (some expected) ≡ true
unfolding require_token option_text_eq
passed none expected detail h = cc
passed (some token) expected detail h = ground arith

denied_status :
    (provided : Option Text) (expected detail : Text) (e : HttpException)
    → require_token provided expected detail ≡ some (denied e)
    → e.status_code ≡ (if option_text_eq provided (some expected) then 503 else 401)
unfolding require_token option_text_eq
denied_status none expected detail e h = cc
denied_status (some token) expected detail e h = ground arith

not_plain :
    (provided : Option Text) (expected detail : Text)
    → require_token provided expected detail ≡ some type_error
    → plain_text provided && is_ascii expected ≡ false
unfolding require_token
not_plain none expected detail h = cc
not_plain (some token) expected detail h = ground arith

fetched_body :
    (name : Text) (reply : Reply) (payload : ConfigPayload)
    → fetch_config name reply ≡ inr payload
    → reply ≡ body payload
unfolding fetch_config
fetched_body name (failed e) payload h = cc
fetched_body name not_an_object payload h = cc
fetched_body name (body answered) payload h = cc

read_value :
    (v : ConfigValue) (value : PolicyCreate) → policy_payload v ≡ inr value → v ≡ valid value
unfolding policy_payload
read_value no_object value h = cc
read_value (invalid e) value h = cc
read_value (valid p) value h = cc

module _ (l : Library) (control : ConfigRequest → Reply) (settings : Settings) where
  -- The object that ConfigControl answers holds a valid policy, whose name the database has with
  -- its payload, on the row `p`.
  pub Stored : ConfigControlSyncRequest → Store l → Policy → Type 0
  Stored request s p =
      (payload : ConfigPayload) × (value : PolicyCreate) × (reply_to l control settings request
        ≡ body payload)
      × (payload.value ≡ valid value)
      × Settled l (cache_settings settings) value s p

  pub SyncOutcome : ConfigControlSyncRequest → Store l → Synced l control settings → Type 0
  SyncOutcome request s (inl e, s') = s' ≡ s
  SyncOutcome request s (inr (p, a, payload), s') = Stored request s' p

  with_payload-Outcome :
      (request : ConfigControlSyncRequest) (calls : Calls) (new_id : Text) (t : ℕ) (s : Store l)
      (payload : ConfigPayload) (value : PolicyCreate)
      → reply_to l control settings request ≡ body payload
      → payload.value ≡ valid value
      → SyncOutcome request s (
          with_payload l control settings payload
            (upsert_policy_by_name l (cache_settings settings) calls new_id t value s))
  unfolding SyncOutcome Stored
  with_payload-Outcome request calls new_id t s payload value answered held =
      let failure =
        upsert_policy_by_name_failed l (cache_settings settings) value calls new_id t s in
      let leaves = upsert-Leaves l (cache_settings settings) value calls new_id t s in
      split (upsert_policy_by_name l (cache_settings settings) calls new_id t value s) failure
        leaves
    where
      split :
          (r : (ServiceError ⊎ Policy × SyncAction) × Store l)
          → ((e : ServiceError) → r.0 ≡ inl e → r.1 ≡ s)
          → ((p : Policy) (a : SyncAction)
              → r.0 ≡ inr (p, a)
              → Settled l (cache_settings settings) value r.1 p)
          → SyncOutcome request s (with_payload l control settings payload r)
      split (inl e, s') failure leaves = failure e refl
      split (inr (p, a), s') failure leaves = (payload, value, answered, held, leaves p a refl)

  store_value-Outcome :
      (request : ConfigControlSyncRequest) (calls : Calls) (new_id : Text) (t : ℕ) (s : Store l)
      (payload : ConfigPayload)
      → reply_to l control settings request ≡ body payload
      → SyncOutcome request s (store_value l control settings payload calls new_id t s)
  unfolding store_value SyncOutcome
  store_value-Outcome request calls new_id t s payload answered =
      decided (policy_payload payload.value) refl
    where
      decided :
          (r : Text ⊎ PolicyCreate)
          → policy_payload payload.value ≡ r
          → SyncOutcome request s (elim r as (λ x. Synced l control settings) [
            | inl message ↦ (inl (sync_failed message), s)
            | inr value ↦
                with_payload l control settings payload
                  (upsert_policy_by_name l (cache_settings settings) calls new_id t value s)
          ])
      decided (inl message) e = refl
      decided (inr value) e =
          with_payload-Outcome request calls new_id t s payload value answered
            (read_value payload.value value e)

  sync_policy-Outcome :
      (request : ConfigControlSyncRequest) (calls : Calls) (new_id : Text) (t : ℕ) (s : Store l)
      → SyncOutcome request s (sync_policy l control settings request calls new_id t s)
  unfolding sync_policy SyncOutcome
  sync_policy-Outcome request calls new_id t s =
      decided (is_configured settings) (fetch_config name (reply_to l control settings request))
        refl
    where
      name : Text
      name = or_own request.config_name settings.config_control_policy_name

      decided :
          (b : Bool) (r : Text ⊎ ConfigPayload)
          → fetch_config name (reply_to l control settings request) ≡ r
          → SyncOutcome request s (
              if not b
              then (inl (sync_failed (codes "ConfigControl integration is not configured.")), s)
              else elim r as (λ x. Synced l control settings) [
                | inl message ↦ (inl (sync_failed message), s)
                | inr payload ↦ store_value l control settings payload calls new_id t s
              ])
      decided false r e = refl
      decided true (inl message) e = refl
      decided true (inr payload) e =
          store_value-Outcome request calls new_id t s payload
            (fetched_body name (reply_to l control settings request) payload e)

  -- Of what the caller gets and the state behind it: an HTTPException is 401 without the service
  -- token and 503 with it, and nothing has changed; an exception of the token check, which a token
  -- that is not ASCII causes, and one of the policy service have changed nothing either; behind any
  -- other answer, the policy is stored.
  pub SyncAnswered : Request → ConfigControlSyncRequest → Store l → SyncAnswer × Store l → Type 0
  SyncAnswered caller request s (http e, s') =
      (e.status_code ≡ (if carries_token settings caller then 503 else 401)) × (s' ≡ s)
  SyncAnswered caller request s (unhandled e, s') =
      (carries_token settings caller ≡ true) × (s' ≡ s)
  SyncAnswered caller request s (token_error, s') =
      (plain_tokens settings caller ≡ false) × (s' ≡ s)
  SyncAnswered caller request s (field_missing, s') =
      (carries_token settings caller ≡ true) × (p : Policy) × Stored request s' p
  SyncAnswered caller request s (responded response, s') =
      (carries_token settings caller ≡ true) × Stored request s' response.policy

  response_of-Answered :
      (caller : Request) (request : ConfigControlSyncRequest) (s s' : Store l) (p : Policy)
      (a : SyncAction) (payload : ConfigPayload)
      → carries_token settings caller ≡ true
      → Stored request s' p
      → SyncAnswered caller request s (response_of l control settings p a payload, s')
  unfolding SyncAnswered response_of
  response_of-Answered caller request s s' p a payload token stored =
      by_fields payload.name payload.environment payload.target payload.version
    where
      by_fields :
          (name environment target : Option Text) (version : Option ℤ)
          → SyncAnswered caller request s (filled p a name environment target version, s')
      by_fields none environment target version = (token, p, stored)
      by_fields (some n) none target version = (token, p, stored)
      by_fields (some n) (some e) none version = (token, p, stored)
      by_fields (some n) (some e) (some t) none = (token, p, stored)
      by_fields (some n) (some e) (some t) (some v) = (token, stored)

  answer_of-Answered :
      (caller : Request) (request : ConfigControlSyncRequest) (s : Store l)
      (r : Synced l control settings)
      → carries_token settings caller ≡ true
      → SyncOutcome request s r
      → SyncAnswered caller request s (answer_of l control settings r.0, r.1)
  unfolding SyncAnswered SyncOutcome
  answer_of-Answered caller request s (inl (sync_failed message), s') token outcome =
      (rw token refl, outcome)
  answer_of-Answered caller request s (inl (service_failed e), s') token outcome = (token, outcome)
  answer_of-Answered caller request s (inr (p, a, payload), s') token outcome =
      response_of-Answered caller request s s' p a payload token outcome

  -- Whatever ConfigControl answers and whichever calls of Redis fail: an HTTPException is 401 where
  -- the caller does not carry the service token and 503 where it does, and nothing has changed.
  -- Nothing has changed either where the token check raises, which happens only where one of the
  -- compared tokens is not ASCII, or the policy service, whose commit refuses a name that is taken
  -- and numbers beyond 32 bits. Behind a response, whose caller carries the token, the policy that
  -- ConfigControl holds is stored on the row that the response shows. It is stored as well where
  -- the only failure is a missing field of the response, which the caller learns as an exception.
  pub sync_route-Answered :
      (caller : Request) (request : ConfigControlSyncRequest) (calls : Calls) (new_id : Text)
      (t : ℕ) (s : Store l)
      → SyncAnswered caller request s
          (sync_route l control settings caller request calls new_id t s)
  unfolding sync_route sync_policy_from_config_control require_service_token require_token
      SyncAnswered option_text_eq
  sync_route-Answered caller request calls new_id t s =
      checked
        (require_token (caller.header (codes "X-Service-Token")) settings.service_token
          (codes "Missing or invalid service token."))
        refl
    where
      checked :
          (o : Option TokenError)
          → require_token
              (caller.header (codes "X-Service-Token"))
              settings.service_token
              (codes "Missing or invalid service token.")
            ≡ o
          → SyncAnswered caller request s (elim o as (λ x. SyncAnswer × Store l) [
            | some e ↦ (refusal e, s)
            | none ↦ sync_policy_from_config_control l control settings request calls new_id t s
          ])
      checked none e =
          answer_of-Answered caller request s
            (sync_policy l control settings request calls new_id t s)
            (passed (caller.header (codes "X-Service-Token")) settings.service_token _ e)
            (sync_policy-Outcome request calls new_id t s)
      checked (some (denied exception)) e = (
        denied_status (caller.header (codes "X-Service-Token")) settings.service_token _ exception
            e,
        refl,
      )
      checked (some type_error) e =
          (not_plain (caller.header (codes "X-Service-Token")) settings.service_token _ e, refl)
