-- ===== src/Api.antt =====
-- The API: app/core/dependencies.py, app/core/security.py, app/api/internal.py and app/api/admin.py.
-- A handler gives what it answers, or the HTTPException.
pub mod Limited
pub mod Tokens
pub mod NotFound
use distributed_rate_limiter.Base.{
  &&_split, ==_iff, All, All-append, All_Elem, Ascending, Bool, Bool-cases, Elem, Elem-keep_if,
  Elem-keep_if_of, List, Option, Option-cases, Ordering, Sum-cases, [], ap, append-nil,
  append_assoc, arith, ceil_seconds, compare, count_if, false, get_elem?, head?, if◌then◌else◌, inl,
  inr, keep_if, leb, leb→le, length, length-append, le→leb, ltb, ltb→lt, lt→ltb, map, max, min,
  none, not, not_leb→lt, not_ltb→le, refl, some, subst, suc, sym, true, zero, ℕ, ◌%◌, ◌&&◌, ◌*◌,
  ◌++◌, ◌+◌, ◌-◌, ◌/◌, ◌<◌, ◌==◌, ◌^◌, ◌||◌, ◌↔◌, ◌∙◌, ◌∷◌, ◌≡◌, ◌≢◌, ◌≤◌, ◌⊎◌,
}
use distributed_rate_limiter.Base.Int.{ℤ, pos}
use distributed_rate_limiter.Base.Text.{Text, codes, text_eq}
use distributed_rate_limiter.Policy.{Policy, PolicyCreate}
use distributed_rate_limiter.Limiter.{RateLimitDecision, headers}
use distributed_rate_limiter.Keys.{Request}
use distributed_rate_limiter.Shell.Config.{Settings}
use distributed_rate_limiter.PolicyService.Libraries.{Library}
use distributed_rate_limiter.PolicyService.Update.{PolicyUpdate}
use distributed_rate_limiter.PolicyService.{
  ServiceError, policy_not_found, CacheSettings, Calls, Store, SyncAction, list_policies,
  create_policy, get_policy, update_policy, delete_policy, upsert_policy_by_name,
}

pub record HttpException : Type 0 where
  pub status_code : ℕ
  pub detail : Text
  pub headers : List (Text × Text)

-- What `enforce_rate_limit` leaves: the response's headers, and whether it raised.
pub record Enforced : Type 0 where
  pub response_headers : List (Text × Text)
  pub raised : Option HttpException

abbrev pub detail_of : RateLimitDecision → Text
detail_of decision =
    if decision.degraded && not decision.local_fallback
    then codes "Rate limiter unavailable in fail-closed mode."
    else codes "Rate limit exceeded."

-- `enforce_rate_limit`, for what `evaluate` returned.
unfoldable pub enforce_rate_limit : Option (RateLimitDecision × Policy) → Enforced
enforce_rate_limit none = record { response_headers = []; raised = none }
enforce_rate_limit (some (decision, policy)) = record {
  response_headers = headers decision;
  raised =
      if not decision.allowed
      then some
          (record { status_code = 429; detail = detail_of decision; headers = headers decision })
      else none;
}

pub record RateLimitEvaluationResponse : Type 0 where
  pub allowed : Bool
  pub applied : Bool
  pub degraded : Bool
  pub local_fallback : Bool
  pub retry_after_seconds : ℤ
  pub headers : List (Text × Text)
  pub policy : Option Policy

-- `evaluate_rate_limit`, for what `evaluate` returned.
unfoldable pub evaluate_rate_limit :
    Option (RateLimitDecision × Policy) → RateLimitEvaluationResponse
evaluate_rate_limit none = record {
  allowed = true;
  applied = false;
  degraded = false;
  local_fallback = false;
  retry_after_seconds = pos 0;
  headers = [];
  policy = none;
}
evaluate_rate_limit (some (decision, found)) = record {
  allowed = decision.allowed;
  applied = true;
  degraded = decision.degraded;
  local_fallback = decision.local_fallback;
  retry_after_seconds = decision.retry_after_seconds;
  headers = headers decision;
  policy = some found;
}

-- `text.isascii()`
unfoldable pub is_ascii : Text → Bool
is_ascii [] = true
is_ascii (c ∷ s) = ltb c 128 && is_ascii s

-- What `_require_token` raises: the HTTPException, or the TypeError of `compare_digest`, which
-- takes only ASCII texts and which nothing handles.
pub data TokenError : Type 0 where
  denied : HttpException → TokenError
  type_error : TokenError

-- `_require_token`: none where it raises nothing.
unfoldable pub require_token : Option Text → Text → Text → Option TokenError
require_token none expected detail =
    some (denied (record { status_code = 401; detail = detail; headers = [] }))
require_token (some provided) expected detail =
    if not (is_ascii provided && is_ascii expected)
    then some type_error
    else if not (text_eq provided expected)
    then some (denied (record { status_code = 401; detail = detail; headers = [] }))
    else none

-- `require_admin_token`
unfoldable pub require_admin_token : Settings → Request → Option TokenError
require_admin_token settings request =
    require_token (request.header (codes "X-Admin-Token")) settings.admin_token
      (codes "Missing or invalid admin token.")

-- `require_service_token`
unfoldable pub require_service_token : Settings → Request → Option TokenError
require_service_token settings request =
    require_token (request.header (codes "X-Service-Token")) settings.service_token
      (codes "Missing or invalid service token.")

-- What a handler gives for an exception of the service: PolicyNotFoundError becomes a response,
-- any other goes on to the server as it is.
pub data Raised : Type 0 where
  http : HttpException → Raised
  unhandled : ServiceError → Raised

abbrev pub not_found : HttpException
not_found = record { status_code = 404; detail = codes "Policy not found."; headers = [] }

abbrev pub on_error : ServiceError → Raised
on_error policy_not_found = http not_found
on_error e = unhandled e

abbrev pub answer {ℓ} : {A : Type ℓ} → ServiceError ⊎ A → Raised ⊎ A
answer (inl e) = inl (on_error e)
answer (inr a) = inr a

module _ (l : Library) where
  -- The handlers of app/api/admin.py.
  -- `POST /admin/policies`, for a body that the schema takes.
  unfoldable pub admin_create :
      CacheSettings → Calls → Text → ℕ → PolicyCreate → Store l → (Raised ⊎ Policy) × Store l
  admin_create settings calls new_id now_ms payload s =
      let (result, s') = create_policy l settings calls new_id now_ms payload s in
      (answer result, s')

  unfoldable pub admin_get : Text → Store l → Raised ⊎ Policy
  admin_get policy_id s = answer (get_policy l policy_id s)

  unfoldable pub admin_update :
      CacheSettings → Calls → ℕ → Text → PolicyUpdate → Store l → (Raised ⊎ Policy) × Store l
  admin_update settings calls now_ms policy_id payload s =
      let (result, s') = update_policy l settings calls now_ms policy_id payload s in
      (answer result, s')

  unfoldable pub admin_delete : CacheSettings → Calls → Text → Store l → Option Raised × Store l
  admin_delete settings calls policy_id s =
      let (result, s') = delete_policy l settings calls policy_id s in
      (elim result [ none ↦ none | some e ↦ some (on_error e) ], s')

  -- `items` and `count`
  unfoldable pub admin_list : Bool → Store l → List Policy × ℕ
  admin_list active_only s = let items = list_policies l active_only s.rows in (items, length items)
