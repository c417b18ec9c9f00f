-- ===== src/ConfigControl.antt =====
-- app/services/config_control_sync.py, with the route of app/api/internal.py that calls it. What
-- ConfigControl answers to a request is a parameter. Logging is left out.
pub mod Outcomes
pub mod Again
use distributed_rate_limiter.Base.{
  &&_split, ==_iff, All, All-append, All_Elem, Ascending, Bool, Bool-cases, Elem, Elem-keep_if,
  Elem-keep_if_of, List, Option, Option-cases, Ordering, Sum-cases, [], ap, append-nil,
  append_assoc, arith, ceil_seconds, compare, count_if, false, get_elem?, head?, if◌then◌else◌, inl,
  inr, keep_if, leb, leb→le, length, length-append, le→leb, ltb, ltb→lt, lt→ltb, map, max, min,
  none, not, not_leb→lt, not_ltb→le, refl, some, subst, suc, sym, true, zero, ℕ, ◌%◌, ◌&&◌, ◌*◌,
  ◌++◌, ◌+◌, ◌-◌, ◌/◌, ◌<◌, ◌==◌, ◌^◌, ◌||◌, ◌↔◌, ◌∙◌, ◌∷◌, ◌≡◌, ◌≢◌, ◌≤◌, ◌⊎◌,
}
use distributed_rate_limiter.Base.Int.{ℤ}
use distributed_rate_limiter.Base.Text.{Text, codes, is_empty_text}
use distributed_rate_limiter.Policy.{Policy, PolicyCreate}
use distributed_rate_limiter.Keys.{Request, or_own}
use distributed_rate_limiter.Shell.Config.{Settings, cache_settings}
use distributed_rate_limiter.PolicyService.Libraries.{Library}
use distributed_rate_limiter.PolicyService.{
  ServiceError, Calls, Store, SyncAction, upsert_policy_by_name,
}
use distributed_rate_limiter.Api.{
  HttpException, TokenError, denied, type_error, require_service_token,
}

-- The request that `_fetch_config` sends.
pub record ConfigRequest : Type 0 where
  pub base_url : Text
  pub path : Text
  pub version : Text
  pub environment : Text
  pub target : Text
  pub client_id : Text
  pub user_id_header : Text
  pub role_header : Text

-- The `value` of an answer: no object; one that `PolicyCreate` does not take, with the text of the
-- exception; or a policy.
pub data ConfigValue : Type 0 where
  no_object : ConfigValue
  invalid : Text → ConfigValue
  valid : PolicyCreate → ConfigValue

-- The object that ConfigControl answers. Each field of the response is none where the key is
-- missing, or where its value is not of the type that the response takes.
pub record ConfigPayload : Type 0 where
  pub value : ConfigValue
  pub name : Option Text
  pub environment : Option Text
  pub target : Option Text
  pub version : Option ℤ

-- What comes of a request to ConfigControl: an exception with its text, of the connection, the
-- status or the JSON; a body that is no object; or an object.
pub data Reply : Type 0 where
  failed : Text → Reply
  not_an_object : Reply
  body : ConfigPayload → Reply

pub data SyncError : Type 0 where
  -- ConfigControlSyncError
  sync_failed : Text → SyncError
  -- an exception of the policy service
  service_failed : ServiceError → SyncError

pub record ConfigControlSyncRequest : Type 0 where
  pub config_name : Option Text
  pub environment : Option Text
  pub target : Option Text

pub record ConfigControlSyncResponse : Type 0 where
  pub config_name : Text
  pub environment : Text
  pub target : Text
  pub config_version : ℤ
  pub action : SyncAction
  pub policy : Policy

-- `bool(self.settings.config_control_base_url)`
unfoldable pub is_configured : Settings → Bool
is_configured settings = elim settings.config_control_base_url [
  | none ↦ false
  | some url ↦ not (is_empty_text url)
]

-- `text.rstrip("/")`
unfoldable pub rstrip_slash : Text → Text
rstrip_slash [] = []
rstrip_slash (c ∷ s) =
    let rest = rstrip_slash s in if c == b'/' && is_empty_text rest then [] else c ∷ rest

-- The request for the configuration `config_name`.
unfoldable pub config_request : Settings → Text → Text → Text → ConfigRequest
config_request settings config_name environment target = record {
  base_url = rstrip_slash (or_own settings.config_control_base_url []);
  path = codes "/configs/" ++ config_name;
  version = codes "resolved";
  environment = environment;
  target = target;
  client_id = settings.config_control_client_id;
  user_id_header = settings.config_control_user_id;
  role_header = settings.config_control_role;
}

-- `_fetch_config`, for the reply to its request: the message of the exception, or the object.
unfoldable pub fetch_config : Text → Reply → Text ⊎ ConfigPayload
fetch_config config_name (failed e) =
    inl (codes "Unable to fetch config '" ++ config_name ++ codes "' from ConfigControl: " ++ e)
fetch_config config_name not_an_object =
    inl (codes "ConfigControl returned an invalid response body.")
fetch_config config_name (body payload) = inr payload

-- The policy that the object holds, or the message of the exception.
unfoldable pub policy_payload : ConfigValue → Text ⊎ PolicyCreate
policy_payload no_object = inl (codes "ConfigControl returned a non-object policy payload.")
policy_payload (invalid e) = inl (codes "ConfigControl policy payload is invalid: " ++ e)
policy_payload (valid payload) = inr payload

-- What the route gives: the response; an HTTPException; or an exception that nothing handles, of
-- the token check, of the policy service, or of a field that the response does not find in the
-- object.
pub data SyncAnswer : Type 0 where
  responded : ConfigControlSyncResponse → SyncAnswer
  http : HttpException → SyncAnswer
  unhandled : ServiceError → SyncAnswer
  field_missing token_error : SyncAnswer

abbrev pub refusal : TokenError → SyncAnswer
refusal (denied exception) = http exception
refusal type_error = token_error

-- The response with these fields, where none is missing.
abbrev pub filled :
    Policy → SyncAction → Option Text → Option Text → Option Text → Option ℤ → SyncAnswer
filled policy action (some config_name) (some environment) (some target) (some config_version) =
    responded (record {
      config_name = config_name;
      environment = environment;
      target = target;
      config_version = config_version;
      action = action;
      policy = policy;
    })
filled policy action _ _ _ _ = field_missing

module _ (l : Library) (control : ConfigRequest → Reply) (settings : Settings) where
  abbrev pub Synced : Type 0
  Synced = (SyncError ⊎ Policy × SyncAction × ConfigPayload) × Store l

  abbrev pub with_payload : ConfigPayload → (ServiceError ⊎ Policy × SyncAction) × Store l → Synced
  with_payload payload (inl e, s) = (inl (service_failed e), s)
  with_payload payload (inr (policy, action), s) = (inr (policy, action, payload), s)

  -- The rest of `sync_policy`, after ConfigControl has answered with an object.
  unfoldable pub store_value : ConfigPayload → Calls → Text → ℕ → Store l → Synced
  store_value payload calls new_id now_ms s = elim (policy_payload payload.value) [
    | inl message ↦ (inl (sync_failed message), s)
    | inr value ↦
        with_payload payload
          (upsert_policy_by_name l (cache_settings settings) calls new_id now_ms value s)
  ]

  -- The reply to the request of `sync_policy`, whose names come from the settings where the caller
  -- gives none.
  unfoldable pub reply_to : ConfigControlSyncRequest → Reply
  reply_to request = control (
      config_request settings (or_own request.config_name settings.config_control_policy_name)
        (or_own request.environment settings.config_control_environment)
        (or_own request.target settings.config_control_target))

  -- `sync_policy`
  unfoldable pub sync_policy : ConfigControlSyncRequest → Calls → Text → ℕ → Store l → Synced
  sync_policy request calls new_id now_ms s =
      let config_name = or_own request.config_name settings.config_control_policy_name in
      if not (is_configured settings)
      then (inl (sync_failed (codes "ConfigControl integration is not configured.")), s)
      else elim (fetch_config config_name (reply_to request)) [
        | inl message ↦ (inl (sync_failed message), s)
        | inr payload ↦ store_value payload calls new_id now_ms s
      ]

  -- The response, if the object has all its fields.
  unfoldable pub response_of : Policy → SyncAction → ConfigPayload → SyncAnswer
  response_of policy action payload =
      filled policy action payload.name payload.environment payload.target payload.version

  abbrev pub answer_of : SyncError ⊎ Policy × SyncAction × ConfigPayload → SyncAnswer
  answer_of (inl (sync_failed message)) =
      http (record { status_code = 503; detail = message; headers = [] })
  answer_of (inl (service_failed e)) = unhandled e
  answer_of (inr (policy, action, payload)) = response_of policy action payload

  -- `sync_policy_from_config_control`
  unfoldable pub sync_policy_from_config_control :
      ConfigControlSyncRequest → Calls → Text → ℕ → Store l → SyncAnswer × Store l
  sync_policy_from_config_control request calls new_id now_ms s =
      let (result, s') = sync_policy request calls new_id now_ms s in (answer_of result, s')

  -- `POST /internal/sync/config-control`: the token check of the router, then the handler.
  unfoldable pub sync_route :
      Request → ConfigControlSyncRequest → Calls → Text → ℕ → Store l → SyncAnswer × Store l
  sync_route caller request calls new_id now_ms s = elim (require_service_token settings caller) [
    | some e ↦ (refusal e, s)
    | none ↦ sync_policy_from_config_control request calls new_id now_ms s
  ]
