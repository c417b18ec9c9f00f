-- ===== src/Tests/ConfigControl.antt =====
-- The synchronisation from ConfigControl at concrete inputs.
use distributed_rate_limiter.Base.{[], if◌then◌else◌, none, refl, some, ◌&&◌, ◌∷◌, ◌≡◌}
use distributed_rate_limiter.Base.Int.{pos}
use distributed_rate_limiter.Base.Text.{codes, text_eq}
use distributed_rate_limiter.Policy.{sliding_window_log}
use distributed_rate_limiter.Keys.{Request}
use distributed_rate_limiter.Shell.Config.{Settings, default_settings}
use distributed_rate_limiter.PolicyService.{
  Store, created, unchanged, upsert_policy_by_name, create_policy, commit_error,
  invalidate_policy_cache,
}
use distributed_rate_limiter.PolicyService.Rows.{find_name, name_taken}
use distributed_rate_limiter.Api.{require_token, require_service_token, is_ascii}
use distributed_rate_limiter.ConfigControl.{
  ConfigRequest, valid, ConfigPayload, Reply, failed, body, ConfigControlSyncRequest,
  ConfigControlSyncResponse, responded, field_missing, store_value, sync_policy, is_configured,
  rstrip_slash, config_request, reply_to, fetch_config, policy_payload, response_of,
  sync_policy_from_config_control, sync_route,
}
use distributed_rate_limiter.ConfigControl.Outcomes.{SyncAnswered, sync_route-Answered}
use distributed_rate_limiter.ConfigControl.Again.{sync_route_again}
use distributed_rate_limiter.Tests.Sample.{payload, for_user}
use distributed_rate_limiter.Tests.Service.{memory, calls, start, new_row}

abbrev linked : Settings
linked = record default_settings { config_control_base_url = some (codes "http://config//") }

abbrev service_caller : Request
service_caller = record {
  header = λ name.
      if text_eq name (codes "X-Service-Token") then some (codes "change-me-service") else none;
  path_user_id = none;
  client_host = none;
  route_path = some (codes "/internal/sync/config-control");
  url_path = codes "/internal/sync/config-control";
}

abbrev held : ConfigPayload
held = record {
  value = valid (payload sliding_window_log for_user);
  name = some (codes "limits");
  environment = some (codes "prod");
  target = some (codes "judge-vortex");
  version = some (pos 4);
}

-- ConfigControl with one configuration, at one address.
abbrev serves : ConfigPayload → ConfigRequest → Reply
serves answer request =
    if text_eq request.path (codes "/configs/limits")
      && text_eq request.base_url (codes "http://config")
    then body answer
    else failed (codes "404")

abbrev for_limits : ConfigControlSyncRequest
for_limits = record { config_name = some (codes "limits"); environment = some []; target = none }

abbrev shown : ConfigControlSyncResponse
shown = record {
  config_name = codes "limits";
  environment = codes "prod";
  target = codes "judge-vortex";
  config_version = pos 4;
  action = created;
  policy = new_row;
}

abbrev after_sync : Store memory
after_sync =
    (sync_route memory (serves held) linked service_caller for_limits calls (codes "77aa") 2000
      start).1

-- An object without a version: the policy is stored, and the response fails.
stored_without_response :
    let (answer, s) =
      sync_route memory
        (serves (record held { version = none }))
        linked
        service_caller
        for_limits
        calls
        (codes "77aa")
        2000
        start in
    (answer ≡ field_missing) × (s.rows ≡ new_row ∷ [])
unfolding sync_route sync_policy_from_config_control sync_policy store_value is_configured
    rstrip_slash config_request reply_to fetch_config policy_payload response_of require_token
    require_service_token is_ascii commit_error upsert_policy_by_name find_name create_policy
    name_taken invalidate_policy_cache text_eq
stored_without_response = (refl, refl)

sync_route-Answered_example :
    SyncAnswered memory (serves held) linked service_caller for_limits start (
      sync_route memory
        (serves held)
        linked
        service_caller
        for_limits
        calls
        (codes "77aa")
        2000
        start)
sync_route-Answered_example =
    sync_route-Answered memory (serves held) linked service_caller for_limits calls (codes "77aa")
      2000 start

sync_route_again_example :
    sync_route memory
      (serves held)
      linked
      service_caller
      for_limits
      calls
      (codes "88bb")
      3000
      after_sync
    ≡ (responded (record shown { action = unchanged }), after_sync)
unfolding sync_route sync_policy_from_config_control sync_policy store_value is_configured
    rstrip_slash config_request reply_to fetch_config policy_payload response_of require_token
    require_service_token is_ascii commit_error upsert_policy_by_name find_name create_policy
    name_taken text_eq
sync_route_again_example =
    sync_route_again memory (serves held) linked service_caller for_limits calls calls
      (codes "77aa") (codes "88bb") 2000 3000 start shown refl
