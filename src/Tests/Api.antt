-- ===== src/Tests/Api.antt =====
-- The API at concrete inputs.
use distributed_rate_limiter.Base.{false, none, refl, some}
use distributed_rate_limiter.Float.Fixed.{fixed}
use distributed_rate_limiter.Policy.{Policy, fail_open}
use distributed_rate_limiter.Limiter.{evaluate}
use distributed_rate_limiter.Api.{enforce_rate_limit}
use distributed_rate_limiter.Api.Limited.{Unavailable, enforce_rate_limit-Unavailable}
use distributed_rate_limiter.PolicyService.Update.{PolicyUpdate}
use distributed_rate_limiter.Tests.Sample.{route_policy, vip}
use distributed_rate_limiter.Tests.Limiter.{settings, down, start}
use distributed_rate_limiter.Tests.Server.{server}

enforce_rate_limit-Unavailable_example : Unavailable route_policy 600 (
    enforce_rate_limit
      (evaluate fixed server (settings false) (some route_policy) vip down 600004 start).0)
enforce_rate_limit-Unavailable_example =
    enforce_rate_limit-Unavailable fixed server (settings false) route_policy vip down 600004 start
      refl (λ k lt e. cc) refl

abbrev open_policy : Policy
open_policy = record route_policy {
  payload = record (route_policy.payload) { failure_mode = fail_open };
}

abbrev new_rate : PolicyUpdate
new_rate = record {
  name = none;
  description = none;
  algorithm = none;
  rate = some (some 5);
  window_seconds = none;
  burst_capacity = none;
  active = none;
  priority = none;
  route = none;
  user_id = none;
  ip_address = none;
  tenant_id = none;
  api_key = none;
  failure_mode = none;
}
