-- ===== src/Tests/Sample.antt =====
-- The policies and the request that the tests use.
use distributed_rate_limiter.Base.{none, some, true}
use distributed_rate_limiter.Base.Int.{pos}
use distributed_rate_limiter.Base.Text.{codes}
use distributed_rate_limiter.Policy.{
  Policy, PolicyCreate, Selectors, RateLimitAlgorithm, fixed_window, sliding_window_log,
  fail_closed,
}
use distributed_rate_limiter.Keys.{RequestIdentity}

abbrev pub route_only : Selectors
route_only = record {
  route = some (codes "/demo");
  user_id = none;
  ip_address = none;
  tenant_id = none;
  api_key = none;
}

abbrev pub for_user : Selectors
for_user = record route_only { user_id = some (codes "vip") }

abbrev pub payload : RateLimitAlgorithm → Selectors → PolicyCreate
payload a s = record {
  name = codes "demo-policy";
  description = none;
  algorithm = a;
  rate = 2;
  window_seconds = 600;
  burst_capacity = none;
  active = true;
  priority = pos 0;
  selectors = s;
  failure_mode = fail_closed;
}

abbrev pub route_policy : Policy
route_policy = record {
  payload = payload fixed_window route_only;
  id = codes "5f0c";
  version = 1;
  created_at = 0;
  updated_at = 0;
}

abbrev pub user_policy : Policy
user_policy = record route_policy {
  payload = payload sliding_window_log for_user;
  id = codes "77aa";
  version = 3;
}

abbrev pub vip : RequestIdentity
vip = record {
  route = codes "/demo";
  user_id = some (codes "vip");
  ip_address = some (codes "10.0.0.1");
  tenant_id = none;
  api_key = none;
}

abbrev pub guest : RequestIdentity
guest = record vip { user_id = none }
