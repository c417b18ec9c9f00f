-- ===== src/Tests/Policies.antt =====
-- Policies, keys and the selection at concrete inputs.
use distributed_rate_limiter.Base.{[], arith, if◌then◌else◌, none, refl, some, ℕ, ◌∷◌, ◌≡◌}
use distributed_rate_limiter.Base.Text.{codes, text_eq, option_text_eq, decimal}
use distributed_rate_limiter.Policy.Scope.{describe_policy_scope}
use distributed_rate_limiter.Policy.Matcher.{
  policy_matches, select_best_policy, policy_score, score_lt, max_by_score,
}
use distributed_rate_limiter.Policy.Matcher.Best.{Selected, select_best_policy-Selected}
use distributed_rate_limiter.Keys.{Request, build_rate_limit_key}
use distributed_rate_limiter.Keys.Shared.{build_rate_limit_key_shared}
use distributed_rate_limiter.Keys.Distinct.{build_rate_limit_key_distinct}
use distributed_rate_limiter.Tests.Sample.{route_policy, user_policy, vip, guest}

user_scope : describe_policy_scope user_policy.selectors ≡ codes "user+route"
unfolding describe_policy_scope
user_scope = refl

vip_choice : select_best_policy (route_policy ∷ user_policy ∷ []) vip ≡ some user_policy
unfolding select_best_policy policy_matches max_by_score policy_score score_lt option_text_eq
vip_choice = refl

select_best_policy-Selected_example :
    Selected
      (route_policy ∷ user_policy ∷ [])
      guest
      (select_best_policy (route_policy ∷ user_policy ∷ []) guest)
select_best_policy-Selected_example =
    select_best_policy-Selected (route_policy ∷ user_policy ∷ []) guest

build_rate_limit_key_shared_example :
    build_rate_limit_key route_policy vip ≡ build_rate_limit_key route_policy guest
build_rate_limit_key_shared_example =
    build_rate_limit_key_shared route_policy vip guest
      (unfold policy_matches option_text_eq text_eq in refl)
      (unfold policy_matches option_text_eq text_eq in refl)

vip_key :
    build_rate_limit_key user_policy vip
    ≡ codes "rl:sliding_window_log:77aa:v3:route=/demo:user=vip"
unfolding build_rate_limit_key decimal
vip_key = refl

abbrev proxied : Request
proxied = record {
  header = λ name.
      if text_eq name (codes "X-Forwarded-For") then some (codes " 10.0.0.1 ,10.9.9.9") else none;
  path_user_id = none;
  client_host = some (codes "127.0.0.1");
  route_path = none;
  url_path = codes "/demo";
}

build_rate_limit_key_distinct_example : (codes "5f0c" ≡ codes "5f0c") × (◌≡◌ {A = ℕ} 1 1)
build_rate_limit_key_distinct_example =
    build_rate_limit_key_distinct route_policy route_policy vip guest (omega arith) (omega arith)
      build_rate_limit_key_shared_example
