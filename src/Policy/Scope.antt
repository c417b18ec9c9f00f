-- ===== src/Policy/Scope.antt =====
-- `describe_policy_scope`: the label of the set of selectors that a policy has.
use distributed_rate_limiter.Base.{List, Option, [], none, some, ◌++◌, ◌∷◌}
use distributed_rate_limiter.Base.Text.{Text, codes}
use distributed_rate_limiter.Policy.{Selectors, Policy}

-- `labels.append(label)` under `value is not None`.
abbrev label_if : Option Text → Text → List Text
label_if none label = []
label_if (some value) label = label ∷ []

-- `"+".join(labels) if labels else "global"`
join_labels : List Text → Text
join_labels [] = codes "global"
join_labels (label ∷ []) = label
join_labels (label ∷ rest) = label ++ b'+' ∷ join_labels rest

unfoldable pub describe_policy_scope : Selectors → Text
unfolding join_labels
describe_policy_scope s = join_labels (
    label_if s.tenant_id (codes "tenant")
    ++ label_if s.api_key (codes "api_key")
    ++ label_if s.user_id (codes "user")
    ++ label_if s.ip_address (codes "ip")
    ++ label_if s.route (codes "route"))

-- `PolicyRead.selector_kind` and `RateLimitPolicy.to_selector_kind`.
unfoldable pub selector_kind : Policy → Text
selector_kind p = describe_policy_scope p.selectors
