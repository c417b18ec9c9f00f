-- ===== src/Policy/Matcher.antt =====
-- app/services/policy_matcher.py.
pub mod Matching
pub mod Best
use distributed_rate_limiter.Base.{
  ℕ, ◌+◌, ◌≡◌, refl, Bool, true, false, ◌&&◌, not, Option, none, some, List, [], ◌∷◌, keep_if, ltb,
  if◌then◌else◌,
}
use distributed_rate_limiter.Base.Int.{ℤ, ltb_ℤ}
use distributed_rate_limiter.Base.Text.{Text, is_some, option_text_eq}
use distributed_rate_limiter.Policy.{Policy}
use distributed_rate_limiter.Keys.{RequestIdentity}

-- `selector is not None and selector != value`
abbrev mismatch : Option Text → Option Text → Bool
mismatch selector value = is_some selector && not (option_text_eq selector value)

unfoldable pub policy_matches : Policy → RequestIdentity → Bool
policy_matches p i =
    if mismatch p.route (some i.route)
    then false
    else if mismatch p.user_id i.user_id
    then false
    else if mismatch p.ip_address i.ip_address
    then false
    else if mismatch p.tenant_id i.tenant_id
    then false
    else if mismatch p.api_key i.api_key
    then false
    else true

-- The tuple that `policy_score` returns.
pub record Score : Type 0 where
  pub specificity : ℕ
  pub selector_weight : ℕ
  pub priority : ℤ
  pub version : ℕ

-- `w if value is not None else 0`
abbrev weight_if : Option Text → ℕ → ℕ
weight_if selector w = if is_some selector then w else 0

unfoldable pub policy_score : Policy → Score
policy_score p = record {
  specificity =
      weight_if p.route 1
      + weight_if p.user_id 1
      + weight_if p.ip_address 1
      + weight_if p.tenant_id 1
      + weight_if p.api_key 1;
  selector_weight =
      weight_if p.user_id 20
      + weight_if p.api_key 18
      + weight_if p.tenant_id 16
      + weight_if p.ip_address 14
      + weight_if p.route 12;
  priority = p.priority;
  version = p.version;
}

-- `a < b` on the tuples: lexicographic.
unfoldable pub score_lt : Score → Score → Bool
score_lt a b =
    if ltb a.specificity b.specificity
    then true
    else if ltb b.specificity a.specificity
    then false
    else if ltb a.selector_weight b.selector_weight
    then true
    else if ltb b.selector_weight a.selector_weight
    then false
    else if ltb_ℤ a.priority b.priority
    then true
    else if ltb_ℤ b.priority a.priority
    then false
    else ltb a.version b.version

-- `max(policies, key=policy_score)` goes on from the best so far, which a tie keeps.
unfoldable pub max_by_score : Policy → List Policy → Policy
max_by_score best [] = best
max_by_score best (p ∷ rest) =
    max_by_score (if score_lt (policy_score best) (policy_score p) then p else best) rest

unfoldable pub is_candidate : RequestIdentity → Policy → Bool
is_candidate i p = p.active && policy_matches p i

best_of : List Policy → Option Policy
best_of [] = none
best_of (p ∷ rest) = some (max_by_score p rest)

unfoldable pub select_best_policy : List Policy → RequestIdentity → Option Policy
unfolding is_candidate best_of
select_best_policy policies i = best_of (keep_if (is_candidate i) policies)
