-- ===== src/Keys/Shared.antt =====
-- All requests that a policy matches count against one key.
use distributed_rate_limiter.Base.{◌≡◌, refl, true, Option, none, some, [], ◌∷◌}
use distributed_rate_limiter.Base.Text.{Text, codes}
use distributed_rate_limiter.Policy.{Policy}
use distributed_rate_limiter.Policy.Matcher.{policy_matches}
use distributed_rate_limiter.Policy.Matcher.Matching.{Agrees, Matches, policy_matches_iff}
use distributed_rate_limiter.Keys.{
  RequestIdentity, segment_if, route_segment, or_own, selector_segments, build_rate_limit_key,
}

or_own_self : (own : Text) → or_own (some own) own ≡ own
or_own_self [] = refl
or_own_self (c ∷ s) = refl

segment_if_lem :
    (own : Option Text) (label : Text) (v w : Option Text)
    → Agrees own v
    → Agrees own w
    → segment_if own label v ≡ segment_if own label w
segment_if_lem none label v w h k = refl
segment_if_lem (some own) label v w h k = cc

route_segment_lem :
    (own : Option Text) (v w : Text)
    → Agrees own (some v)
    → Agrees own (some w)
    → route_segment own v ≡ route_segment own w
route_segment_lem none v w h k = refl
route_segment_lem (some own) v w h k = cc

selector_segments_lem :
    (p : Policy) (i j : RequestIdentity)
    → Matches p i
    → Matches p j
    → selector_segments p i ≡ selector_segments p j
unfolding selector_segments
selector_segments_lem p i j a b = cc (
  route_segment_lem p.route i.route j.route a.route b.route,
  segment_if_lem p.user_id (codes "user=") i.user_id j.user_id a.user_id b.user_id,
  segment_if_lem p.ip_address (codes "ip=") i.ip_address j.ip_address a.ip_address b.ip_address,
  segment_if_lem p.tenant_id (codes "tenant=") i.tenant_id j.tenant_id a.tenant_id b.tenant_id,
  segment_if_lem p.api_key (codes "api_key=") i.api_key j.api_key a.api_key b.api_key,
)

-- Any two requests that a policy matches have the same key for it, so that all instances which
-- serve them count against one shared state.
pub build_rate_limit_key_shared :
    (p : Policy) (i j : RequestIdentity)
    → policy_matches p i ≡ true
    → policy_matches p j ≡ true
    → build_rate_limit_key p i ≡ build_rate_limit_key p j
unfolding build_rate_limit_key
build_rate_limit_key_shared p i j hi hj =
    rw (selector_segments_lem p i j ((policy_matches_iff p i).0 hi) ((policy_matches_iff p j).0 hj))
