-- ===== src/Keys.antt =====
-- app/services/key_builder.py: the identity of a request and the key of its shared state.
-- `Request` holds what the functions read of a Starlette request.
pub mod Client
pub mod Shared
pub mod Distinct
use distributed_rate_limiter.Base.{
  ℕ, ◌≡◌, Bool, true, false, ◌&&◌, ◌||◌, Option, none, some, List, [], ◌∷◌, ◌++◌, leb, ◌==◌,
  if◌then◌else◌,
}
use mathlib.Core.List.{reverse}
use distributed_rate_limiter.Base.Text.{Text, codes, decimal}
use distributed_rate_limiter.Policy.{Policy, algorithm_text}

pub record RequestIdentity : Type 0 where
  pub route : Text
  pub user_id : Option Text
  pub ip_address : Option Text
  pub tenant_id : Option Text
  pub api_key : Option Text

pub record Request : Type 0 where
  -- `request.headers.get(name)`
  pub header : Text → Option Text
  -- `request.path_params.get("user_id")`
  pub path_user_id : Option Text
  -- `request.client.host`
  pub client_host : Option Text
  -- the `path` of `request.scope.get("route")`
  pub route_path : Option Text
  pub url_path : Text

-- `a or b` on `str | None`: an empty text counts as missing.
abbrev pub or_text : Option Text → Option Text → Option Text
or_text none b = b
or_text (some []) b = b
or_text (some (c ∷ s)) b = some (c ∷ s)

-- `a or b` where `b` is a text.
abbrev pub or_own : Option Text → Text → Text
or_own none b = b
or_own (some []) b = b
or_own (some (c ∷ s)) b = c ∷ s

-- `text.split(",")[0]`
unfoldable pub before_comma : Text → Text
before_comma [] = []
before_comma (c ∷ s) = let rest = before_comma s in if c == b',' then [] else c ∷ rest

-- The white space among the code points of a header, which is Latin-1.
unfoldable pub is_space : ℕ → Bool
is_space c = leb 9 c && leb c 13 || leb 28 c && leb c 32 || c == 133 || c == 160

unfoldable pub lstrip : Text → Text
unfolding is_space
lstrip [] = []
lstrip (c ∷ s) = let rest = lstrip s in if is_space c then rest else c ∷ s

-- `text.strip()`
unfoldable pub strip : Text → Text
unfolding lstrip
strip s = reverse (lstrip (reverse (lstrip s)))

-- `if forwarded_for: ...`, then the peer's address.
from_forwarded : Option Text → Option Text → Option Text
from_forwarded none host = or_text host none
from_forwarded (some []) host = or_text host none
from_forwarded (some (c ∷ s)) host = some (strip (before_comma (c ∷ s)))

unfoldable pub extract_client_ip : Request → Option Text
unfolding from_forwarded
extract_client_ip r = from_forwarded (r.header (codes "X-Forwarded-For")) r.client_host

-- `getattr(request.scope.get("route"), "path", request.url.path)`
abbrev pub route_template : Request → Text
route_template r = elim r.route_path [ none ↦ r.url_path | some path ↦ path ]

unfoldable pub build_request_identity : Request → RequestIdentity
build_request_identity r = record {
  route = route_template r;
  user_id = or_text r.path_user_id (r.header (codes "X-User-Id"));
  ip_address = extract_client_ip r;
  tenant_id = r.header (codes "X-Tenant-Id");
  api_key = r.header (codes "X-Api-Key");
}

-- `if selector is not None: segments.append(f"{label}={value or selector}")`
abbrev segment_if : Option Text → Text → Option Text → List Text
segment_if none label value = []
segment_if (some own) label value = (label ++ or_own value own) ∷ []

-- `":".join(segments)`
abbrev join_colon : List Text → Text
join_colon [] = []
join_colon (s ∷ []) = s
join_colon (s ∷ t ∷ rest) = s ++ b':' ∷ join_colon (t ∷ rest)

-- `if policy.route is not None: segments.append(f"route={identity.route}")`
abbrev route_segment : Option Text → Text → List Text
route_segment none route = []
route_segment (some own) route = (codes "route=" ++ route) ∷ []

-- The segments that depend on the selectors.
selector_segments : Policy → RequestIdentity → List Text
selector_segments p i =
    route_segment p.route i.route
    ++ segment_if p.user_id (codes "user=") i.user_id
    ++ segment_if p.ip_address (codes "ip=") i.ip_address
    ++ segment_if p.tenant_id (codes "tenant=") i.tenant_id
    ++ segment_if p.api_key (codes "api_key=") i.api_key

unfoldable pub build_rate_limit_key : Policy → RequestIdentity → Text
unfolding selector_segments algorithm_text
build_rate_limit_key p i = join_colon (
    codes "rl"
    ∷ algorithm_text p.algorithm
    ∷ p.id
    ∷ (b'v' ∷ decimal p.version)
    ∷ selector_segments p i)
