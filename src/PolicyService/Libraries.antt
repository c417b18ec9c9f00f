-- ===== src/PolicyService/Libraries.antt =====
-- What the policy service calls: the order in which the database lists rows, the JSON texts, and
-- GET, SETEX and DEL on the key of the cached list.
use distributed_rate_limiter.Base.{
  Bool, Elem, List, Option, if◌then◌else◌, ltb, none, some, ℕ, ◌*◌, ◌+◌, ◌↔◌, ◌≡◌, ◌≤◌,
}
use distributed_rate_limiter.Policy.{Policy}

pub record Library : Type 1 where
  pub Cache : Type 0
  -- the JSON texts, and whether one is not empty
  pub Json : Type 0
  pub is_truthy : Json → Bool
  -- at a time in milliseconds
  pub get : ℕ → Cache → Option Json
  -- at a time, with a time to live in seconds
  pub setex : ℕ → ℕ → Json → Cache → Cache
  pub delete : Cache → Cache
  pub dumps : List Policy → Json
  pub loads : Json → List Policy
  pub order_by : List Policy → List Policy

-- Their documented behaviour.
pub record Documented (l : Library) : Type 0 where
  pub get-setex :
      (s t ttl : ℕ) (payload : l.Json) (c : l.Cache)
      → s ≤ t
      → l.get t (l.setex s ttl payload c) ≡ (if ltb t (s + ttl * 1000) then some payload else none)
  pub get-delete : (t : ℕ) (c : l.Cache) → l.get t (l.delete c) ≡ none
  pub loads-dumps : (policies : List Policy) → l.loads (l.dumps policies) ≡ policies
  pub order_by-Elem : (p : Policy) (rows : List Policy) → Elem p (l.order_by rows) ↔ Elem p rows
