-- ===== src/Scripts.antt =====
-- The scripts of scripts/ and the load test of loadtests/. What the first two need: the
-- payloads that leave most fields to their defaults, and names in a list.
pub mod Seed
pub mod LoadTest
pub mod Texts
pub mod Results
pub mod Simulation
pub mod Benchmark
use distributed_rate_limiter.Base.{Bool, List, Option, [], false, none, some, true, ℕ, ◌||◌, ◌∷◌}
use distributed_rate_limiter.Base.Int.{pos}
use distributed_rate_limiter.Base.Text.{Text, text_eq}
use distributed_rate_limiter.Policy.{
  Policy, PolicyCreate, Selectors, RateLimitAlgorithm, FailureMode,
}

abbrev pub for_route : Text → Selectors
for_route route = record {
  route = some route;
  user_id = none;
  ip_address = none;
  tenant_id = none;
  api_key = none;
}

-- A payload with a name, a description, an algorithm, a rate, selectors and a failure mode, for a
-- window of a minute.
abbrev pub per_minute :
    Text → Text → RateLimitAlgorithm → ℕ → Option ℕ → Selectors → FailureMode → PolicyCreate
per_minute name description algorithm rate burst_capacity selectors failure_mode = record {
  name = name;
  description = some description;
  algorithm = algorithm;
  rate = rate;
  window_seconds = 60;
  burst_capacity = burst_capacity;
  active = true;
  priority = pos 0;
  selectors = selectors;
  failure_mode = failure_mode;
}

abbrev pub names_of : List Policy → List Text
names_of [] = []
names_of (p ∷ rows) = p.name ∷ names_of rows

-- `name in names`
unfoldable pub contains : Text → List Text → Bool
contains name [] = false
contains name (n ∷ names) = text_eq n name || contains name names
