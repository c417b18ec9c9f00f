-- ===== src/Scripts/LoadTest.antt =====
-- loadtests/locustfile.py: which tasks send requests in a scenario, and what is made of a response.
-- The choice of the hosts and of the users is left out.
use distributed_rate_limiter.Base.{
  Bool, List, Option, [], false, if◌then◌else◌, leb, none, some, ℕ, ◌++◌, ◌+◌, ◌==◌, ◌||◌, ◌∷◌,
}
use distributed_rate_limiter.Base.Text.{Text, codes, text_eq, decimal}

pub data Task : Type 0 where
  public_endpoint protected_endpoint user_endpoint ip_hotspot_endpoint : Task
  protected_burst_endpoint auth_service_endpoint payments_service_endpoint : Task
  search_service_endpoint : Task

-- `SCENARIO in {…}`
abbrev is_one_of : Text → List Text → Bool
is_one_of scenario [] = false
is_one_of scenario (s ∷ rest) = text_eq scenario s || is_one_of scenario rest

-- The guard at the head of a task: whether it sends its request.
unfoldable pub sends_in : Text → Task → Bool
unfolding text_eq
sends_in scenario public_endpoint = is_one_of scenario (codes "mixed" ∷ codes "public-heavy" ∷ [])
sends_in scenario protected_endpoint =
    is_one_of scenario (codes "mixed" ∷ codes "protected-burst" ∷ codes "shared-protected" ∷ [])
sends_in scenario user_endpoint = is_one_of scenario (codes "mixed" ∷ codes "user-hotspot" ∷ [])
sends_in scenario ip_hotspot_endpoint = text_eq scenario (codes "ip-hotspot")
sends_in scenario protected_burst_endpoint =
    is_one_of scenario (codes "protected-burst" ∷ codes "shared-protected" ∷ [])
sends_in scenario auth_service_endpoint = text_eq scenario (codes "platform-services")
sends_in scenario payments_service_endpoint = text_eq scenario (codes "platform-services")
sends_in scenario search_service_endpoint = text_eq scenario (codes "platform-services")

-- How a response is reported to Locust.
pub data Mark : Type 0 where
  success : Mark
  failure : Text → Mark

abbrev pub mark_of : ℕ → Mark
mark_of status_code =
    if status_code == 429
    then failure (codes "rate_limit_blocked")
    else if leb 500 status_code
    then failure (codes "unexpected server error " ++ decimal status_code)
    else success

-- `_record_status`
abbrev pub record_status : Text → (Text → ℕ) → Text → ℕ
record_status status_code counts s = if text_eq status_code s then counts s + 1 else counts s

-- `_request`, for the status code of the response; none where the client raises, which is raised
-- again.
abbrev pub request : Option ℕ → (Text → ℕ) → Option Mark × (Text → ℕ)
request (some status_code) counts =
    (some (mark_of status_code), record_status (decimal status_code) counts)
request none counts = (none, record_status (codes "EXCEPTION") counts)
