-- ===== src/PolicyService/Rows.antt =====
-- The rows of the table, as the service looks them up and replaces them, and the comparison of
-- payloads.
use distributed_rate_limiter.Base.{
  Bool, List, Option, [], false, if◌then◌else◌, ltb, none, not, some, true, ℕ, ◌&&◌, ◌==◌, ◌^◌, ◌∷◌,
}
use distributed_rate_limiter.Base.Int.{ℤ, pos, negsuc, eqb_ℤ}
use distributed_rate_limiter.Base.Text.{Text, text_eq, option_text_eq}
use distributed_rate_limiter.Policy.{
  Policy, PolicyCreate, FailureMode, fail_open, fail_closed, algorithm_text,
}

abbrev pub eq_option_ℕ : Option ℕ → Option ℕ → Bool
eq_option_ℕ none none = true
eq_option_ℕ (some m) (some n) = m == n
eq_option_ℕ _ _ = false

abbrev pub eq_bool : Bool → Bool → Bool
eq_bool true b = b
eq_bool false b = not b

abbrev pub eq_mode : FailureMode → FailureMode → Bool
eq_mode fail_open fail_open = true
eq_mode fail_closed fail_closed = true
eq_mode _ _ = false

-- `current_payload == next_payload`
unfoldable pub payload_eq : PolicyCreate → PolicyCreate → Bool
payload_eq p q =
    text_eq p.name q.name
    && option_text_eq p.description q.description
    && text_eq (algorithm_text p.algorithm) (algorithm_text q.algorithm)
    && (p.rate == q.rate)
    && (p.window_seconds == q.window_seconds)
    && eq_option_ℕ p.burst_capacity q.burst_capacity
    && eq_bool p.active q.active
    && eqb_ℤ p.priority q.priority
    && option_text_eq p.route q.route
    && option_text_eq p.user_id q.user_id
    && option_text_eq p.ip_address q.ip_address
    && option_text_eq p.tenant_id q.tenant_id
    && option_text_eq p.api_key q.api_key
    && eq_mode p.failure_mode q.failure_mode

-- `session.get(RateLimitPolicy, policy_id)`
unfoldable pub find_id : Text → List Policy → Option Policy
find_id policy_id [] = none
find_id policy_id (p ∷ rows) =
    let later = find_id policy_id rows in if text_eq p.id policy_id then some p else later

-- The row of a name.
unfoldable pub find_name : Text → List Policy → Option Policy
find_name name [] = none
find_name name (p ∷ rows) =
    let later = find_name name rows in if text_eq p.name name then some p else later

-- The rows with one row replaced by another of its id.
unfoldable pub put_row : Policy → List Policy → List Policy
put_row row [] = []
put_row row (p ∷ rows) =
    let later = put_row row rows in (if text_eq p.id row.id then row else p) ∷ later

-- Whether a row other than the one of the id has the name.
unfoldable pub name_taken : Text → Text → List Policy → Bool
name_taken policy_id name [] = false
name_taken policy_id name (p ∷ rows) =
    let later = name_taken policy_id name rows in
    if text_eq p.name name && not (text_eq p.id policy_id) then true else later

-- A signed integer of 32 bits, as PostgreSQL's INTEGER is.
abbrev pub in_int32 : ℤ → Bool
in_int32 (pos n) = ltb n (2 ^ 31)
in_int32 (negsuc n) = ltb n (2 ^ 31)

abbrev pub optional_in_int32 : Option ℕ → Bool
optional_in_int32 none = true
optional_in_int32 (some n) = in_int32 (pos n)

-- Whether the numbers of a policy are integers of 32 bits.
abbrev pub numbers_fit : Policy → Bool
numbers_fit p =
    in_int32 (pos p.rate)
    && (in_int32 (pos p.window_seconds)
        && (optional_in_int32 p.burst_capacity
            && (in_int32 p.priority && in_int32 (pos p.version))))
