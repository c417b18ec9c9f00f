-- ===== src/Policy.antt =====
-- app/models/policy.py and app/schemas/policy.py: policies, their payloads and what is computed
-- from them. A UUID stands as its canonical text, a timestamp as a number. `rate`, `window_seconds`
-- and `burst_capacity` are natural numbers: the schema refuses 0 and what is below alike.
pub mod Scope
pub mod Matcher
pub mod Validation
use distributed_rate_limiter.Base.{
  &&_split, ==_iff, All, All-append, All_Elem, Ascending, Bool, Bool-cases, Elem, Elem-keep_if,
  Elem-keep_if_of, List, Option, Option-cases, Ordering, [], ap, append-nil, append_assoc, arith,
  ceil_seconds, compare, count_if, false, get_elem?, head?, if◌then◌else◌, inl, inr, keep_if, leb,
  leb→le, length, length-append, le→leb, ltb, ltb→lt, lt→ltb, map, max, min, none, not, not_leb→lt,
  not_ltb→le, refl, some, subst, suc, sym, true, zero, ℕ, ◌%◌, ◌&&◌, ◌*◌, ◌++◌, ◌+◌, ◌-◌, ◌/◌, ◌<◌,
  ◌==◌, ◌^◌, ◌||◌, ◌↔◌, ◌∙◌, ◌∷◌, ◌≡◌, ◌≢◌, ◌≤◌, ◌⊎◌,
}
use distributed_rate_limiter.Base.Int.{ℤ}
use distributed_rate_limiter.Base.Text.{Text, codes, is_some}

pub data RateLimitAlgorithm : Type 0 where
  fixed_window sliding_window_log token_bucket : RateLimitAlgorithm

pub data FailureMode : Type 0 where
  fail_open fail_closed : FailureMode

-- `str(policy.algorithm)`: the member's value.
unfoldable pub algorithm_text : RateLimitAlgorithm → Text
algorithm_text fixed_window = codes "fixed_window"
algorithm_text sliding_window_log = codes "sliding_window_log"
algorithm_text token_bucket = codes "token_bucket"

abbrev pub is_token_bucket : RateLimitAlgorithm → Bool
is_token_bucket token_bucket = true
is_token_bucket _ = false

-- The five selectors of a policy.
pub record Selectors : Type 0 where
  pub route : Option Text
  pub user_id : Option Text
  pub ip_address : Option Text
  pub tenant_id : Option Text
  pub api_key : Option Text

-- `PolicyBase` and `PolicyCreate`.
pub record PolicyCreate : Type 0 where
  pub name : Text
  pub description : Option Text
  pub algorithm : RateLimitAlgorithm
  pub rate : ℕ
  pub window_seconds : ℕ
  pub burst_capacity : Option ℕ
  pub active : Bool
  pub priority : ℤ
  pub selectors : Selectors
  pub open selectors use *
  pub failure_mode : FailureMode

-- A row of `rate_limit_policies`, and `PolicyRead`, which copies it.
pub record Policy : Type 0 where
  pub payload : PolicyCreate
  pub open payload use *
  pub id : Text
  pub version : ℕ
  pub created_at : ℕ
  pub updated_at : ℕ

-- `a or b` where `a : int | None` and `b : int`.
abbrev pub or_default : Option ℕ → ℕ → ℕ
or_default none d = d
or_default (some zero) d = d
or_default (some (suc n)) d = suc n

-- `RateLimitPolicy.to_header_limit` and `PolicyRead.header_limit`.
unfoldable pub header_limit : Policy → ℕ
header_limit p = or_default p.burst_capacity p.rate

-- `max_length` on a `str | None` field.
abbrev pub fits : ℕ → Option Text → Bool
fits n none = true
fits n (some s) = leb (length s) n

abbrev positive : Option ℕ → Bool
positive none = true
positive (some n) = ltb 0 n

-- The `Field` constraints of `PolicyBase`.
fields_ok : PolicyCreate → Bool
fields_ok p =
    leb 3 (length p.name)
    && leb (length p.name) 120
    && fits 1000 p.description
    && ltb 0 p.rate
    && ltb 0 p.window_seconds
    && positive p.burst_capacity
    && fits 255 p.route
    && fits 128 p.user_id
    && fits 64 p.ip_address
    && fits 128 p.tenant_id
    && fits 128 p.api_key

-- `validate_algorithm_specifics`; false where it raises.
validate_algorithm_specifics : PolicyCreate → Bool
validate_algorithm_specifics p =
    if not (is_token_bucket p.algorithm) && is_some p.burst_capacity then false else true

-- `PolicyCreate(**fields)`: true where no ValidationError is raised.
unfoldable pub validate : PolicyCreate → Bool
unfolding fields_ok validate_algorithm_specifics
validate p = fields_ok p && validate_algorithm_specifics p
