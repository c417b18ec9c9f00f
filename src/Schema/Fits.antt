-- ===== src/Schema/Fits.antt =====
-- Which rows of policies the columns of the table take.
use distributed_rate_limiter.Base.{
  Bool, List, Option, [], arith, false, if◌then◌else◌, leb, length, none, refl, some, true, ℕ, ◌&&◌,
  ◌∙◌, ◌∷◌, ◌≡◌,
}
use distributed_rate_limiter.Base.Int.{ℤ, pos}
use distributed_rate_limiter.Base.Text.{Text, codes, text_eq}
use distributed_rate_limiter.Policy.{
  Policy, RateLimitAlgorithm, fixed_window, sliding_window_log, token_bucket, FailureMode,
  fail_open, fail_closed, algorithm_text, validate, fits,
}
use distributed_rate_limiter.Scripts.{contains}
use distributed_rate_limiter.PolicyService.Rows.{in_int32, optional_in_int32, numbers_fit}
use distributed_rate_limiter.Schema.{
  ColumnType, Column, EnumType, uuid, unlimited_text, integer, boolean, timestamp, string, enum,
  column, migrated_columns, rate_limit_algorithm, failure_mode,
}

-- What is stored in a column.
pub data Value : Type 0 where
  null identifier truth moment : Value
  text : Text → Value
  number : ℤ → Value

-- The values of an enumeration.
abbrev values_of : Text → List EnumType → List Text
values_of name [] = []
values_of name ((n, values) ∷ types) =
    let later = values_of name types in if text_eq n name then values else later

-- Whether a value that is not null has the type; the lengths are those of VARCHAR.
unfoldable pub accepts : ColumnType → Value → Bool
accepts uuid identifier = true
accepts unlimited_text (text s) = true
accepts integer (number n) = in_int32 n
accepts boolean truth = true
accepts timestamp moment = true
accepts (string n) (text s) = leb (length s) n
accepts (enum name) (text s) =
    contains s (values_of name (rate_limit_algorithm ∷ failure_mode ∷ []))
accepts _ _ = false

unfoldable pub takes : Column → Value → Bool
unfolding accepts
takes c null = c.nullable
takes c v = accepts c.column_type v

-- A row with a value for each column.
unfoldable pub take_row : List Column → List Value → Bool
take_row [] [] = true
take_row (c ∷ columns) (v ∷ values) = takes c v && take_row columns values
take_row _ _ = false

abbrev pub text_value : Option Text → Value
text_value none = null
text_value (some s) = text s

abbrev pub number_value : Option ℕ → Value
number_value none = null
number_value (some n) = number (pos n)

abbrev pub failure_mode_text : FailureMode → Text
failure_mode_text fail_open = codes "fail_open"
failure_mode_text fail_closed = codes "fail_closed"

-- The row of a policy, in the order of the columns.
abbrev pub row_of : Policy → List Value
row_of p =
    identifier
    ∷ text p.name
    ∷ text_value p.description
    ∷ text (algorithm_text p.algorithm)
    ∷ number (pos p.rate)
    ∷ number (pos p.window_seconds)
    ∷ number_value p.burst_capacity
    ∷ truth
    ∷ number p.priority
    ∷ number (pos p.version)
    ∷ text_value p.route
    ∷ text_value p.user_id
    ∷ text_value p.ip_address
    ∷ text_value p.tenant_id
    ∷ text_value p.api_key
    ∷ text (failure_mode_text p.failure_mode)
    ∷ moment
    ∷ moment
    ∷ []

-- What the checks of the schema say of the texts.
record TextsFit (p : Policy) : Type 0 where
  name : leb (length p.name) 120 ≡ true
  route : fits 255 p.route ≡ true
  user_id : fits 128 p.user_id ≡ true
  ip_address : fits 64 p.ip_address ≡ true
  tenant_id : fits 128 p.tenant_id ≡ true
  api_key : fits 128 p.api_key ≡ true

validate-TextsFit : (p : Policy) → validate p.payload ≡ true → TextsFit p
unfolding validate
validate-TextsFit p ok = record {
  name = ground arith;
  route = ground arith;
  user_id = ground arith;
  ip_address = ground arith;
  tenant_id = ground arith;
  api_key = ground arith;
}

takes_text :
    (name : Text) (n : ℕ) (o : Option Text)
    → takes (column name (string n) true none) (text_value o) ≡ fits n o
unfolding takes
takes_text name n none = refl
takes_text name n (some s) = refl

takes_unlimited :
    (name : Text) (o : Option Text)
    → takes (column name unlimited_text true none) (text_value o) ≡ true
unfolding takes
takes_unlimited name none = refl
takes_unlimited name (some s) = refl

takes_number :
    (name : Text) (o : Option ℕ)
    → takes (column name integer true none) (number_value o) ≡ optional_in_int32 o
unfolding takes
takes_number name none = refl
takes_number name (some n) = refl

takes_algorithm :
    (a : RateLimitAlgorithm)
    → takes
        (column (codes "algorithm") (enum (codes "rate_limit_algorithm")) false none)
        (text (algorithm_text a))
      ≡ true
unfolding takes contains text_eq algorithm_text
takes_algorithm fixed_window = refl
takes_algorithm sliding_window_log = refl
takes_algorithm token_bucket = refl

takes_failure_mode :
    (m : FailureMode)
    → takes
        (column
          (codes "failure_mode")
          (enum (codes "failure_mode"))
          false
          (some (codes "fail_closed")))
        (text (failure_mode_text m))
      ≡ true
unfolding takes contains text_eq
takes_failure_mode fail_open = refl
takes_failure_mode fail_closed = refl

and_true : (b : Bool) → b && true ≡ b
and_true true = refl
and_true false = refl

-- The row of a policy whose payload passes the checks of the schema has the types of the columns of
-- the migrated table, with the lengths of the texts and the values of the two enumerations, exactly
-- if the rate, the window, the capacity, the priority and the version are integers of 32 bits: the
-- checks cover every other column, and none of these.
pub validate-take_row :
    (p : Policy) → validate p.payload ≡ true → take_row migrated_columns (row_of p) ≡ numbers_fit p
unfolding take_row takes
validate-take_row p ok =
    let t = validate-TextsFit p ok in
    let description = takes_unlimited (codes "description") p.description in
    let algorithm = takes_algorithm p.algorithm in
    let burst_capacity = takes_number (codes "burst_capacity") p.burst_capacity in
    let route = takes_text (codes "route") 255 p.route ∙ t.route in
    let user_id = takes_text (codes "user_id") 128 p.user_id ∙ t.user_id in
    let ip_address = takes_text (codes "ip_address") 64 p.ip_address ∙ t.ip_address in
    let tenant_id = takes_text (codes "tenant_id") 128 p.tenant_id ∙ t.tenant_id in
    let api_key = takes_text (codes "api_key") 128 p.api_key ∙ t.api_key in
    let mode = takes_failure_mode p.failure_mode in
    let rate = in_int32 (pos p.rate) in
    let window = in_int32 (pos p.window_seconds) in
    let capacity = optional_in_int32 p.burst_capacity in
    let version = in_int32 (pos p.version) in
    (λ j.
      t.name j
      && (description j
          && (algorithm j
              && (rate
                  && (window
                      && (burst_capacity j
                          && (in_int32 p.priority
                              && (version
                                  && (route j
                                      && (user_id j
                                          && (ip_address j
                                              && (tenant_id j
                                                  && (api_key j && (mode j && true))))))))))))))
    ∙ (λ j. rate && (window && (capacity && (in_int32 p.priority && and_true version j))))
