-- ===== src/Scripts/Benchmark/Counts.antt =====
-- The counts of the summary.
use distributed_rate_limiter.Base.{
  Bool, List, [], ap, arith, false, if◌then◌else◌, ltb, not, true, ℕ, ◌&&◌, ◌+◌, ◌-◌, ◌==◌, ◌||◌,
  ◌∷◌, ◌≡◌, ◌≤◌,
}
use distributed_rate_limiter.Base.Text.{Text, codes}

abbrev pub starts_with : Text → Text → Bool
starts_with [] s = true
starts_with (c ∷ part) [] = false
starts_with (c ∷ part) (d ∷ s) = c == d && starts_with part s

-- `part in text`
unfoldable pub is_in : Text → Text → Bool
is_in part [] = starts_with part []
is_in part (d ∷ s) = starts_with part (d ∷ s) || is_in part s

-- `parse_error_report`, for the number and the message of each line that matches.
unfoldable pub parse_error_report : List (ℕ × Text) → ℕ × ℕ
parse_error_report [] = (0, 0)
parse_error_report ((occurrences, error_message) ∷ lines) =
    let (blocked_requests, error_requests) = parse_error_report lines in
    if is_in (codes "rate_limit_blocked") error_message
    then (occurrences + blocked_requests, error_requests)
    else if not (is_in (codes "Error report") error_message)
        && not (is_in (codes "# occurrences") error_message)
    then (blocked_requests, occurrences + error_requests)
    else (blocked_requests, error_requests)

-- The counts of `BenchmarkSummary`.
pub record BenchmarkCounts : Type 0 where
  pub total_requests : ℕ
  pub allowed_requests : ℕ
  pub blocked_requests : ℕ
  pub error_requests : ℕ

-- `summarize_result`, for the totals of the console summary and the lines of the error report.
-- `max(0, a - b)` is the difference that stops at 0.
unfoldable pub summarize_result : ℕ → ℕ → List (ℕ × Text) → BenchmarkCounts
unfolding parse_error_report
summarize_result total_requests total_failures lines =
    let (blocked, errors) = parse_error_report lines in
    let blocked_requests =
      if (blocked == 0) && (errors == 0) && ltb 0 total_failures then total_failures else blocked in
    record {
      total_requests = total_requests;
      allowed_requests = total_requests - total_failures;
      blocked_requests = blocked_requests;
      error_requests = total_failures - blocked_requests;
    }

-- Where the failures are among the requests, and the error report holds no more blocked requests
-- than there are failures, each request is counted exactly once: as allowed, as blocked or as an
-- error. If the report has no line that counts, every failure is counted as blocked.
pub summarize_result_accounts :
    (total_requests total_failures : ℕ) (lines : List (ℕ × Text))
    → total_failures ≤ total_requests
    → (parse_error_report lines).0 ≤ total_failures
    → let counts = summarize_result total_requests total_failures lines in
      (counts.allowed_requests + counts.blocked_requests + counts.error_requests ≡ total_requests)
      × (parse_error_report lines ≡ (0, 0) → counts.blocked_requests ≡ total_failures)
unfolding summarize_result
summarize_result_accounts total failures lines le most = (
  ground (arith, le, most),
  λ e.
      let zero : (parse_error_report lines).0 ≡ 0 = ap (λ x. x.0) e in
      let none_else : (parse_error_report lines).1 ≡ 0 = ap (λ x. x.1) e in
      ground (arith, zero, none_else),
)
