-- ===== src/Scripts/Benchmark/Console.antt =====
-- What run_benchmark.py reads of the log of Locust. The log is Latin-1. What Python makes of the
-- texts of numbers, and the regular expression of the error report, are an interface.
use distributed_rate_limiter.Base.{
  List, Option, [], get_elem?, if◌then◌else◌, leb, length, map, none, not, some, ℕ, ◌&&◌, ◌∷◌,
}
use distributed_rate_limiter.Base.Text.{Text, codes}
use distributed_rate_limiter.Keys.{strip}
use distributed_rate_limiter.Scripts.Texts.{split_on, parts_of, words_from}
use distributed_rate_limiter.Scripts.Benchmark.Counts.{starts_with, is_in}

pub record Python : Type 1 where
  -- floating-point numbers
  pub F : Type 0
  -- `int(text)` for counts, which are not negative, and `round(float(text), 3)`; none where they
  -- raise ValueError
  pub int_of : Text → Option ℕ
  pub float_of : Text → Option F
  -- `str(x)`
  pub float_text : F → Text
  -- `text.splitlines()`
  pub splitlines : Text → List Text
  -- the groups of `re.match` in `parse_error_report`
  pub match_error : Text → Option (ℕ × Text)

-- `segments[k]` and `segment.split()`: none where the index is out of range.
abbrev pub word_at : ℕ → Text → Option Text
word_at k segment = get_elem? (words_from [] segment) k

module _ (py : Python) where
  open py use {F, int_of, float_of}

  -- The variables of the loop of `parse_locust_console_summary`.
  pub record Totals : Type 0 where
    pub total_requests : Option ℕ
    pub total_failures : Option ℕ
    pub avg_latency_ms : Option F
    pub requests_per_second : Option F
    pub p95_latency_ms : Option F

  abbrev pub then_some {ℓ κ} : {A : Type ℓ} {B : Type κ} → Option A → (A → Option B) → Option B
  then_some none f = none
  then_some (some a) f = f a

  -- A line with the totals: none where a part is missing or is no number.
  unfoldable pub read_totals : Text → Totals → Option Totals
  unfolding split_on words_from strip
  read_totals line t =
      let segments = map strip (parts_of (split_on b'|' line)) in
      then_some (get_elem? segments 0) λ request_segment.
        then_some (get_elem? segments 1) λ latency_segment.
          then_some (get_elem? segments 2) λ throughput_segment.
            then_some (then_some (word_at 1 request_segment) int_of) λ total_requests.
              then_some (then_some (word_at 2 request_segment) (λ s. int_of (split_on b'(' s).0))
                λ total_failures.
                  then_some (then_some (word_at 0 latency_segment) float_of) λ avg_latency_ms.
                    then_some (then_some (word_at 0 throughput_segment) float_of)
                      λ requests_per_second. some (record t {
                        total_requests = some total_requests;
                        total_failures = some total_failures;
                        avg_latency_ms = some avg_latency_ms;
                        requests_per_second = some requests_per_second;
                      })

  -- A line of the percentiles.
  unfoldable pub read_percentiles : Text → Totals → Option Totals
  unfolding words_from
  read_percentiles stripped t =
      let tokens = words_from [] stripped in
      if leb 13 (length tokens)
      then then_some (then_some (get_elem? tokens 6) float_of)
          (λ p95. some (record t { p95_latency_ms = some p95 }))
      else some t

  unfoldable pub read_line : Text → Totals → Option Totals
  unfolding strip is_in
  read_line line t =
      let stripped = strip line in
      let aggregated = starts_with (codes "Aggregated") stripped in
      let with_bar = is_in (codes "|") line in
      if aggregated && with_bar
      then read_totals line t
      else if aggregated && not with_bar
      then read_percentiles stripped t
      else some t

  unfoldable pub read_lines : List Text → Totals → Option Totals
  unfolding read_line
  read_lines [] t = some t
  read_lines (line ∷ lines) t = then_some (read_line line t) (read_lines lines)

  abbrev pub nothing_read : Totals
  nothing_read = record {
    total_requests = none;
    total_failures = none;
    avg_latency_ms = none;
    requests_per_second = none;
    p95_latency_ms = none;
  }

  -- The totals that were found, with the latencies; none where ValueError is raised.
  abbrev pub found : Totals → Option (ℕ × ℕ × Totals)
  found t = then_some t.total_requests λ total_requests.
      then_some t.total_failures λ total_failures. some (total_requests, total_failures, t)

  -- `parse_locust_console_summary`, for the text of the log.
  unfoldable pub parse_locust_console_summary : Text → Option (ℕ × ℕ × Totals)
  unfolding read_lines
  parse_locust_console_summary text = then_some (read_lines (py.splitlines text) nothing_read) found

  -- The lines of the error report that match.
  unfoldable pub error_lines : List Text → List (ℕ × Text)
  error_lines [] = []
  error_lines (line ∷ lines) = elim (py.match_error line) [
    | some found ↦ found ∷ error_lines lines
    | none ↦ error_lines lines
  ]
