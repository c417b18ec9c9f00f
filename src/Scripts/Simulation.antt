-- ===== src/Scripts/Simulation.antt =====
-- scripts/run_multi_region_simulation.py. What it prints to the terminal is what `main` returns.
pub mod Rows
pub mod Again
use distributed_rate_limiter.Base.{List, Option, [], ℕ, ◌++◌, ◌∷◌}
use distributed_rate_limiter.Base.Int.{ℤ}
use distributed_rate_limiter.Base.Text.{Text, codes, decimal}
use distributed_rate_limiter.MultiRegion.{
  MultiRegionSummary, RegionalDecision, simulate_multi_region_limit,
}
use distributed_rate_limiter.Scripts.Texts.{join}
use distributed_rate_limiter.Scripts.Results.{
  ◌>>=◌, ◌>>◌, Step, pure, lift, write_text, print, create_results_dir,
}

-- What `parse_args` gives; the numbers of requests and the spacing are natural numbers.
pub record Arguments : Type 0 where
  pub limit : ℤ
  pub replication_lag_ms : ℤ
  pub india_requests : ℕ
  pub us_requests : ℕ
  pub request_spacing_ms : ℕ

-- `summary.as_dict()` with the time and the regions.
pub record SummaryPayload : Type 0 where
  pub summary : MultiRegionSummary
  pub generated_at_utc : Text
  pub regions : List Text

abbrev pub row : Text → ℕ → Text
row label value = codes "| " ++ (label ++ (codes " | " ++ (decimal value ++ codes " |")))

-- The rows of the table.
abbrev pub fields : List (Text × (MultiRegionSummary → ℕ))
fields =
    (codes "Configured limit", λ s. s.configured_limit)
    ∷ (codes "Replication lag (ms)", λ s. s.replication_lag_ms)
    ∷ (codes "India requests sent", λ s. s.india_requests_sent)
    ∷ (codes "US requests sent", λ s. s.us_requests_sent)
    ∷ (codes "India allowed", λ s. s.india_allowed)
    ∷ (codes "US allowed", λ s. s.us_allowed)
    ∷ (codes "Total allowed", λ s. s.total_allowed)
    ∷ (codes "Oversubscription", λ s. s.oversubscription)
    ∷ (codes "Stale allowed decisions", λ s. s.stale_allowed_decisions)
    ∷ []

abbrev pub rows_of : MultiRegionSummary → List (Text × (MultiRegionSummary → ℕ)) → List Text
rows_of s [] = []
rows_of s ((label, value) ∷ rest) = row label (value s) ∷ rows_of s rest

abbrev pub heading : List Text
heading =
    codes "This run simulates two regional replicas, one in India and one in the US,"
    ∷ codes "making local allow/block decisions before asynchronous replication arrives."
    ∷ []
    ∷ codes "| Field | Value |"
    ∷ codes "| --- | ---: |"
    ∷ []

abbrev pub closing : List Text
closing =
    []
    ∷ codes "Oversubscription and stale decisions are the consistency cost of active-active"
    ∷ codes "regional replicas with replication lag. The main service avoids this problem by"
    ∷ codes "sending rate-limit decisions to one shared Redis coordination layer."
    ∷ []
    ∷ []

-- The lines that `render_markdown` joins.
abbrev pub markdown_lines : MultiRegionSummary → List Text
markdown_lines s =
    codes "# Multi-Region Consistency Simulation" ∷ [] ∷ heading ++ (rows_of s fields ++ closing)

-- `render_markdown`
unfoldable pub render_markdown : MultiRegionSummary → Text
render_markdown s = join 10 (markdown_lines s)

-- The clock and the JSON texts.
pub record Surroundings : Type 0 where
  pub timestamp : Text
  pub generated_at_utc : Text
  pub dumps_summary : SummaryPayload → Text
  pub dumps_decisions : List RegionalDecision → Text
  -- of the path of a directory and the summary
  pub dumps_printed : Text → SummaryPayload → Text

module _ (e : Surroundings) where
  abbrev pub payload_of : MultiRegionSummary → SummaryPayload
  payload_of summary = record {
    summary = summary;
    generated_at_utc = e.generated_at_utc;
    regions = codes "india" ∷ codes "us" ∷ [];
  }

  abbrev pub simulated : Arguments → Option (MultiRegionSummary × List RegionalDecision)
  simulated args =
      simulate_multi_region_limit args.limit args.replication_lag_ms args.india_requests
        args.us_requests args.request_spacing_ms

  abbrev pub result_dir : Text
  result_dir = e.timestamp ++ codes "_multi_region_consistency"

  -- The three files, and what is printed.
  unfoldable pub write_results : MultiRegionSummary × List RegionalDecision → Step (Unit {0}) Text
  write_results (summary, decisions) = do
    write_text (codes "summary.json") (e.dumps_summary (payload_of summary) ++ codes "\n")
    write_text (codes "decisions.json") (e.dumps_decisions decisions ++ codes "\n")
    write_text (codes "summary.md") (render_markdown summary)
    print
    pure (e.dumps_printed result_dir (payload_of summary))

  -- `main`: what it prints, or none where it raises.
  unfoldable pub main : Arguments → Step (Unit {0}) Text
  main args = do
    results ← lift (simulated args)
    create_results_dir result_dir
    write_results results
