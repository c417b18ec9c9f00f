-- ===== src/Scripts/Benchmark/Run.antt =====
-- `main` of scripts/run_benchmark.py with what it calls. The results directory is made anew by each
-- run; the texts that it prints to the terminal are left out.
pub mod Exits
use distributed_rate_limiter.Base.{
  Bool, List, Option, [], false, if◌then◌else◌, none, not, some, suc, true, zero, ℕ, ◌*◌, ◌++◌, ◌+◌,
  ◌∷◌,
}
use distributed_rate_limiter.Base.Int.{ℤ, pos}
use distributed_rate_limiter.Base.Text.{Text, codes, decimal}
use distributed_rate_limiter.Limiter.{int_text}
use distributed_rate_limiter.PolicyService.Libraries.{Library}
use distributed_rate_limiter.PolicyService.{CacheSettings, Store}
use distributed_rate_limiter.Scripts.Seed.{Creation}
use distributed_rate_limiter.Scripts.Texts.{join}
use distributed_rate_limiter.Scripts.Results.{
  ◌>>=◌, ◌>>◌, Step, pure, lift, write_text, print, create_results_dir, read_text,
}
use distributed_rate_limiter.Scripts.Benchmark.{
  normalize_scenario, display_scenario_name, prepare_benchmark_policies,
}
use distributed_rate_limiter.Scripts.Benchmark.Hosts.{parse_target_hosts, join_comma}
use distributed_rate_limiter.Scripts.Benchmark.Counts.{BenchmarkCounts, summarize_result}
use distributed_rate_limiter.Scripts.Benchmark.Console.{
  Python, Totals, parse_locust_console_summary, error_lines,
}

-- What `parse_args` gives; the token is one that the API takes.
pub record Arguments (F : Type 0) : Type 0 where
  pub target_hosts : Text
  pub scenario : Text
  pub users : ℤ
  pub spawn_rate : F
  pub run_time : Text
  pub api_instances : ℤ
  pub notes : Option Text
  pub skip_prepare : Bool

pub record Metadata (F : Type 0) : Type 0 where
  pub scenario : Text
  pub correctness_test_count : ℕ
  pub target_hosts : List Text
  pub api_instances : ℤ
  pub concurrent_users : ℤ
  pub spawn_rate : F
  pub run_time : Text
  pub notes : Option Text
  pub prepared_policies : Bool

pub record BenchmarkSummary (F : Type 0) : Type 0 where
  pub scenario : Text
  pub correctness_test_count : ℕ
  pub target_hosts : List Text
  pub api_instances : ℤ
  pub concurrent_users : ℤ
  pub spawn_rate : F
  pub run_time : Text
  pub counts : BenchmarkCounts
  pub open counts use *
  pub avg_latency_ms : Option F
  pub p95_latency_ms : Option F
  pub requests_per_second : Option F
  pub notes : Option Text
  pub generated_at_utc : Text

pub record Completed : Type 0 where
  pub returncode : ℤ
  pub stdout : Text
  pub stderr : Text

-- `collect_test_count`, for the number that pytest prints, or the numbers of test functions of the
-- files.
abbrev pub collect_test_count : Option ℕ → List ℕ → ℕ
collect_test_count (some n) files = n
collect_test_count none [] = 0
collect_test_count none (n ∷ files) = n + collect_test_count none files

-- `completed.returncode in {0, 1}`
abbrev pub is_expected : ℤ → Bool
is_expected (pos zero) = true
is_expected (pos (suc zero)) = true
is_expected code = false

-- `hosts[0]` of hosts that are not empty.
abbrev pub first_host : List Text → Text
first_host [] = []
first_host (h ∷ hosts) = h

module _ (py : Python) (l : Library) (settings : CacheSettings) (creations : ℕ → Creation) where
  open py use {F, float_text, splitlines}

  -- What the run calls besides: the clock, the two numbers of tests, the names of the interpreter
  -- and of the paths, the JSON texts, and Locust, which sends requests to the server.
  pub record Surroundings : Type 0 where
    pub timestamp : Text
    pub generated_at_utc : Text
    pub collected : Option ℕ
    pub test_functions : List ℕ
    pub executable : Text
    pub locustfile : Text
    pub path_of : Text → Text
    pub dumps_metadata : Metadata F → Text
    pub dumps_summary : BenchmarkSummary F → Text
    pub locust : List Text → List (Text × Text) → Store l → Completed × Store l

  module _ (e : Surroundings) where
    abbrev pub command_of : Text → Arguments F → List Text
    command_of host args =
        e.executable
        ∷ codes "-m"
        ∷ codes "locust"
        ∷ codes "-f"
        ∷ e.locustfile
        ∷ codes "--headless"
        ∷ codes "--host"
        ∷ host
        ∷ codes "--users"
        ∷ int_text args.users
        ∷ codes "--spawn-rate"
        ∷ float_text args.spawn_rate
        ∷ codes "--run-time"
        ∷ args.run_time
        ∷ codes "--csv"
        ∷ e.path_of (codes "locust")
        ∷ codes "--html"
        ∷ e.path_of (codes "locust_report.html")
        ∷ codes "--only-summary"
        ∷ []

    -- The variables that are set for Locust.
    abbrev pub environment_of : List Text → Text → List (Text × Text)
    environment_of hosts scenario =
        (codes "RATE_LIMIT_TARGET_HOSTS", join_comma hosts)
        ∷ (codes "RATE_LIMIT_SCENARIO", scenario)
        ∷ (codes "RATE_LIMIT_STATUS_OUTPUT", e.path_of (codes "status_counts.json"))
        ∷ []

    -- `subprocess.run`
    unfoldable pub call_locust : List Text → List (Text × Text) → Step (Store l) Completed
    call_locust command variables w =
        let (completed, server') = e.locust command variables w.server in
        (some completed, record w { server = server' })

    -- `run_locust`
    unfoldable pub run_locust : List Text → Text → Arguments F → Step (Store l) (Unit {0})
    run_locust hosts scenario args = do
      let command = command_of (first_host hosts) args
      write_text (codes "command.txt") (join b' ' command ++ codes "\n")
      completed ← call_locust command (environment_of hosts scenario)
      write_text (codes "locust_stdout.log") completed.stdout
      write_text (codes "locust_stderr.log") completed.stderr
      lift (if is_expected completed.returncode then some tt else none)

    -- `prepare_benchmark_policies`, where it is not skipped.
    unfoldable pub prepare : Bool → Text → Step (Store l) (Unit {0})
    prepare true scenario w = (some tt, w)
    prepare false scenario w =
        let (succeeded, server') =
          prepare_benchmark_policies l settings creations scenario w.server in
        (if succeeded then some tt else none, record w { server = server' })

    -- `log_path.read_text()`
    unfoldable pub read_log : Step (Store l) Text
    read_log w = (read_text (codes "locust_stderr.log") w.files, w)

    abbrev pub summary_of :
        Text → List Text → Arguments F → Text → ℕ × ℕ × Totals py → BenchmarkSummary F
    summary_of label hosts args text (total_requests, total_failures, t) = record {
      scenario = label;
      correctness_test_count = collect_test_count e.collected e.test_functions;
      target_hosts = hosts;
      api_instances = args.api_instances;
      concurrent_users = args.users;
      spawn_rate = args.spawn_rate;
      run_time = args.run_time;
      counts = summarize_result total_requests total_failures (error_lines py (splitlines text));
      avg_latency_ms = t.avg_latency_ms;
      p95_latency_ms = t.p95_latency_ms;
      requests_per_second = t.requests_per_second;
      notes = args.notes;
      generated_at_utc = e.generated_at_utc;
    }

    -- `summarize_result`
    unfoldable pub summarize : Text → List Text → Arguments F → Step (Store l) (BenchmarkSummary F)
    summarize label hosts args = do
      text ← read_log
      totals ← lift (parse_locust_console_summary py text)
      pure (summary_of label hosts args text totals)

    -- `f"{value}"` of a number or None.
    abbrev pub optional_text : Option F → Text
    optional_text none = codes "None"
    optional_text (some x) = float_text x

    -- `summary.notes or 'n/a'`
    abbrev pub notes_text : Option Text → Text
    notes_text none = codes "n/a"
    notes_text (some []) = codes "n/a"
    notes_text (some (c ∷ s)) = c ∷ s

    abbrev pub join_hosts : List Text → Text
    join_hosts [] = []
    join_hosts (h ∷ []) = h
    join_hosts (h ∷ g ∷ hosts) = h ++ codes ", " ++ join_hosts (g ∷ hosts)

    abbrev pub item : Text → Text → Text → Text
    item label value rest = codes "- " ++ label ++ codes ": `" ++ value ++ codes "`" ++ rest

    -- The text of summary.md.
    unfoldable pub render_summary : BenchmarkSummary F → Text
    render_summary s =
        join 10 (
          codes "# Benchmark Summary"
          ∷ []
          ∷ item (codes "Scenario") s.scenario []
          ∷ item (codes "Correctness tests available") (decimal s.correctness_test_count) []
          ∷ item (codes "Target hosts") (join_hosts s.target_hosts) []
          ∷ item (codes "API instances") (int_text s.api_instances) []
          ∷ item (codes "Concurrent users") (int_text s.concurrent_users) []
          ∷ item (codes "Spawn rate") (float_text s.spawn_rate) (codes " users/s")
          ∷ item (codes "Run time") s.run_time []
          ∷ item (codes "Total requests") (decimal s.total_requests) []
          ∷ item (codes "Allowed requests") (decimal s.allowed_requests) []
          ∷ item (codes "Blocked requests") (decimal s.blocked_requests) []
          ∷ item (codes "Error requests") (decimal s.error_requests) []
          ∷ item (codes "Average latency") (optional_text s.avg_latency_ms) (codes " ms")
          ∷ item (codes "P95 latency") (optional_text s.p95_latency_ms) (codes " ms")
          ∷ item (codes "Requests per second") (optional_text s.requests_per_second) []
          ∷ item (codes "Generated at") s.generated_at_utc []
          ∷ item (codes "Notes") (notes_text s.notes) []
          ∷ []
          ∷ (codes "Use this report as the source of truth for resume numbers. "
              ++ codes "Avoid copying values from ad-hoc terminal runs.")
          ∷ [])
        ++ codes "\n"

    -- `write_summary`
    unfoldable pub write_summary : BenchmarkSummary F → Step (Store l) (Unit {0})
    write_summary summary = do
      write_text (codes "summary.json") (e.dumps_summary summary ++ codes "\n")
      write_text (codes "summary.md") (render_summary summary)

    abbrev pub metadata_of : Text → List Text → Arguments F → Metadata F
    metadata_of label hosts args = record {
      scenario = label;
      correctness_test_count = collect_test_count e.collected e.test_functions;
      target_hosts = hosts;
      api_instances = args.api_instances;
      concurrent_users = args.users;
      spawn_rate = args.spawn_rate;
      run_time = args.run_time;
      notes = args.notes;
      prepared_policies = not args.skip_prepare;
    }

    -- The part of `main` that runs in the results directory, with the two prints at its end.
    unfoldable pub measure :
        Text → List Text → Text → Arguments F → Step (Store l) (BenchmarkSummary F)
    measure label hosts scenario args = do
      write_text (codes "metadata.json")
          (e.dumps_metadata (metadata_of label hosts args) ++ codes "\n")
      prepare args.skip_prepare scenario
      run_locust hosts scenario args
      summary ← summarize label hosts args
      write_summary summary
      print
      print
      pure summary

    -- `main`: the summary that it prints, or none where it raises.
    unfoldable pub main : Arguments F → Step (Store l) (BenchmarkSummary F)
    main args = do
      hosts ← lift (parse_target_hosts args.target_hosts)
      scenario ← lift (normalize_scenario args.scenario)
      label ← lift (display_scenario_name scenario)
      create_results_dir (e.timestamp ++ codes "_" ++ label)
      measure label hosts scenario args

    -- The exit code of the process.
    abbrev pub exit_code : Option (BenchmarkSummary F) → ℕ
    exit_code (some summary) = 0
    exit_code none = 1
