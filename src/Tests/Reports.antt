-- ===== src/Tests/Reports.antt =====
-- A benchmark on a small Locust, and a run of the simulation.
use distributed_rate_limiter.Base.{Option, [], false, none, refl, some, ℕ, ◌++◌, ◌≡◌}
use mathlib.Core.Option
use distributed_rate_limiter.Base.Int.{pos}
use distributed_rate_limiter.Base.Text.{Text, codes, decimal, parse_digits}
use distributed_rate_limiter.PolicyService.{Store}
use distributed_rate_limiter.Scripts.{contains}
use distributed_rate_limiter.MultiRegion.{simulate_multi_region_limit, MultiRegionSummary}
use distributed_rate_limiter.Scripts.Seed.{Creation}
use distributed_rate_limiter.Scripts.Texts.{split_on, parts_of}
use distributed_rate_limiter.Scripts.Results.{
  lift, create_results_dir, write_text, pure, World, read_text, print, works,
}
use distributed_rate_limiter.Scripts.Simulation
use distributed_rate_limiter.Scripts.Simulation.{render_markdown, fields}
use distributed_rate_limiter.Scripts.Simulation.Rows.{TableReads, render_markdown_roundtrip}
use distributed_rate_limiter.Scripts.Benchmark.Console.{
  read_totals, Totals, Python, parse_locust_console_summary,
}
use distributed_rate_limiter.Scripts.Benchmark.Run.{Arguments, Surroundings, render_summary, main}
use distributed_rate_limiter.Scripts.Benchmark.Run.Exits.{main_summaries}
use distributed_rate_limiter.Tests.Service.{memory, calls}
use distributed_rate_limiter.Tests.Service

abbrev python : Python
python = record {
  F = ℕ;
  int_of = λ s. some (parse_digits 0 s);
  float_of = λ s. some (parse_digits 0 s);
  float_text = decimal;
  splitlines = λ s. parts_of (split_on 10 s);
  match_error = λ line. none;
}

abbrev log : Text
log =
    codes "Type     Name  # reqs      # fails |    Avg  |   req/s  failures/s\n"
    ++ codes "         Aggregated       120     30(25.00%) |     7       1 |   40.00        0.00\n"

abbrev totals_of : Option (ℕ × ℕ × Totals python) → Option (ℕ × ℕ)
totals_of none = none
totals_of (some (requests, failures, t)) = some (requests, failures)

log_totals : totals_of (parse_locust_console_summary python log) ≡ some (120, 30)
unfolding parse_locust_console_summary parse_digits split_on read_totals
log_totals = refl

abbrev creations : ℕ → Creation
creations n = record { calls = calls; new_id = decimal n; at_ms = 1000 }

abbrev surroundings : Surroundings python memory Service.settings creations
surroundings = record {
  timestamp = codes "20260409T000000Z";
  generated_at_utc = codes "2026-04-09T00:00:00+00:00";
  collected = some 42;
  test_functions = [];
  executable = codes "python";
  locustfile = codes "loadtests/locustfile.py";
  path_of = λ name. name;
  dumps_metadata = λ m. codes "{}";
  dumps_summary = λ s. decimal s.total_requests;
  locust = λ command variables s. (record { returncode = pos 1; stdout = []; stderr = log }, s);
}

abbrev arguments : Arguments ℕ
arguments = record {
  target_hosts = codes "http://localhost:8000";
  scenario = codes "shared-quota";
  users = pos 40;
  spawn_rate = 10;
  run_time = codes "30s";
  api_instances = pos 1;
  notes = none;
  skip_prepare = false;
}

abbrev world : World (Store memory)
world = record {
  directories = [];
  files = [];
  server = Service.start;
  io = λ n. works;
  io_calls = 0;
}

main_summaries_example :
    let (outcome, end) =
      main python memory Service.settings creations surroundings arguments world in
    (read_text (codes "summary.json") end.files
      ≡ Option.map (λ s. decimal s.total_requests ++ codes "\n") outcome)
    × (read_text (codes "summary.md") end.files
        ≡ Option.map (render_summary python memory Service.settings creations surroundings) outcome)
main_summaries_example =
    main_summaries python memory Service.settings creations surroundings arguments world (λ n. refl)
      refl

abbrev summary : MultiRegionSummary
summary = record {
  configured_limit = 10;
  replication_lag_ms = 180;
  request_spacing_ms = 20;
  india_requests_sent = 8;
  us_requests_sent = 8;
  india_allowed = 8;
  india_blocked = 0;
  us_allowed = 8;
  us_blocked = 0;
  total_allowed = 16;
  oversubscription = 6;
  stale_allowed_decisions = 6;
  max_replication_queue_depth = 16;
}

render_markdown_roundtrip_example : TableReads summary
render_markdown_roundtrip_example = render_markdown_roundtrip summary

abbrev here : Simulation.Surroundings
here = record {
  timestamp = codes "20260409T000000Z";
  generated_at_utc = codes "2026-04-09T00:00:00+00:00";
  dumps_summary = λ p. codes "{}";
  dumps_decisions = λ ds. codes "[]";
  dumps_printed = λ dir p. dir;
}

abbrev small : Simulation.Arguments
small = record {
  limit = pos 1;
  replication_lag_ms = pos 5;
  india_requests = 1;
  us_requests = 0;
  request_spacing_ms = 20;
}

abbrev empty : World (Unit {0})
empty = record { directories = []; files = []; server = tt; io = λ n. works; io_calls = 0 }

small_prints :
    (Simulation.main here small empty).0 ≡ some (codes "20260409T000000Z_multi_region_consistency")
unfolding Simulation.main print lift create_results_dir Simulation.write_results write_text pure
    contains simulate_multi_region_limit
small_prints = refl
