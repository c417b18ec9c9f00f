-- ===== src/Scripts/Benchmark/Run/Exits.antt =====
-- When a benchmark leaves a summary.
use distributed_rate_limiter.Base.{
  Bool, List, [], ap, false, none, refl, some, true, ℕ, ◌++◌, ◌+◌, ◌∙◌, ◌≡◌,
}
use mathlib.Core.Option
use distributed_rate_limiter.Base.Text.{Text, codes, text_eq}
use distributed_rate_limiter.PolicyService.Libraries.{Library}
use distributed_rate_limiter.PolicyService.{CacheSettings, Store}
use distributed_rate_limiter.Scripts.Seed.{Creation}
use distributed_rate_limiter.Scripts.Results.{
  World, Step, works, ◌>>=◌, ◌>>◌, pure, print, lift, write_text, put_text, read_text,
}
use distributed_rate_limiter.Scripts.Results.Summaries.{
  Spares, Reports, write_text-Spares, create_results_dir-Spares, lift-Spares, pure-Spares,
  >>=-Spares, >>=-Reports, read_text-put_text,
}
use distributed_rate_limiter.Scripts.Benchmark.Console.{Python, parse_locust_console_summary}
use distributed_rate_limiter.Scripts.Benchmark.Run.{
  summary_of, Arguments, BenchmarkSummary, Surroundings, run_locust, call_locust, read_log, prepare,
  summarize, write_summary, render_summary, measure, main,
}

module _ (py : Python) (l : Library) (settings : CacheSettings) (creations : ℕ → Creation)
    (e : Surroundings py l settings creations) where
  -- The end of `measure`.
  abbrev finishing : BenchmarkSummary py.F → Step (Store l) (BenchmarkSummary py.F)
  finishing s = write_summary py l settings creations e s >>= λ _. print >>= λ _. print >> pure s

  prepare-Spares :
      (name : Text) (skipped : Bool) (scenario : Text)
      → Spares name (prepare py l settings creations e skipped scenario)
  unfolding prepare
  prepare-Spares name true scenario = record { spared = λ w h. h }
  prepare-Spares name false scenario = record { spared = λ w h. h }

  call_locust-Spares :
      (name : Text) (command : List Text) (variables : List (Text × Text))
      → Spares name (call_locust py l settings creations e command variables)
  unfolding call_locust
  call_locust-Spares name command variables = record { spared = λ w h. h }

  read_log-Spares : (name : Text) → Spares name (read_log py l settings creations e)
  unfolding read_log
  read_log-Spares name = record { spared = λ w h. h }

  module _ (name : Text) (report : BenchmarkSummary py.F → Text)
      (command : text_eq (codes "command.txt") name ≡ false)
      (stdout : text_eq (codes "locust_stdout.log") name ≡ false)
      (stderr : text_eq (codes "locust_stderr.log") name ≡ false)
      (metadata : text_eq (codes "metadata.json") name ≡ false)
      (written : (s : BenchmarkSummary py.F) → Reports name report (finishing s)) where
    run_locust-Spares :
        (hosts : List Text) (scenario : Text) (args : Arguments py.F)
        → Spares name (run_locust py l settings creations e hosts scenario args)
    unfolding run_locust
    run_locust-Spares hosts scenario args =
        >>=-Spares name _ _ (write_text-Spares name _ _ command) (λ _.
          >>=-Spares name _ _ (call_locust-Spares name _ _) (λ completed.
            >>=-Spares name _ _ (write_text-Spares name _ _ stdout) (λ _.
              >>=-Spares name _ _ (write_text-Spares name _ _ stderr) (λ _. lift-Spares name _))))

    summarize-Spares :
        (label : Text) (hosts : List Text) (args : Arguments py.F)
        → Spares name (summarize py l settings creations e label hosts args)
    unfolding summarize
    summarize-Spares label hosts args =
        >>=-Spares name (read_log py l settings creations e) _ (read_log-Spares name) λ text.
          >>=-Spares name (lift (parse_locust_console_summary py text))
            (λ totals. pure (summary_of py l settings creations e label hosts args text totals))
            (lift-Spares name _) (λ totals. pure-Spares name _)

    measure-Reports :
        (label : Text) (hosts : List Text) (scenario : Text) (args : Arguments py.F)
        → Reports name report (measure py l settings creations e label hosts scenario args)
    unfolding measure
    measure-Reports label hosts scenario args =
        >>=-Reports name report _ _ (write_text-Spares name _ _ metadata) (λ _.
          >>=-Reports name report _ _ (prepare-Spares name args.skip_prepare scenario) (λ _.
            >>=-Reports name report _ _ (run_locust-Spares hosts scenario args)
              (λ _. >>=-Reports name report _ _ (summarize-Spares label hosts args) written)))

    main-Reports :
        (args : Arguments py.F) → Reports name report (main py l settings creations e args)
    unfolding main
    main-Reports args = >>=-Reports name report _ _ (lift-Spares name _) (λ hosts.
        >>=-Reports name report _ _ (lift-Spares name _) (λ scenario.
          >>=-Reports name report _ _ (lift-Spares name _) (λ label.
            >>=-Reports name report _ _ (create_results_dir-Spares name _)
              (λ _. measure-Reports label hosts scenario args))))

  -- The end of `measure`, where all writes and prints work.
  finished :
      (s : BenchmarkSummary py.F) (w : World (Store l))
      → ((n : ℕ) → w.io n ≡ works)
      → let json = put_text (codes "summary.json") (e.dumps_summary s ++ codes "\n") w.files in
        let (outcome, end) = finishing s w in
        (outcome ≡ some s)
        × (end.files
            ≡ put_text (codes "summary.md") (render_summary py l settings creations e s) json)
  unfolding write_summary write_text print pure
  finished s w ok =
      rw (ok w.io_calls, ok (w.io_calls + 1), ok (w.io_calls + 1 + 1), ok (w.io_calls + 1 + 1 + 1))
        (refl, refl)

  json_written :
      (s : BenchmarkSummary py.F)
      → Reports (codes "summary.json") (λ s. e.dumps_summary s ++ codes "\n") (finishing s)
  unfolding text_eq
  json_written s = record {
    reported = λ w h.
        let (outcome, files) = finished s w h.1 in
        rw (outcome, files)
          (read_text-put_text (codes "summary.json") (codes "summary.md") _ _
            ∙ read_text-put_text (codes "summary.json") (codes "summary.json") _ w.files);
  }

  md_written :
      (s : BenchmarkSummary py.F)
      → Reports (codes "summary.md") (render_summary py l settings creations e) (finishing s)
  unfolding text_eq
  md_written s = record {
    reported = λ w h.
        let (outcome, files) = finished s w h.1 in
        rw (outcome, files) (read_text-put_text (codes "summary.md") (codes "summary.md") _ _);
  }

  -- A benchmark that starts with no results of its own, and whose writes and prints all work, leaves
  -- the two summaries exactly if it ends well: summary.json then holds the JSON of the summary that
  -- `main` returns and summary.md its report, and both are missing if anything raised, be it a wrong
  -- argument, a directory of the same second, a response to the preparation, the exit code of Locust
  -- or a log that cannot be read.
  pub main_summaries :
      (args : Arguments py.F) (w : World (Store l))
      → ((n : ℕ) → w.io n ≡ works)
      → w.files ≡ []
      → let (outcome, end) = main py l settings creations e args w in
        (read_text (codes "summary.json") end.files
          ≡ Option.map (λ s. e.dumps_summary s ++ codes "\n") outcome)
        × (read_text (codes "summary.md") end.files
            ≡ Option.map (render_summary py l settings creations e) outcome)
  unfolding text_eq read_text
  main_summaries args w ok empty =
      let lacks : (name : Text) → read_text name w.files ≡ none =
        λ name. ap (read_text name) empty in
      (
        (main-Reports (codes "summary.json") _ refl refl refl refl json_written args).reported w
            (lacks _, ok),
        (main-Reports (codes "summary.md") _ refl refl refl refl md_written args).reported w
            (lacks _, ok),
      )
