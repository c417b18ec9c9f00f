-- ===== src/Lib.antt =====
-- A model of the distributed rate limiter, with the theorems that make it correct.
--
-- A request is described by its route and the identifiers of its sender (app/services/key_builder.py).
-- The policies are read through two caches (app/services/policy_service.py). The service
-- (app/services/rate_limiter.py) takes the best policy that matches it
-- (app/services/policy_matcher.py), runs the script of the policy's algorithm on a Redis server
-- (app/redis/scripts.py), tries again when the server fails, and then falls back on a limiter in its
-- own memory (app/services/local_fallback_limiter.py, app/services/algorithms.py) or on the policy's
-- failure mode.
--
-- The files:
-- Base, with Base/Tests, Base/Lists, Base/Int and Base/Text: Boolean tests, lists, integers, texts.
-- Float: the floating-point operations as an interface, and the laws of IEEE arithmetic that the
-- token bucket relies on; Float/Fixed is an instance.
-- Policy: app/models/policy.py and app/schemas/policy.py; Policy/Matcher: the matcher.
-- Keys: the key builder.
-- Algorithms: `apply_fixed_window`, `apply_sliding_window_log` and `apply_token_bucket`.
-- Local: `LocalFallbackLimiter`; its dictionaries are functions of the keys.
-- Redis: the commands of the server as an interface, with the documented behaviour of INCR and
-- PEXPIRE; Redis/SortedSets and Redis/Hashes: that of the sorted sets and of the hashes; Redis/Scripts:
-- the three Lua scripts.
-- Limiter: `RateLimiterService`, and the labelled counters of app/core/metrics.py.
-- PolicyService: app/services/policy_service.py and app/services/policy_cache.py: the rows, the cached
-- list and the snapshot; PolicyService/Libraries: what it calls, with the documented behaviour;
-- PolicyService/Cluster: several processes with one database and one cache.
-- MultiRegion: app/services/multi_region.py.
-- Api: the handlers of app/api and app/core/dependencies.py, and the token checks of
-- app/core/security.py. ConfigControl: app/services/config_control_sync.py with its route of
-- app/api/internal.py and its schemas of app/schemas/internal.py; what ConfigControl answers is a
-- parameter.
-- Serving: the dependencies of app/core/dependencies.py over `request.app.state`, with the limited routes
-- of app/api/demo.py, app/api/services.py and app/api/internal.py, from the request to the response.
-- Shell: app/main.py, with the pings, the messages and the closing of clients as its environment;
-- Shell/Config: app/core/config.py; Shell/Health: app/services/health_service.py; Shell/Observability:
-- app/middleware/observability.py with the labelled counters of the requests.
-- Schema: the migration of alembic/versions, with the columns of the table.
-- Scripts: scripts/seed_demo_policies.py (Scripts/Seed), scripts/run_benchmark.py with the hosts that
-- Locust reads back (Scripts/Benchmark, with its `main` in Scripts/Benchmark/Run),
-- scripts/run_multi_region_simulation.py (Scripts/Simulation), and loadtests/locustfile.py
-- (Scripts/LoadTest); Scripts/Results: the directories and files that they write.
-- Tests: evaluations at concrete inputs, on small servers that meet the interfaces.
--
-- Times are natural numbers of milliseconds, and counts are natural numbers; both are below 2 ** 53
-- in any run, so that the doubles of Lua hold them exactly. The loop over the attempts
-- takes its number of rounds from the settings, and the loop over the events of the simulation takes
-- two rounds for each request; neither runs out of them.
-- A script runs atomically, as the server guarantees; each call of the local limiter holds its lock.
--
-- A commit refuses a name that is taken and numbers that are no integers of 32 bits; the texts of
-- policies hold no NUL. The writes and prints of the scripts may raise, and a write that raises may
-- leave part of its text.
--
-- The operations of PolicyService are those of one process, one after the other. Of several processes,
-- Cluster takes the reads apart at each `await`; a write is there a transaction, and the deletion of
-- the cached list another step, so that reads come between them. A process acts on a list at most
-- `delay_ms` after it was given it, which the timeouts of the clients are to bound.
--
-- Not modelled: logging, the pause between attempts, the latencies,
-- the environment of the migrations, and the web framework, which are calls of libraries.
pub mod Base
pub mod Policy
pub mod Keys
pub mod Float
pub mod Algorithms
pub mod Local
pub mod Redis
pub mod Limiter
pub mod MultiRegion
pub mod PolicyService
pub mod Api
pub mod Serving
pub mod Schema
pub mod Shell
pub mod ConfigControl
pub mod Scripts
mod Tests
