-- ===== src/Tests/Drivers.antt =====
-- The scripts at concrete inputs.
use distributed_rate_limiter.Base.{
  All, List, [], ap, false, inl, inr, none, refl, some, sym, true, ℕ, ◌++◌, ◌+◌, ◌∙◌, ◌∷◌, ◌≡◌,
}
use distributed_rate_limiter.Base.Text.{Text, codes, text_eq}
use distributed_rate_limiter.Keys.{strip}
use distributed_rate_limiter.Policy.{Policy, PolicyCreate, fixed_window, fail_closed, validate}
use distributed_rate_limiter.PolicyService.{Store}
use distributed_rate_limiter.Scripts.{per_minute, for_route}
use distributed_rate_limiter.Scripts.Seed.{seed_policies, Creation, seed_demo_policies}
use distributed_rate_limiter.Scripts.Seed.Missing.{Seeded}
use distributed_rate_limiter.Scripts.Seed.Again.{existing_names, seed_demo_policies_again}
use distributed_rate_limiter.Scripts.Benchmark.{
  normalize_scenario, benchmark_policy_payloads, prepare_benchmark_policies,
}
use distributed_rate_limiter.Scripts.Benchmark.Hosts.{parse_target_hosts, split_comma}
use distributed_rate_limiter.Scripts.Benchmark.Counts.{parse_error_report, is_in}
use distributed_rate_limiter.Scripts.Benchmark.Prepare.{prepare_benchmark_policies_inactive}
use distributed_rate_limiter.Tests.Sample.{user_policy}
use distributed_rate_limiter.Tests.Service.{memory, memory-Documented, settings, calls, start}

seed_policies_valid : All (λ p. validate p ≡ true) seed_policies
unfolding validate
seed_policies_valid = (refl, (refl, (refl, (refl, (refl, (refl, tt))))))

abbrev creations : ℕ → Creation
creations n = record { new_id = codes "id" ++ n ∷ []; at_ms = 5000 + n; calls = calls }

-- One of the demo policies is there already.
abbrev one_seeded : Store memory
one_seeded = record start {
  rows =
      record user_policy {
        payload = record (user_policy.payload) { name = codes "vip-user-route" };
      }
      ∷ [];
}

seed_demo_policies_again_example :
    let seeded = seed_demo_policies memory settings creations one_seeded in
    Seeded memory memory-Documented settings creations
      (existing_names memory memory-Documented settings one_seeded)
      seed_policies
      one_seeded
      seeded
    × (seed_demo_policies memory settings creations seeded.1 ≡ (none, seeded.1))
seed_demo_policies_again_example =
    seed_demo_policies_again memory memory-Documented settings creations creations one_seeded

burst_argument : normalize_scenario (codes " Burst-Route ") ≡ some (codes "protected-burst")
unfolding normalize_scenario strip
burst_argument = refl

two_hosts :
    parse_target_hosts (codes " http://a:8000/, ,http://b")
    ≡ some (codes "http://a:8000" ∷ codes "http://b" ∷ [])
unfolding parse_target_hosts strip split_comma
two_hosts = refl

abbrev report : List (ℕ × Text)
report =
    (12, codes "GET /demo/protected: rate_limit_blocked")
    ∷ (3, codes "GET /demo/protected: unexpected server error 503")
    ∷ []

report_is : parse_error_report report ≡ (12, 3)
unfolding parse_error_report is_in
report_is = refl

-- A row that a benchmark left, and that was switched off.
abbrev switched_off : Policy
switched_off = record user_policy {
  payload = record (user_policy.payload) { name = codes "benchmark-ip-hotspot"; active = false };
}

abbrev with_inactive : Store memory
with_inactive = record start { rows = switched_off ∷ [] }

abbrev ip_payload : PolicyCreate
ip_payload =
    per_minute (codes "benchmark-ip-hotspot") (codes "Benchmark policy for a single forwarded IP.")
      fixed_window 60 none
      (record (for_route (codes "/demo/protected")) { ip_address = some (codes "203.0.113.10") })
      fail_closed

ip_payloads : benchmark_policy_payloads (codes "ip-hotspot") ≡ ip_payload ∷ []
unfolding benchmark_policy_payloads
ip_payloads = refl

prepare_benchmark_policies_inactive_example :
    prepare_benchmark_policies memory settings creations (codes "ip-hotspot") with_inactive
    ≡ (false, with_inactive)
unfolding text_eq
prepare_benchmark_policies_inactive_example =
    prepare_benchmark_policies_inactive memory memory-Documented settings creations
      (codes "ip-hotspot") ip_payload [] with_inactive switched_off ip_payloads (inl refl) refl refl
      (λ q mem active. elim mem [
        | inl e ↦ let no : false ≡ true = ap (λ p. p.active) (sym e) ∙ active in absurd (cc)
        | inr m ↦ absurd m
      ])
