-- ===== src/Scripts/Benchmark/Scenarios.antt =====
-- The names of the scenarios.
use distributed_rate_limiter.Base.{
  All, All_Elem, Bool-cases, Elem, List, [], inl, inr, refl, some, sym, true, ◌||◌, ◌∷◌, ◌≡◌,
}
use distributed_rate_limiter.Base.Text.{Text, codes, text_eq}
use distributed_rate_limiter.Keys.{strip}
use distributed_rate_limiter.Policy.{validate}
use distributed_rate_limiter.Scripts.LoadTest.{
  Task, sends_in, public_endpoint, protected_endpoint, protected_burst_endpoint, user_endpoint,
  ip_hotspot_endpoint, search_service_endpoint,
}
use distributed_rate_limiter.Scripts.Benchmark.{
  scenario_aliases, lookup, normalize_scenario, display_scenario_name, benchmark_policy_payloads,
  lower,
}

lookup-Elem :
    {A : Type 0} (key : Text) (table : List (Text × A)) (v : A)
    → lookup key table ≡ some v
    → (k : Text) × Elem (k, v) table
unfolding lookup
lookup-Elem key [] v e = absurd (cc)
lookup-Elem key ((k, w) ∷ table) v e = elim (Bool-cases (text_eq k key)) [
  | inl is ↦
      let found : some w ≡ some v = rw is at e in
      (k, inl (let same : w ≡ v = cc in λ i. (k, sym same i)))
  | inr other ↦ let (k', mem) = lookup-Elem key table v (rw other at e) in (k', inr mem)
]

-- The internal name has a label, the label stands for it, and there is a task for it.
abbrev pub IsLabelled : Text → Type 0
IsLabelled internal =
    (label : Text) × (display_scenario_name internal ≡ some label)
    × (normalize_scenario label ≡ some internal)
    × ((task : Task) × (sends_in internal task ≡ true))

aliases-IsLabelled : All (λ a. IsLabelled a.1) scenario_aliases
unfolding display_scenario_name normalize_scenario strip sends_in
aliases-IsLabelled = (
  (codes "mixed", refl, refl, (public_endpoint, refl)),
  (
    (codes "shared-quota", refl, refl, (protected_endpoint, refl)),
    (
      (codes "shared-quota", refl, refl, (protected_endpoint, refl)),
      (
        (codes "burst-route", refl, refl, (protected_burst_endpoint, refl)),
        (
          (codes "burst-route", refl, refl, (protected_burst_endpoint, refl)),
          (
            (codes "user-hotspot", refl, refl, (user_endpoint, refl)),
            (
              (codes "ip-hotspot", refl, refl, (ip_hotspot_endpoint, refl)),
              ((codes "platform-services", refl, refl, (search_service_endpoint, refl)), tt),
            ),
          ),
        ),
      ),
    ),
  ),
)

-- Whatever scenario the argument names, `display_scenario_name` has a label for it, so that it
-- raises nothing, the label given as the argument names the same scenario, and the load test has a
-- task that sends requests in this scenario.
pub normalize_scenario_roundtrip :
    (raw_scenario internal_scenario : Text)
    → normalize_scenario raw_scenario ≡ some internal_scenario
    → (label : Text) × (display_scenario_name internal_scenario ≡ some label)
      × (normalize_scenario label ≡ some internal_scenario)
      × ((task : Task) × (sends_in internal_scenario task ≡ true))
normalize_scenario_roundtrip raw internal e =
    let (k, mem) =
      lookup-Elem (lower (strip raw)) scenario_aliases internal (unfold normalize_scenario in e) in
    All_Elem (λ a. IsLabelled a.1) scenario_aliases (k, internal) aliases-IsLabelled mem

-- Every policy of every scenario passes the checks of the schema.
pub validate-benchmark_policy_payloads :
    (scenario : Text) → All (λ p. validate p ≡ true) (benchmark_policy_payloads scenario)
unfolding benchmark_policy_payloads validate
validate-benchmark_policy_payloads scenario =
    let burst =
      text_eq scenario (codes "protected-burst") || text_eq scenario (codes "shared-protected") in
    elim (Bool-cases burst) [
      | inl e ↦ rw e (refl, tt)
      | inr e ↦ rw e (elim (Bool-cases (text_eq scenario (codes "user-hotspot"))) [
        | inl u ↦ rw u (refl, tt)
        | inr u ↦ rw u (elim (Bool-cases (text_eq scenario (codes "ip-hotspot"))) [
          | inl h ↦ rw h (refl, tt)
          | inr h ↦ rw h (elim (Bool-cases (text_eq scenario (codes "platform-services"))) [
            | inl k ↦ rw k (refl, (refl, (refl, tt)))
            | inr k ↦ rw k (refl, (refl, tt))
          ])
        ])
      ])
    ]
