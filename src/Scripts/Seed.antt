-- ===== src/Scripts/Seed.antt =====
-- scripts/seed_demo_policies.py: the demo policies, and the loop that creates those whose names
-- are missing.
pub mod Missing
pub mod Again
use distributed_rate_limiter.Base.{List, Option, [], false, inl, inr, none, some, true, ℕ, ◌+◌, ◌∷◌}
use distributed_rate_limiter.Base.Text.{Text, codes}
use distributed_rate_limiter.Policy.{
  PolicyCreate, token_bucket, sliding_window_log, fixed_window, fail_open, fail_closed,
}
use distributed_rate_limiter.PolicyService.Libraries.{Library}
use distributed_rate_limiter.PolicyService.{
  ServiceError, CacheSettings, Calls, Store, list_policies, create_policy,
}
use distributed_rate_limiter.Scripts.{for_route, per_minute, names_of, contains}

abbrev pub seed_policies : List PolicyCreate
seed_policies =
    per_minute (codes "demo-public-route") (codes "Fail-open public route policy for demos.")
      token_bucket 30 (some 60) (for_route (codes "/demo/public")) fail_open
    ∷ per_minute (codes "demo-protected-route") (codes "Fail-closed protected route policy.")
        token_bucket 10 (some 15) (for_route (codes "/demo/protected")) fail_closed
    ∷ per_minute (codes "vip-user-route") (codes "User-specific override for the demo user route.")
        sliding_window_log 20 none
        (record (for_route (codes "/demo/user/{user_id}")) { user_id = some (codes "vip-user") })
        fail_closed
    ∷ per_minute (codes "platform-auth-service")
        (codes "Platform auth service login throttling policy.") token_bucket 25 (some 25)
        (for_route (codes "/services/auth/session")) fail_closed
    ∷ per_minute (codes "platform-payments-service")
        (codes "Platform payments service authorization policy.") sliding_window_log 12 none
        (for_route (codes "/services/payments/authorize")) fail_closed
    ∷ per_minute (codes "platform-search-service")
        (codes "Platform search service query throttling policy.") fixed_window 40 none
        (for_route (codes "/services/search/query")) fail_closed
    ∷ []

-- What the database and the clock give to a new row, and what Redis does meanwhile.
pub record Creation : Type 0 where
  pub new_id : Text
  pub at_ms : ℕ
  pub calls : Calls

module _ (l : Library) (settings : CacheSettings) (creations : ℕ → Creation) where
  -- The loop over the payloads, with the names that were there before it. An exception ends it.
  unfoldable pub create_missing :
      List Text → ℕ → List PolicyCreate → Store l → Option ServiceError × Store l
  create_missing existing n [] s = (none, s)
  create_missing existing n (payload ∷ payloads) s =
      let c = creations n in
      let (result, s') = create_policy l settings c.calls c.new_id c.at_ms payload s in
      elim (contains payload.name existing) [
        | true ↦ create_missing existing n payloads s
        | false ↦ elim result [
          | inl e ↦ (some e, s')
          | inr row ↦ create_missing existing (n + 1) payloads s'
        ]
      ]

  -- `main`
  unfoldable pub seed_demo_policies : Store l → Option ServiceError × Store l
  unfolding create_missing
  seed_demo_policies s = create_missing (names_of (list_policies l false s.rows)) 0 seed_policies s
