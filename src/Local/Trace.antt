-- ===== src/Local/Trace.antt =====
-- Requests to the local limiter, one after another.
use distributed_rate_limiter.Base.{List, [], none, ℕ, ◌∷◌}
use distributed_rate_limiter.Float.{Float}
use distributed_rate_limiter.Policy.{Policy}
use distributed_rate_limiter.Keys.{RequestIdentity}
use distributed_rate_limiter.Local.{LocalFallbackLimiter, LocalFallbackDecision, apply}

-- A call of `apply` for a policy, made when the clock shows `at_ms`.
pub record Call : Type 0 where
  pub policy : Policy
  pub identity : RequestIdentity
  pub at_ms : ℕ

module _ (fl : Float) where
  unfoldable pub run_local :
      LocalFallbackLimiter fl.F → List Call → List (Call × LocalFallbackDecision)
  run_local s [] = []
  run_local s (c ∷ cs) =
      let (d, s') = apply fl c.policy c.identity none c.at_ms s in (c, d) ∷ run_local s' cs
