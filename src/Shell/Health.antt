-- ===== src/Shell/Health.antt =====
-- app/services/health_service.py and app/schemas/health.py.
use distributed_rate_limiter.Base.{Bool, Option, false, none, some, true}
use distributed_rate_limiter.Base.Text.{Text, codes}
use distributed_rate_limiter.Shell.Config.{Settings}

pub record DependencyHealth : Type 0 where
  pub ok : Bool
  pub details : Text

pub record HealthResponse : Type 0 where
  pub service : Text
  pub environment : Text
  pub instance_name : Text
  pub postgres : DependencyHealth
  pub redis : DependencyHealth

-- `_check_postgres` and `_check_redis`, for the text of the exception that the ping raises, if it
-- does, and the text of success.
abbrev pub check : Option Text → Text → DependencyHealth
check none reachable = record { ok = true; details = reachable }
check (some raised) reachable = record { ok = false; details = raised }

-- `get_health`
unfoldable pub get_health : Settings → Option Text → Option Text → HealthResponse
get_health settings postgres_raised redis_raised = record {
  service = settings.project_name;
  environment = settings.environment;
  instance_name = settings.app_instance_name;
  postgres = check postgres_raised (codes "postgres reachable");
  redis = check redis_raised (codes "redis reachable");
}
