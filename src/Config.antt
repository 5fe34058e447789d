-- ===== src/Config.antt =====
-- src/config.py: class `Settings`, its fields and their defaults. Reading the environment and the
-- `.env` files is pydantic's; `base_dir` stands for BASE_DIR, the path of the checkout.
pub mod Cors
use Prim.Native.String.{◌++◌}
use events_api.Common.{ℕ, String, Bool, false, Option, none, some, List, [], ◌∷◌, ◌*◌}

pub record Settings : Type 0 where
  pub api_port : String
  pub api_host : String
  pub app_env : String
  pub benchmark_token : Option String
  pub debug : Bool
  pub log_dir : String
  pub log_file : String
  pub secret_key : String
  pub jwt_alg : String
  pub access_ttl_min : ℕ
  pub refresh_ttl_days : ℕ
  pub access_secret : String
  pub refresh_secret : String
  pub jwt_issuer : String
  pub jwt_audience : String
  pub api_prefix : String
  pub static_dir : String
  pub postgres_db : String
  pub postgres_user : String
  pub postgres_password : String
  pub postgres_host : String
  pub postgres_port : String
  pub postgres_container_name : String
  pub postgres_alembic_url : String
  pub user_db_url : String
  pub db_admin_url : Option String
  pub cors_origins : List String
  pub token_cache_prefix : String
  pub redis_url : String
  pub access_token_ttl_sec : ℕ
  pub refresh_token_ttl_sec : ℕ
  pub rate_limit_prefix : String
  pub timezone : String
  pub metrics_host : String
  pub metrics_port : String
  pub metrics_path : String

unfoldable pub default_settings : String → Settings
default_settings base_dir = record {
  api_port = "8002";
  api_host = "0.0.0.0";
  app_env = "dev";
  benchmark_token = none;
  debug = false;
  log_dir = base_dir ++ "/src/logs";
  log_file = base_dir ++ "/src/logs/app.log";
  secret_key = "change-me";
  jwt_alg = "HS256";
  access_ttl_min = 15;
  refresh_ttl_days = 7;
  access_secret = "access-secret";
  refresh_secret = "refresh-secret";
  jwt_issuer = "your-auth";
  jwt_audience = "auth_api";
  api_prefix = "";
  static_dir = base_dir ++ "/static";
  postgres_db = "robomate";
  postgres_user = "robomate";
  postgres_password = "robomate";
  postgres_host = "localhost";
  postgres_port = "5432";
  postgres_container_name = "postgres";
  postgres_alembic_url = "";
  user_db_url = "";
  db_admin_url = some "";
  cors_origins = "*" ∷ [];
  token_cache_prefix = "fapi-tokens";
  redis_url = "redis://localhost:6379/0";
  access_token_ttl_sec = 900;
  refresh_token_ttl_sec = 60 * 60 * 24;
  rate_limit_prefix = "fapi-limiter";
  timezone = "Europe/Kyiv";
  metrics_host = "0.0.0.0";
  metrics_port = "8003";
  metrics_path = "/metrics";
}
