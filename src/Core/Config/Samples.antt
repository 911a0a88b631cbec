-- ===== src/Core/Config/Samples.antt =====
-- Settings of a command in production, on a platform that knows their two URLs.
use platinum_gold_backend.Prelude.{
  Text, codes, pos, Bool, false, text_eq, ◌==◌, none, some, [], ◌∷◌, if◌then◌else◌,
}
use platinum_gold_backend.Prelude.Decimal.{read}
use platinum_gold_backend.Value.{str}
use platinum_gold_backend.Core.Platform.{SplitUrl, Platform}
use platinum_gold_backend.Core.Config.{production, is_loopback_host}
use platinum_gold_backend.Core.Config.DatabaseUrl.{
  cache_size_ok, is_unix_socket, database_url_refused, validate_database_url,
}
use platinum_gold_backend.Core.Config.RedisUrl.{
  redis_url_refused, validate_redis_url, validate_production_redis,
}
use platinum_gold_backend.Core.Config.Settings.{
  RawSettings, PostgresSettings, Settings, IngestionSettings, environment_of, log_level_of,
  timeout_of, bounded, require_production_database_tls, validate_postgres_settings,
  validate_settings, require_explicit_database_target, reject_database_driver_environment,
  require_remote_database_credentials, validate_ingestion_settings,
}

abbrev pub database_url : Text
database_url = codes "postgresql+asyncpg://u:p@db.example/app?prepared_statement_cache_size=0100"

abbrev pub redis_url : Text
redis_url = codes "rediss://:secret@cache.example/2"

abbrev pub split_database : SplitUrl
split_database = record {
  scheme = codes "postgresql+asyncpg";
  netloc = codes "u:p@db.example";
  path = codes "/app";
  query = codes "prepared_statement_cache_size=0100";
  fragment = [];
  username = some (codes "u");
  password = some (codes "p");
  hostname = some (codes "db.example");
  port = some none;
}

abbrev pub split_redis : SplitUrl
split_redis = record {
  scheme = codes "rediss";
  netloc = codes ":secret@cache.example";
  path = codes "/2";
  query = [];
  fragment = [];
  username = none;
  password = some (codes "secret");
  hostname = some (codes "cache.example");
  port = some none;
}

abbrev pub platform : Platform
platform = record {
  isspace = λ c. c == b' ';
  lower = λ t. t;
  strip = λ t. t;
  urlsplit = λ t.
      if text_eq t database_url
      then some split_database
      else if text_eq t redis_url
      then some split_redis
      else none;
  unquote = λ t. t;
  parse_qs = λ t. some ((codes "prepared_statement_cache_size", codes "0100" ∷ []) ∷ []);
}

abbrev pub no_loopback : Text → Bool
no_loopback t = false

abbrev pub raw : RawSettings
raw = record {
  environment = some (codes "production");
  database_url = some (str database_url);
  dependency_timeout_seconds = none;
  redis_url = some (str redis_url);
  redis_max_connections = some (pos 100);
  cache_item_ttl_seconds = none;
  cache_list_ttl_seconds = some (pos 604800);
  cache_meta_ttl_seconds = none;
  log_level = none;
  clerk_secret_key = none;
}

abbrev pub postgres : PostgresSettings
postgres = record {
  environment = production;
  database_url = database_url;
  dependency_timeout_seconds = pos 2000000;
}

abbrev pub settings : Settings
settings = record {
  postgres = postgres;
  log_level = codes "INFO";
  redis_url = redis_url;
  redis_max_connections = pos 100;
  cache_item_ttl_seconds = pos 86400;
  cache_list_ttl_seconds = pos 604800;
  cache_meta_ttl_seconds = pos 86400;
  clerk_secret_key = none;
}

abbrev pub ingestion_settings : IngestionSettings
ingestion_settings = record {
  postgres = postgres;
  redis_url = redis_url;
  redis_max_connections = pos 100;
}

unfoldable pub validating : Unit {0}
unfolding text_eq read cache_size_ok is_unix_socket database_url_refused validate_database_url
    redis_url_refused validate_redis_url validate_production_redis is_loopback_host environment_of
    log_level_of timeout_of bounded require_production_database_tls validate_postgres_settings
    validate_settings require_explicit_database_target reject_database_driver_environment
    require_remote_database_credentials validate_ingestion_settings
validating = tt
