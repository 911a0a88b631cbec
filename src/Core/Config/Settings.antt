-- ===== src/Core/Config/Settings.antt =====
-- app/core/config.py: `PostgresSettings`, `Settings` and `IngestionSettings`. What pydantic-settings
-- reads of the environment and of .env is a record of the raw values, `none` for one that is not
-- set; a ValidationError is `none`. A float of seconds is its number of microseconds.
pub mod Targets
pub mod Runtime
use platinum_gold_backend.Prelude.{
  ℕ, Text, codes, ℤ, pos, lebℤ, Bool, true, false, leb, ◌&&◌, ◌||◌, not, ◌==◌, text_eq, mem_text,
  any, is_some, length, Option, none, some, List, [], ◌∷◌, if◌then◌else◌,
}
use platinum_gold_backend.Prelude.Options.{◌>>=◌, ◌>>◌, ensure}
use platinum_gold_backend.Value.{Value}
use platinum_gold_backend.Core.Platform.{SplitUrl, Platform}
use platinum_gold_backend.Core.Config.{
  Environment, development, test, production, is_production, default_redis_max_connections,
  max_redis_connections, default_cache_item_ttl_seconds, default_cache_list_ttl_seconds,
  default_cache_meta_ttl_seconds, max_cache_ttl_seconds, ingestion_unix_socket_paths,
  database_environment_overrides,
}
use platinum_gold_backend.Core.Config.DatabaseUrl.{Query, has_key, validate_database_url}
use platinum_gold_backend.Core.Config.RedisUrl.{validate_redis_url, validate_production_redis}

pub record RawSettings : Type 0 where
  pub environment : Option Text
  pub database_url : Option Value
  pub dependency_timeout_seconds : Option ℤ
  pub redis_url : Option Value
  pub redis_max_connections : Option ℤ
  pub cache_item_ttl_seconds : Option ℤ
  pub cache_list_ttl_seconds : Option ℤ
  pub cache_meta_ttl_seconds : Option ℤ
  pub log_level : Option Text
  pub clerk_secret_key : Option Text

pub record PostgresSettings : Type 0 where
  pub environment : Environment
  pub database_url : Text
  pub dependency_timeout_seconds : ℤ

pub record Settings : Type 0 where
  pub postgres : PostgresSettings
  pub open postgres use *
  pub log_level : Text
  pub redis_url : Text
  pub redis_max_connections : ℤ
  pub cache_item_ttl_seconds : ℤ
  pub cache_list_ttl_seconds : ℤ
  pub cache_meta_ttl_seconds : ℤ
  pub clerk_secret_key : Option Text

pub record IngestionSettings : Type 0 where
  pub postgres : PostgresSettings
  pub open postgres use *
  pub redis_url : Text
  pub redis_max_connections : ℤ

unfoldable pub environment_of : Option Text → Option Environment
environment_of none = some development
environment_of (some s) =
    if text_eq s (codes "development")
    then some development
    else if text_eq s (codes "test")
    then some test
    else if text_eq s (codes "production")
    then some production
    else none

abbrev pub log_levels : List Text
log_levels = codes "DEBUG" ∷ codes "INFO" ∷ codes "WARNING" ∷ codes "ERROR" ∷ codes "CRITICAL" ∷ []

unfoldable pub log_level_of : Option Text → Option Text
log_level_of none = some (codes "INFO")
log_level_of (some s) = if mem_text s log_levels then some s else none

-- Field(default=2.0, gt=0, le=30)
unfoldable pub timeout_of : Option ℤ → Option ℤ
timeout_of none = some (pos 2000000)
timeout_of (some n) = if lebℤ (pos 1) n && lebℤ n (pos 30000000) then some n else none

-- Field(default=…, ge=1, le=…), and gt=0 is the same of an int
unfoldable pub bounded : ℕ → ℕ → Option ℤ → Option ℤ
bounded default most none = some (pos default)
bounded default most (some n) = if lebℤ (pos 1) n && lebℤ n (pos most) then some n else none

abbrev pub local_hosts : List Text
local_hosts = codes "localhost" ∷ codes "127.0.0.1" ∷ codes "::1" ∷ []

abbrev pub is_remote : Option Text → Bool
is_remote none = false
is_remote (some hostname) = not (mem_text hostname local_hosts)

-- `query_values.get("host", [])`, with the key as it stands
abbrev pub hosts_of : Query → List Text
hosts_of [] = []
hosts_of ((key, values) ∷ rest) =
    let others = hosts_of rest in if text_eq key (codes "host") then values else others

abbrev pub approved_socket : List Text → Bool
approved_socket (host ∷ []) = mem_text host ingestion_unix_socket_paths
approved_socket _ = false

abbrev pub explicit_target : SplitUrl → Option Query → Bool
explicit_target database none = false
explicit_target database (some query) =
    is_some database.hostname || approved_socket (hosts_of query)

-- `environ` holds the names of the variables that are set.
unfoldable pub reject_database_driver_environment : List Text → Bool
reject_database_driver_environment environ =
    not (any (λ variable. mem_text variable environ) database_environment_overrides)

abbrev pub has_credentials : Option SplitUrl → Bool
has_credentials none = false
has_credentials (some database) =
    not (is_remote database.hostname) || (is_some database.username && is_some database.password)

module _ (platform : Platform) where
  open platform use {urlsplit, parse_qs}

  abbrev pub names_target : SplitUrl → Option Query → Bool
  names_target database none = false
  names_target database (some query) =
      is_some database.hostname || has_key platform (codes "host") query

  abbrev pub split_names_target : Option SplitUrl → Bool
  split_names_target none = false
  split_names_target (some database) = names_target database (parse_qs database.query)

  -- The query is read whatever the environment is.
  abbrev pub readable : Option SplitUrl → Bool
  readable none = false
  readable (some database) = is_some (parse_qs database.query)

  unfoldable pub require_production_database_tls : PostgresSettings → Bool
  require_production_database_tls s =
      readable (urlsplit s.database_url)
      && (not (is_production s.environment) || split_names_target (urlsplit s.database_url))

  -- The property; `none` where urlsplit raises.
  unfoldable pub database_requires_tls : Text → Option Bool
  database_requires_tls database_url = do
    database ← urlsplit database_url
    some (is_remote database.hostname)

  unfoldable pub validate_postgres_settings : RawSettings → Option PostgresSettings
  validate_postgres_settings raw = do
    environment ← environment_of raw.environment
    given ← raw.database_url
    database_url ← validate_database_url platform given
    timeout ← timeout_of raw.dependency_timeout_seconds
    let s : PostgresSettings = record {
      environment = environment;
      database_url = database_url;
      dependency_timeout_seconds = timeout;
    } in
        (do ensure (require_production_database_tls s); some s)

  module _ (is_loopback : Text → Bool) where
    unfoldable pub validate_settings : RawSettings → Option Settings
    validate_settings raw = do
      postgres ← validate_postgres_settings raw
      log_level ← log_level_of raw.log_level
      given ← raw.redis_url
      redis_url ← validate_redis_url platform given
      connections ←
          bounded default_redis_max_connections max_redis_connections raw.redis_max_connections
      item_ttl ←
          bounded default_cache_item_ttl_seconds max_cache_ttl_seconds raw.cache_item_ttl_seconds
      list_ttl ←
          bounded default_cache_list_ttl_seconds max_cache_ttl_seconds raw.cache_list_ttl_seconds
      meta_ttl ←
          bounded default_cache_meta_ttl_seconds max_cache_ttl_seconds raw.cache_meta_ttl_seconds
      ensure (validate_production_redis platform is_loopback postgres.environment redis_url)
      some (record {
        postgres = postgres;
        log_level = log_level;
        redis_url = redis_url;
        redis_max_connections = connections;
        cache_item_ttl_seconds = item_ttl;
        cache_list_ttl_seconds = list_ttl;
        cache_meta_ttl_seconds = meta_ttl;
        clerk_secret_key = raw.clerk_secret_key;
      })

    abbrev pub split_explicit_target : Option SplitUrl → Bool
    split_explicit_target none = false
    split_explicit_target (some database) = explicit_target database (parse_qs database.query)

    unfoldable pub require_explicit_database_target : Text → Bool
    require_explicit_database_target database_url = split_explicit_target (urlsplit database_url)

    unfoldable pub require_remote_database_credentials : Text → Bool
    require_remote_database_credentials database_url = has_credentials (urlsplit database_url)

    unfoldable pub validate_ingestion_settings : List Text → RawSettings → Option IngestionSettings
    validate_ingestion_settings environ raw = do
      postgres ← validate_postgres_settings raw
      given ← raw.redis_url
      redis_url ← validate_redis_url platform given
      connections ←
          bounded default_redis_max_connections max_redis_connections raw.redis_max_connections
      ensure (validate_production_redis platform is_loopback postgres.environment redis_url)
      ensure (require_explicit_database_target postgres.database_url)
      ensure (reject_database_driver_environment environ)
      ensure (require_remote_database_credentials postgres.database_url)
      some (record {
        postgres = postgres;
        redis_url = redis_url;
        redis_max_connections = connections;
      })
