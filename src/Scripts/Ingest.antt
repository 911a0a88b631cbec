-- ===== src/Scripts/Ingest.antt =====
-- scripts/ingest.py: the command that loads a snapshot, publishes it and invalidates the cache.
pub mod Report
mod Published
mod Tests
use platinum_gold_backend.Prelude.{
  ℕ, Text, codes, ℤ, pos, Bool, true, false, ◌||◌, Option, none, some, List, ◌++◌, if◌then◌else◌,
}
use platinum_gold_backend.Errors.{
  Exc, Detail, app_error, snapshot_load_error, validation_error, configuration_error,
  cache_invalidation_error, is_os_error, is_redis_error, is_value_error, is_sqlalchemy_error,
  is_driver_error, is_exception, Outcome, ok, raised,
}
use platinum_gold_backend.Exec.{
  Exec, pure, raise, effect, lift, try_except, try_finally, ◌>>=◌, ◌>>◌,
}
use platinum_gold_backend.Value.{int}
use platinum_gold_backend.Core.Platform.{Platform}
use platinum_gold_backend.Core.Log.{Logger}
use platinum_gold_backend.Core.Clients.{
  ConnectArgs, RedisOptions, Engine, Redis, create_database, create_redis,
}
use platinum_gold_backend.Core.Config.{
  default_cache_item_ttl_seconds, default_cache_list_ttl_seconds, default_cache_meta_ttl_seconds,
}
use platinum_gold_backend.Core.Config.Settings.{
  RawSettings, IngestionSettings, validate_ingestion_settings,
}
use platinum_gold_backend.Items.Schemas.{DateTime}
use platinum_gold_backend.Items.Cache.Client.{RedisItemCache, new_cache}
use platinum_gold_backend.Items.Cache.Generation.{invalidate}
use platinum_gold_backend.Ingestion.Schemas.{ItemSnapshot}
use platinum_gold_backend.Ingestion.Repository.{IngestionRepository}
use platinum_gold_backend.Ingestion.Service.{ingest}
use platinum_gold_backend.Ingestion.Loader.{FilePath, Os, Parser, load_snapshot}
use platinum_gold_backend.Scripts.Ingest.Report.{format_validation_error}

-- What argparse makes of the arguments: a path, SystemExit with the code if it is an int (as of
-- `--help`), or a call of `error`.
pub data Parsed : Type 0 where
  parsed : FilePath → Parsed
  system_exit : Option ℤ → Parsed
  argument_error : Text → Parsed

-- What the command stands on. `environ` and `raw` are what pydantic-settings reads, `setting_errors`
-- the errors that it reports, `unicode_escape` is the codec, `print_error` writes to stderr.
pub record Machine (W S : Type 0) : Type 0 where
  pub os : Os W
  pub platform : Platform
  pub parser : Parser
  pub is_loopback : Text → Bool
  pub environ : List Text
  pub raw : RawSettings
  pub setting_errors : List Detail
  pub create_async_engine : Text → ConnectArgs → Exec W (Engine W S)
  pub from_url : Text → RedisOptions → Exec W (Redis W)
  pub clock : Exec W DateTime
  pub repository : IngestionRepository S
  pub logger : Logger W
  pub randbelow : ℕ → Exec W ℕ
  pub parse_args : List Text → Parsed
  pub unicode_escape : Text → Text
  pub print_error : Text → W → W

-- `except (OSError, TimeoutError, RedisError, ValueError)`
abbrev pub is_invalidation_failure : Exc → Bool
is_invalidation_failure e = is_os_error e || (is_redis_error e || is_value_error e)

abbrev is_app_error : Exc → Bool
is_app_error (app_error status_code code message) = true
is_app_error _ = false

-- `except (AppError, InterfaceError, OSError, PostgresError, SQLAlchemyError, TimeoutError)`
abbrev pub is_unavailable : Exc → Bool
is_unavailable e = is_app_error e || (is_driver_error e || (is_os_error e || is_sqlalchemy_error e))

module _ {W S : Type 0} (machine : Machine W S) where
  open machine use {platform}

  abbrev pub settings_or : Option IngestionSettings → Exec W IngestionSettings
  settings_or none = raise (validation_error machine.setting_errors)
  settings_or (some settings) = pure settings

  -- `settings_factory()`
  abbrev pub read_settings : Exec W IngestionSettings
  read_settings =
      settings_or
        (validate_ingestion_settings platform machine.is_loopback machine.environ machine.raw)

  -- `create_database(settings)`, kept beside the settings
  abbrev pub with_database : IngestionSettings → Exec W (IngestionSettings × Engine W S)
  with_database settings = do
    engine ← create_database platform machine.create_async_engine settings.postgres
    pure (settings, engine)

  abbrev pub configure : Exec W (IngestionSettings × Engine W S)
  configure = do settings ← read_settings; with_database settings

  abbrev pub invalidate_cache : RedisItemCache W → Exec W ℤ
  invalidate_cache cache =
      try_except (invalidate machine.logger cache) is_invalidation_failure
        (λ e. raise cache_invalidation_error)

  abbrev pub make_cache : Redis W → Exec W (RedisItemCache W)
  make_cache redis = lift (
      new_cache machine.randbelow redis.client none (int (pos default_cache_item_ttl_seconds))
        (int (pos default_cache_list_ttl_seconds)) (int (pos default_cache_meta_ttl_seconds)))

  abbrev pub ingest_snapshot : ItemSnapshot → Engine W S → Exec W DateTime
  ingest_snapshot snapshot engine = ingest machine.clock engine.sessions machine.repository snapshot

  abbrev pub publish_and_invalidate : ItemSnapshot → Engine W S → RedisItemCache W → Exec W Unit
  publish_and_invalidate snapshot engine cache = do
    ingest_snapshot snapshot engine
    invalidate_cache cache
    pure tt

  abbrev pub open_redis : IngestionSettings → Exec W (Redis W)
  open_redis settings =
      create_redis platform machine.from_url settings.redis_url
        settings.postgres.dependency_timeout_seconds settings.redis_max_connections

  -- The callbacks of the exit stack run from the last to the first, as nested `finally` blocks do.
  abbrev pub use_redis : ItemSnapshot → Engine W S → Redis W → Exec W Unit
  use_redis snapshot engine redis =
      try_finally (do cache ← make_cache redis; publish_and_invalidate snapshot engine cache)
        redis.aclose

  abbrev pub with_redis : ItemSnapshot → IngestionSettings → Engine W S → Exec W Unit
  with_redis snapshot settings engine = do
    redis ← open_redis settings
    use_redis snapshot engine redis

  -- A ValidationError is a ValueError, so one test stands for the two `except` clauses.
  abbrev pub configured : Exec W (IngestionSettings × Engine W S)
  configured = try_except configure is_value_error (λ e. raise configuration_error)

  abbrev pub with_engine : ItemSnapshot → IngestionSettings × Engine W S → Exec W Unit
  with_engine snapshot (settings, engine) =
      try_finally (with_redis snapshot settings engine) engine.dispose

  unfoldable pub run_ingestion : FilePath → Exec W Unit
  run_ingestion input_path = do
    snapshot ← load_snapshot machine.os platform machine.parser input_path
    both ← configured
    with_engine snapshot both

  -- the line for stderr and the exit code; `none` if no `except` clause names the exception
  unfoldable pub report : Exc → Option (Text × ℤ)
  report (snapshot_load_error message) = some (message, pos 2)
  report (validation_error details) =
      some (
        codes "Invalid snapshot: " ++ format_validation_error machine.unicode_escape details,
        pos 2,
      )
  report configuration_error = some (codes "Ingestion failed: configuration is invalid", pos 2)
  report cache_invalidation_error = some (
    codes
        "Ingestion failed: data was published but cache invalidation failed; repeat ingestion to retry",
    pos 1,
  )
  report e =
      if is_unavailable e
      then some (codes "Ingestion failed: required service is unavailable", pos 1)
      else if is_exception e
      then some (codes "Ingestion failed: unexpected internal error", pos 1)
      else none

  abbrev pub exit_with : Exc → Option (Text × ℤ) → Exec W ℤ
  exit_with e none = raise e
  exit_with e (some (message, code)) = effect (machine.print_error (message ++ codes "\n")) code

  abbrev pub exit_code : Outcome (Unit {0}) → Exec W ℤ
  exit_code (ok done) = pure (pos 0)
  exit_code (raised e) = exit_with e (report e)

  -- `isinstance(exc.code, int)`
  abbrev code_or_two : Option ℤ → ℤ
  code_or_two none = pos 2
  code_or_two (some code) = code

  -- `IngestionArgumentParser.error` prints a line of its own and exits with 2.
  abbrev pub start : Parsed → Exec W ℤ
  start (parsed input) w = exit_code (run_ingestion input w).0 (run_ingestion input w).1
  start (system_exit code) w = (ok (code_or_two code), w)
  start (argument_error message) w =
      (ok (pos 2), machine.print_error (codes "Invalid command-line arguments\n") w)

  unfoldable pub main : List Text → Exec W ℤ
  main argv = start (machine.parse_args argv)
