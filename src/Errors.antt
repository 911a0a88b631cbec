-- ===== src/Errors.antt =====
-- Exceptions. The classes that app/core/exceptions.py, app/auth/principal.py,
-- app/ingestion/loader.py and scripts/ingest.py declare, and those of the libraries that the
-- program's `except` clauses name. An `except` clause is a Boolean test on a value.
use platinum_gold_backend.Prelude.{ℕ, Text, codes, Bool, true, false, List}

-- One entry of `ValidationError.errors()`: the joined location and the message.
pub record Detail : Type 0 where
  pub loc : List Text
  pub msg : Text

pub data Exc : Type 0 where
  -- AppError(status_code, code, message), and any other HTTPException with its headers
  app_error : ℕ → Text → Text → Exc
  http_exception : ℕ → List (Text × Text) → Exc
  -- app/auth/principal.py, and the Clerk SDK's ClerkBaseError with its status
  invalid_api_key : Exc
  auth_unavailable : Exc
  clerk_base_error : ℕ → Exc
  -- OSError, and its subclass TimeoutError
  os_error : Exc
  timeout_error : Exc
  -- redis.exceptions: ConnectionError, TimeoutError, ResponseError, other RedisErrors
  redis_connection_error : Exc
  redis_timeout_error : Exc
  redis_response_error : Exc
  redis_error : Exc
  -- SQLAlchemyError, asyncpg's PostgresError and InterfaceError
  sqlalchemy_error : Exc
  postgres_error : Exc
  interface_error : Exc
  -- ValueError, and its subclasses UnicodeDecodeError, ValidationError, SnapshotLoadError
  value_error : Text → Exc
  unicode_error : Exc
  validation_error : List Detail → Exc
  snapshot_load_error : Text → Exc
  -- fastapi: RequestValidationError
  request_validation_error : Exc
  -- scripts/ingest.py
  configuration_error : Exc
  cache_invalidation_error : Exc
  -- AttributeError, any other Exception, and a BaseException such as CancelledError
  attribute_error : Exc
  unexpected : Text → Exc
  cancelled : Exc

-- The result of a call: the value returned, or the exception raised.
pub data Outcome {ℓ} (A : Type ℓ) : Type ℓ where
  ok : A → Outcome A
  raised : Exc → Outcome A

-- `except OSError`, TimeoutError included
unfoldable pub is_os_error : Exc → Bool
is_os_error os_error = true
is_os_error timeout_error = true
is_os_error _ = false

-- `except RedisError`
unfoldable pub is_redis_error : Exc → Bool
is_redis_error redis_connection_error = true
is_redis_error redis_timeout_error = true
is_redis_error redis_response_error = true
is_redis_error redis_error = true
is_redis_error _ = false

-- `except ValueError`
unfoldable pub is_value_error : Exc → Bool
is_value_error (value_error m) = true
is_value_error unicode_error = true
is_value_error (validation_error ds) = true
is_value_error (snapshot_load_error m) = true
is_value_error _ = false

-- `except UnicodeDecodeError`
unfoldable pub is_unicode_error : Exc → Bool
is_unicode_error unicode_error = true
is_unicode_error _ = false

unfoldable pub is_sqlalchemy_error : Exc → Bool
is_sqlalchemy_error sqlalchemy_error = true
is_sqlalchemy_error _ = false

-- `except (InterfaceError, PostgresError)`
unfoldable pub is_driver_error : Exc → Bool
is_driver_error postgres_error = true
is_driver_error interface_error = true
is_driver_error _ = false

-- `except Exception`: all but a BaseException
unfoldable pub is_exception : Exc → Bool
is_exception cancelled = false
is_exception _ = true

-- The answer that every failing dependency is turned into.
abbrev pub service_unavailable : Exc
service_unavailable =
    app_error 503 (codes "SERVICE_UNAVAILABLE") (codes "A required service is unavailable")
