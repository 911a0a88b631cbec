-- ===== src/Health.antt =====
-- app/health: the probes of the two services, and the answers of the two routes.
pub mod Probes
mod Tests
use platinum_gold_backend.Prelude.{
  ℕ, ℤ, Text, codes, Bool, true, false, ◌&&◌, ◌||◌, List, [], ◌∷◌, if◌then◌else◌,
}
use platinum_gold_backend.Errors.{Exc, is_os_error, is_redis_error, is_sqlalchemy_error}
use platinum_gold_backend.Exec.{Exec, pure, raise, effect, try_except, try_finally, ◌>>=◌, ◌>>◌}
use platinum_gold_backend.Core.Exceptions.{ErrorDetail}
use platinum_gold_backend.Core.Log.{Logger, LogRecord, text}

pub record ReadinessResult : Type 0 where
  pub database : Bool
  pub redis : Bool

-- the property
abbrev pub is_ready : ReadinessResult → Bool
is_ready result = result.database && result.redis

-- What the checks stand on: the engine (a connection is entered and left as a context manager,
-- `select_1` is `execute(text("SELECT 1"))`), Redis, the logger, and of asyncio `timeout`, tasks and
-- `gather`. A task is named by the coroutine that it runs; `cancel_all` cancels both tasks and
-- waits for them.
pub record Probing (W C : Type 0) : Type 1 where
  pub connect : Exec W C
  pub leave_ok : C → Exec W Unit
  pub leave_error : Exc → C → Exec W Unit
  pub select_1 : C → Exec W Unit
  pub ping : Exec W Bool
  pub logger : Logger W
  pub name_of : Exc → Text
  pub timeout : {A : Type 0} → ℤ → Exec W A → Exec W A
  pub gather : Exec W Bool → Exec W Bool → Exec W (Bool × Bool)
  pub cancel_all : Exec W Unit

-- `except (TimeoutError, OSError, SQLAlchemyError)`
abbrev pub is_database_failure : Exc → Bool
is_database_failure e = is_os_error e || is_sqlalchemy_error e

-- `except (TimeoutError, OSError, RedisError)`
abbrev pub is_redis_failure : Exc → Bool
is_redis_failure e = is_os_error e || is_redis_error e

-- `except BaseException`
abbrev pub is_any : Exc → Bool
is_any e = true

abbrev pub failure_record : Text → Text → LogRecord
failure_record dependency name = record {
  event = codes "readiness_check_failed";
  extra = (codes "dependency", text dependency) ∷ (codes "exception_type", text name) ∷ [];
}

pub data State : Type 0 where
  up down : State

abbrev pub state_of : Bool → State
state_of true = up
state_of false = down

pub record ServiceStates : Type 0 where
  pub database : State
  pub redis : State

-- The answers: `HealthResponse`, `ReadinessResponse`, and `ReadinessUnavailableResponse` with its
-- status.
pub data HealthAnswer : Type 0 where
  healthy : HealthAnswer
  ready : ServiceStates → HealthAnswer
  unavailable : ℕ → ErrorDetail → ServiceStates → HealthAnswer

abbrev pub states_of : ReadinessResult → ServiceStates
states_of result = record { database = state_of result.database; redis = state_of result.redis }

abbrev pub service_unavailable_detail : ErrorDetail
service_unavailable_detail = record {
  code = codes "SERVICE_UNAVAILABLE";
  message = codes "A required service is unavailable";
}

unfoldable pub answer_of : ReadinessResult → HealthAnswer
answer_of result =
    if is_ready result
    then ready (states_of result)
    else unavailable 503 service_unavailable_detail (states_of result)

unfoldable pub liveness : HealthAnswer
liveness = healthy

abbrev pub result_of : Bool × Bool → ReadinessResult
result_of (database, redis) = record { database = database; redis = redis }

module _ {W C : Type 0} (probing : Probing W C) (seconds : ℤ) where
  -- `_log_failure`
  abbrev pub log_failure : Text → Exc → Exec W Bool
  log_failure dependency e =
      effect (probing.logger.warning (failure_record dependency (probing.name_of e))) false

  -- `async with engine.connect() as connection: …`; leaving does not swallow an exception
  abbrev pub select_in : C → Exec W Unit
  select_in connection =
      try_except (probing.select_1 connection) is_any
        (λ e. probing.leave_error e connection >> raise e)
      >> probing.leave_ok connection

  abbrev pub probe_database : Exec W Unit
  probe_database = do connection ← probing.connect; select_in connection

  -- `_database_is_ready`
  unfoldable pub database_is_ready : Exec W Bool
  database_is_ready =
      try_except (probing.timeout seconds probe_database >> pure true) is_database_failure
        (log_failure (codes "database"))

  -- `_redis_is_ready`
  unfoldable pub redis_is_ready : Exec W Bool
  redis_is_ready =
      try_except (probing.timeout seconds probing.ping) is_redis_failure
        (log_failure (codes "redis"))

  abbrev pub gathered : Exec W (Bool × Bool)
  gathered =
      try_except (probing.gather database_is_ready redis_is_ready) is_any
        (λ e. probing.cancel_all >> raise e)

  -- `ReadinessChecks.run`
  unfoldable pub run : Exec W ReadinessResult
  run = do both ← gathered; pure (result_of both)

  unfoldable pub readiness : Exec W HealthAnswer
  readiness = do result ← run; pure (answer_of result)
