-- ===== src/Core/Clients.antt =====
-- app/core/database.py and app/core/redis.py: the options that the clients are made with, and
-- the making. The engine and the client themselves are SQLAlchemy's and redis-py's.
use platinum_gold_backend.Prelude.{
  Text, codes, ℤ, Bool, true, false, text_eq, Option, none, some, if◌then◌else◌,
}
use platinum_gold_backend.Prelude.Options.{◌>>=◌}
use platinum_gold_backend.Errors.{value_error}
use platinum_gold_backend.Exec.{Exec, raise}
use platinum_gold_backend.Core.Platform.{SplitUrl, Platform}
use platinum_gold_backend.Core.Config.Settings.{PostgresSettings, database_requires_tls}
use platinum_gold_backend.Items.Cache.Client.{RedisCacheClient}
use platinum_gold_backend.Ingestion.Service.{SessionFactory}

-- The `SSLContext` of PROTOCOL_TLS_CLIENT, as far as it is set: CERT_REQUIRED, check_hostname,
-- the two flags, and the default certificates of SERVER_AUTH.
pub record TlsContext : Type 0 where
  pub cert_required : Bool
  pub check_hostname : Bool
  pub verify_partial_chain : Bool
  pub verify_strict : Bool
  pub default_certs : Bool

pub record ConnectArgs : Type 0 where
  pub timeout : ℤ
  pub command_timeout : ℤ
  pub ssl : Option TlsContext

-- ssl_cert_reqs="required", ssl_check_hostname=True
pub record TlsOptions : Type 0 where
  pub ssl_cert_reqs : Text
  pub ssl_check_hostname : Bool

pub record RedisOptions : Type 0 where
  pub decode_responses : Bool
  pub socket_connect_timeout : ℤ
  pub socket_timeout : ℤ
  pub max_connections : ℤ
  pub ssl : Option TlsOptions

unfoldable pub tls_context : TlsContext
tls_context = record {
  cert_required = true;
  check_hostname = true;
  verify_partial_chain = true;
  verify_strict = true;
  default_certs = true;
}

abbrev pub ssl_of : Bool → Option TlsContext
ssl_of true = some tls_context
ssl_of false = none

abbrev pub redis_ssl_of : SplitUrl → Option TlsOptions
redis_ssl_of redis =
    if text_eq redis.scheme (codes "rediss")
    then some (record { ssl_cert_reqs = codes "required"; ssl_check_hostname = true })
    else none

module _ (platform : Platform) where
  -- `none` where urlsplit raises ValueError
  unfoldable pub database_connect_args : Text → ℤ → Option ConnectArgs
  database_connect_args database_url timeout = do
    requires_tls ← database_requires_tls platform database_url
    some (record { timeout = timeout; command_timeout = timeout; ssl = ssl_of requires_tls })

  -- The options that `create_redis` hands to `from_url`.
  unfoldable pub redis_options : Text → ℤ → ℤ → Option RedisOptions
  redis_options redis_url timeout max_connections = do
    redis ← platform.urlsplit redis_url
    some (record {
      decode_responses = true;
      socket_connect_timeout = timeout;
      socket_timeout = timeout;
      max_connections = max_connections;
      ssl = redis_ssl_of redis;
    })

-- `session_factory()` as a context manager
pub record SessionMaker (W S : Type 0) : Type 0 where
  pub enter : Exec W S
  pub close : S → Exec W Unit

-- What `create_async_engine` and `async_sessionmaker` make, and redis-py's `from_url`.
pub record Engine (W S : Type 0) : Type 0 where
  pub dispose : Exec W Unit
  pub sessions : SessionFactory W S
  pub session_maker : SessionMaker W S

pub record Redis (W : Type 0) : Type 0 where
  pub client : RedisCacheClient W
  pub aclose : Exec W Unit

module _ {W S : Type 0} (platform : Platform) where
  abbrev connect :
      (Text → ConnectArgs → Exec W (Engine W S)) → Text → Option ConnectArgs → Exec W (Engine W S)
  connect create_async_engine url none = raise (value_error (codes "Invalid URL"))
  connect create_async_engine url (some args) = create_async_engine url args

  -- The session factory is a part of the engine.
  unfoldable pub create_database :
      (Text → ConnectArgs → Exec W (Engine W S)) → PostgresSettings → Exec W (Engine W S)
  create_database create_async_engine settings =
      connect create_async_engine settings.database_url
        (database_connect_args platform settings.database_url settings.dependency_timeout_seconds)

module _ {W : Type 0} (platform : Platform) where
  abbrev from_options :
      (Text → RedisOptions → Exec W (Redis W)) → Text → Option RedisOptions → Exec W (Redis W)
  from_options from_url url none = raise (value_error (codes "Invalid URL"))
  from_options from_url url (some options) = from_url url options

  -- The arguments are the fields of the protocol `RedisSettings`.
  unfoldable pub create_redis :
      (Text → RedisOptions → Exec W (Redis W)) → Text → ℤ → ℤ → Exec W (Redis W)
  create_redis from_url redis_url timeout max_connections =
      from_options from_url redis_url (redis_options platform redis_url timeout max_connections)
