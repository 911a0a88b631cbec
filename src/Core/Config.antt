-- ===== src/Core/Config.antt =====
-- app/core/config.py: the constants, the tests on characters and hosts that the settings share.
-- The validators are in DatabaseUrl and RedisUrl, the settings classes in Settings.
mod Tests
pub mod Samples
pub mod Settings
pub mod Ports
pub mod RedisUrl
pub mod DatabaseUrl
use platinum_gold_backend.Prelude.{
  ℕ, ◌+◌, Text, codes, Bool, true, false, ltb, leb, ◌&&◌, ◌||◌, not, ◌==◌, text_eq, mem_text, any,
  is_control, is_empty, length, Option, none, some, List, [], ◌∷◌, ◌++◌, if◌then◌else◌,
}
use platinum_gold_backend.Core.Platform.{Platform}

-- Literal["development", "test", "production"]
pub data Environment : Type 0 where
  development test production : Environment

abbrev pub is_production : Environment → Bool
is_production production = true
is_production development = false
is_production test = false

abbrev pub max_prepared_statement_cache_size : ℕ
max_prepared_statement_cache_size = 1000

abbrev pub max_redis_database : ℕ
max_redis_database = 15

abbrev pub default_redis_max_connections : ℕ
default_redis_max_connections = 20

abbrev pub max_redis_connections : ℕ
max_redis_connections = 100

abbrev pub default_cache_item_ttl_seconds : ℕ
default_cache_item_ttl_seconds = 86400

abbrev pub default_cache_list_ttl_seconds : ℕ
default_cache_list_ttl_seconds = 900

abbrev pub default_cache_meta_ttl_seconds : ℕ
default_cache_meta_ttl_seconds = 86400

abbrev pub max_cache_ttl_seconds : ℕ
max_cache_ttl_seconds = 604800

abbrev pub ingestion_unix_socket_paths : List Text
ingestion_unix_socket_paths = codes "/run/postgresql" ∷ codes "/var/run/postgresql" ∷ []

abbrev pub database_environment_overrides : List Text
database_environment_overrides =
    codes "PGHOST"
    ∷ codes "PGPORT"
    ∷ codes "PGSERVICE"
    ∷ codes "PGSERVICEFILE"
    ∷ codes "PGUSER"
    ∷ codes "PGPASSWORD"
    ∷ codes "PGPASSFILE"
    ∷ codes "PGDATABASE"
    ∷ codes "PGSSLMODE"
    ∷ codes "PGSSLROOTCERT"
    ∷ codes "PGSSLCERT"
    ∷ codes "PGSSLKEY"
    ∷ codes "PGSSLCRL"
    ∷ codes "PGSSLPASSWORD"
    ∷ codes "PGSSLNEGOTIATION"
    ∷ codes "PGSSLMINPROTOCOLVERSION"
    ∷ codes "PGSSLMAXPROTOCOLVERSION"
    ∷ codes "PGTARGETSESSIONATTRS"
    ∷ codes "PGKRBSRVNAME"
    ∷ codes "PGGSSLIB"
    ∷ codes "SSLKEYLOGFILE"
    ∷ codes "SSL_CERT_FILE"
    ∷ codes "SSL_CERT_DIR"
    ∷ []

-- `s or ""`
abbrev pub or_empty : Option Text → Text
or_empty none = []
or_empty (some s) = s

-- `s == ""`, of a string or None
abbrev pub is_blank : Option Text → Bool
is_blank none = false
is_blank (some s) = is_empty s

-- `s.count(c)`
abbrev pub count : ℕ → Text → ℕ
count c [] = 0
count c (d ∷ s) = let rest = count c s in if d == c then rest + 1 else rest

abbrev pub ends_with_colon : Text → Bool
ends_with_colon [] = false
ends_with_colon (c ∷ []) = c == b':'
ends_with_colon (c ∷ d ∷ s) = ends_with_colon (d ∷ s)

abbrev pub ends_with_at : Text → Bool
ends_with_at [] = false
ends_with_at (c ∷ []) = c == b'@'
ends_with_at (c ∷ d ∷ s) = ends_with_at (d ∷ s)

-- `{",", "@", "/", "\\", "?", "#", "[", "]"}`
abbrev pub is_delimiter : ℕ → Bool
is_delimiter c =
    c == b','
    || c == b'@'
    || c == b'/'
    || c == b'\\'
    || c == b'?'
    || c == b'#'
    || c == b'['
    || c == b']'

-- character.isspace() or ord(character) < 32 or ord(character) == 127
abbrev pub is_unsafe : Platform → ℕ → Bool
is_unsafe platform c = platform.isspace c || is_control c

-- port is not None and not 1 <= port <= 65535
abbrev pub port_refused : Option ℕ → Bool
port_refused none = false
port_refused (some port) = not (leb 1 port && leb port 65535)

-- `ip_address(host).is_loopback` is a parameter; it is false where `ip_address` raises ValueError.
unfoldable pub is_loopback_host : (Text → Bool) → Option Text → Bool
is_loopback_host is_loopback none = false
is_loopback_host is_loopback (some hostname) =
    text_eq hostname (codes "localhost") || is_loopback hostname
