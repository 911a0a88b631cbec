-- ===== src/Core/Config/Settings/Targets.antt =====
-- Where an ingestion connects to, once its settings are accepted.
use platinum_gold_backend.Prelude.{
  Text, ℤ, Bool, true, false, mem_text, any, is_some_eq, Option, none, some, List, [], ◌∷◌, ◌≡◌,
  refl, arith, Bool-cases, inl, inr, and-eq-true_iff, true_of_not,
}
use platinum_gold_backend.Prelude.Options.{>>=-some, ensure->>-some, some-injective}
use platinum_gold_backend.Core.Platform.{SplitUrl, Platform}
use platinum_gold_backend.Core.Clients.{TlsContext, tls_context, database_connect_args}
use platinum_gold_backend.Core.Config.{
  default_redis_max_connections, max_redis_connections, ingestion_unix_socket_paths,
  database_environment_overrides,
}
use platinum_gold_backend.Core.Config.DatabaseUrl.{Query, validate_database_url}
use platinum_gold_backend.Core.Config.DatabaseUrl.Accepted.{
  IsDatabaseUrl, validate_database_url-IsDatabaseUrl,
}
use platinum_gold_backend.Core.Config.RedisUrl.{validate_redis_url}
use platinum_gold_backend.Core.Config.RedisUrl.Accepted.{IsRedisUrl, validate_redis_url-IsRedisUrl}
use platinum_gold_backend.Core.Config.Settings.{
  RawSettings, PostgresSettings, IngestionSettings, environment_of, timeout_of, bounded,
  local_hosts, is_remote, database_requires_tls, validate_postgres_settings, hosts_of,
  approved_socket, explicit_target, require_explicit_database_target,
  reject_database_driver_environment, has_credentials, require_remote_database_credentials,
  validate_ingestion_settings,
}

module _ (platform : Platform) (is_loopback : Text → Bool) where
  open platform use {urlsplit, parse_qs}

  -- certificate and host name are checked, with both flags, against the default certificates
  abbrev pub verified_tls : TlsContext
  verified_tls = record {
    cert_required = true;
    check_hostname = true;
    verify_partial_chain = true;
    verify_strict = true;
    default_certs = true;
  }

  -- A host of this machine, a remote host over verified TLS with a user and a password, or one of
  -- the two PostgreSQL sockets.
  pub data IsTarget (url : Text) (timeout : ℤ) : Type 0 where
    local :
        (database : SplitUrl) (hostname : Text)
        → urlsplit url ≡ some database
        → database.hostname ≡ some hostname
        → mem_text hostname local_hosts ≡ true
        → IsTarget url timeout
    remote :
        (database : SplitUrl) (username password : Text)
        → urlsplit url ≡ some database
        → database_connect_args platform url timeout
          ≡ some (record { timeout = timeout; command_timeout = timeout; ssl = some verified_tls })
        → database.username ≡ some username
        → database.password ≡ some password
        → IsTarget url timeout
    socket :
        (database : SplitUrl) (query : Query) (path : Text)
        → urlsplit url ≡ some database
        → database.hostname ≡ none
        → parse_qs database.query ≡ some query
        → hosts_of query ≡ path ∷ []
        → mem_text path ingestion_unix_socket_paths ≡ true
        → IsTarget url timeout

  pub record IsAccepted (environ : List Text) (s : IngestionSettings) : Type 0 where
    pub database : IsDatabaseUrl platform s.database_url
    pub redis : IsRedisUrl platform s.redis_url
    pub target : IsTarget s.database_url s.dependency_timeout_seconds
    pub no_override :
        any (λ variable. mem_text variable environ) database_environment_overrides ≡ false

  approved :
      (hosts : List Text)
      → approved_socket hosts ≡ true
      → (path : Text) × (hosts ≡ path ∷ []) × (mem_text path ingestion_unix_socket_paths ≡ true)
  approved [] h = absurd (ground arith)
  approved (path ∷ []) h = (path, refl, h)
  approved (path ∷ other ∷ rest) h = absurd (ground arith)

  socket-IsTarget :
      (url : Text) (timeout : ℤ) (database : SplitUrl) (o : Option Query)
      → urlsplit url ≡ some database
      → database.hostname ≡ none
      → parse_qs database.query ≡ o
      → explicit_target database o ≡ true
      → IsTarget url timeout
  socket-IsTarget url timeout database none es eh eq h = absurd (ground arith)
  socket-IsTarget url timeout database (some query) es eh eq h =
      let (path, one, fine) = approved (hosts_of query) (rw eh at h) in
      socket database query path es eh eq one fine

  remote-IsTarget :
      (url : Text) (timeout : ℤ) (database : SplitUrl)
      → urlsplit url ≡ some database
      → is_remote database.hostname ≡ true
      → has_credentials (some database) ≡ true
      → IsTarget url timeout
  unfolding database_connect_args database_requires_tls tls_context
  remote-IsTarget url timeout database es far h =
      let (user, pass) = (and-eq-true_iff _ _).0 (rw far at h) in
      let (username, eu) = is_some_eq database.username user in
      let (password, ep) = is_some_eq database.password pass in
      remote database username password es (rw es (rw far)) eu ep

  hostname-IsTarget :
      (url : Text) (timeout : ℤ) (database : SplitUrl) (o : Option Text)
      → urlsplit url ≡ some database
      → database.hostname ≡ o
      → explicit_target database (parse_qs database.query) ≡ true
      → has_credentials (some database) ≡ true
      → IsTarget url timeout
  hostname-IsTarget url timeout database none es eh target creds =
      socket-IsTarget url timeout database (parse_qs database.query) es eh refl target
  hostname-IsTarget url timeout database (some hostname) es eh target creds =
      elim (Bool-cases (mem_text hostname local_hosts)) [
        | inl near ↦ local database hostname es eh near
        | inr far ↦ remote-IsTarget url timeout database es (rw eh (rw far)) creds
      ]

  url-IsTarget :
      (url : Text) (timeout : ℤ)
      → IsDatabaseUrl platform url
      → require_explicit_database_target platform is_loopback url ≡ true
      → require_remote_database_credentials platform is_loopback url ≡ true
      → IsTarget url timeout
  unfolding require_explicit_database_target require_remote_database_credentials
  url-IsTarget url timeout u target creds =
      hostname-IsTarget url timeout u.parsed u.parsed.hostname u.split refl (rw u.split at target)
        (rw u.split at creds)

  pub validate_postgres_settings-IsDatabaseUrl :
      (raw : RawSettings) (s : PostgresSettings)
      → validate_postgres_settings platform raw ≡ some s
      → IsDatabaseUrl platform s.database_url
  unfolding validate_postgres_settings
  validate_postgres_settings-IsDatabaseUrl raw s h =
      let (environment, e1, h1) = >>=-some (environment_of raw.environment) _ s h in
      let (given, e2, h2) = >>=-some raw.database_url _ s h1 in
      let (url, e3, h3) = >>=-some (validate_database_url platform given) _ s h2 in
      let (timeout, e4, h4) = >>=-some (timeout_of raw.dependency_timeout_seconds) _ s h3 in
      let (_fine, made) = ensure->>-some _ _ s h4 in
      let same = some-injective made in
      rw (← same) (validate_database_url-IsDatabaseUrl platform given url e3).1

  -- Settings of an ingestion that are accepted name a valid database and a valid Redis, the
  -- database is on this machine, behind verified TLS with credentials, or behind an approved
  -- socket, and no variable of the driver is set that could redirect the connection.
  pub validate_ingestion_settings-IsAccepted :
      (environ : List Text) (raw : RawSettings) (s : IngestionSettings)
      → validate_ingestion_settings platform is_loopback environ raw ≡ some s
      → IsAccepted environ s
  unfolding validate_ingestion_settings reject_database_driver_environment
  validate_ingestion_settings-IsAccepted environ raw s h =
      let (postgres, e1, h1) = >>=-some (validate_postgres_settings platform raw) _ s h in
      let (given, e2, h2) = >>=-some raw.redis_url _ s h1 in
      let (redis_url, e3, h3) = >>=-some (validate_redis_url platform given) _ s h2 in
      let (connections, e4, h4) =
        >>=-some
          (bounded default_redis_max_connections max_redis_connections raw.redis_max_connections) _
          s h3 in
      let (_production, h5) = ensure->>-some _ _ s h4 in
      let (explicit, h6) = ensure->>-some _ _ s h5 in
      let (unset, h7) = ensure->>-some _ _ s h6 in
      let (creds, made) = ensure->>-some _ _ s h7 in
      let url = validate_postgres_settings-IsDatabaseUrl raw postgres e1 in
      let same = some-injective made in
      rw (← same) (record {
        database = url;
        redis = (validate_redis_url-IsRedisUrl platform given redis_url e3).1;
        target =
            url-IsTarget postgres.database_url postgres.dependency_timeout_seconds url explicit
              creds;
        no_override = true_of_not _ unset;
      })
