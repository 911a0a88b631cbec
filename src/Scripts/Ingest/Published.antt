-- ===== src/Scripts/Ingest/Published.antt =====
-- What it means that the ingestion command exits with 0.
use platinum_gold_backend.Prelude.{Text, ℤ, pos, Option, none, some, List, ◌≡◌, refl, ap, ◌∙◌, sym}
use platinum_gold_backend.Errors.{
  Exc, request_validation_error, app_error, http_exception, invalid_api_key, auth_unavailable,
  clerk_base_error, os_error, timeout_error, redis_connection_error, redis_timeout_error,
  redis_response_error, redis_error, sqlalchemy_error, postgres_error, interface_error, value_error,
  unicode_error, validation_error, snapshot_load_error, configuration_error,
  cache_invalidation_error, attribute_error, unexpected, cancelled, is_os_error, is_driver_error,
  is_sqlalchemy_error, is_value_error, is_exception, Outcome, ok, raised,
}
use platinum_gold_backend.Exec.{
  Exec, pure, >>=-step, try_finally-end, ◌>>=◌, ◌>>◌, >>=-eq-ok, try_except-eq-ok,
  try_finally-eq-ok,
}
use platinum_gold_backend.Items.Cache.Client.{RedisItemCache, validate_ttl, new_cache}
use platinum_gold_backend.Items.Cache.Generation.{invalidate}
use platinum_gold_backend.Items.Schemas.{DateTime}
use platinum_gold_backend.Core.Clients.{Engine, Redis, create_database, create_redis}
use platinum_gold_backend.Ingestion.Service.{ingest}
use platinum_gold_backend.Core.Config.Settings.{IngestionSettings, validate_ingestion_settings}
use platinum_gold_backend.Ingestion.Schemas.{ItemSnapshot}
use platinum_gold_backend.Ingestion.Loader.{FilePath, load_snapshot}
use platinum_gold_backend.Ingestion.Loader.Contract.{Files}
use platinum_gold_backend.Ingestion.Loader.Loaded.{IsLoaded, load_snapshot-IsLoaded}
use platinum_gold_backend.Scripts.Ingest.{
  Machine, parsed, is_invalidation_failure, read_settings, configure, with_database,
  invalidate_cache, publish_and_invalidate, make_cache, use_redis, configured, settings_or,
  with_engine, with_redis, run_ingestion, report, exit_with, exit_code, start, main,
}

module _ {W S : Type 0} (machine : Machine W S) (files : Files machine.os) where
  open machine use {platform}

  abbrev load : FilePath → Exec W ItemSnapshot
  load path = load_snapshot machine.os platform machine.parser path

  abbrev make_engine : IngestionSettings → Exec W (Engine W S)
  make_engine settings = create_database platform machine.create_async_engine settings.postgres

  abbrev make_redis : IngestionSettings → Exec W (Redis W)
  make_redis settings =
      create_redis platform machine.from_url settings.redis_url
        settings.postgres.dependency_timeout_seconds settings.redis_max_connections

  abbrev publish : ItemSnapshot → Engine W S → Exec W DateTime
  publish snapshot engine = ingest machine.clock engine.sessions machine.repository snapshot

  -- From the world `w` on, the snapshot is published through the engine and then the generation is
  -- moved on by this cache, and `v` is the world when the invalidation has returned.
  pub record IsPublication (snapshot : ItemSnapshot) (engine : Engine W S)
      (cache : RedisItemCache W) (w v : W) : Type 0 where
    pub last_sync : DateTime
    pub next : ℤ
    pub ingested : (publish snapshot engine w).0 ≡ ok last_sync
    pub invalidated : (invalidate machine.logger cache (publish snapshot engine w).1).0 ≡ ok next
    pub after : v ≡ (invalidate machine.logger cache (publish snapshot engine w).1).1

  -- The whole run from the world `w` to the world `v`, each step in the world that the step before
  -- it has left: the file is loaded, the settings are accepted, the engine and the Redis client are
  -- made of them, the snapshot is published, the cache of this Redis is invalidated, and the two
  -- clients are closed.
  pub record IsPublished (path : FilePath) (w v : W) : Type 0 where
    pub snapshot : ItemSnapshot
    pub settings : IngestionSettings
    pub engine : Engine W S
    pub redis : Redis W
    pub cache : RedisItemCache W
    pub invalid_since : W
    pub loaded : IsLoaded machine.os files platform machine.parser path w snapshot
    pub accepted :
        validate_ingestion_settings platform machine.is_loopback machine.environ machine.raw
        ≡ some settings
    pub connected : (make_engine settings (load path w).1).0 ≡ ok engine
    pub opened : (make_redis settings (make_engine settings (load path w).1).1).0 ≡ ok redis
    pub client : cache.redis ≡ redis.client
    pub publication :
        IsPublication snapshot engine cache
          (make_redis settings (make_engine settings (load path w).1).1).1
          invalid_since
    pub ended : v ≡ (engine.dispose (redis.aclose invalid_since).1).1

  published :
      (snapshot : ItemSnapshot) (engine : Engine W S) (cache : RedisItemCache W) (w : W)
      → (publish_and_invalidate machine snapshot engine cache w).0 ≡ ok tt
      → IsPublication snapshot engine cache w
          (publish_and_invalidate machine snapshot engine cache w).1
  published snapshot engine cache w h =
      let invalidation = invalidate_cache machine cache in
      let (last_sync, ingested, h1) =
        >>=-eq-ok (publish snapshot engine) (λ _. invalidation >> pure tt) w h in
      let w1 = (publish snapshot engine w).1 in
      let (next, passed, _) = >>=-eq-ok invalidation (λ _. pure tt) w1 h1 in
      let returned =
        try_except-eq-ok (invalidate machine.logger cache) is_invalidation_failure
          (λ e. cache_invalidation_error) w1 next passed in
      record {
        last_sync = last_sync;
        next = next;
        ingested = ingested;
        invalidated = returned;
        after = rw ingested (rw returned refl);
      }

  -- The cache that the command makes is a cache of its Redis client.
  made :
      (redis : Redis W) (w : W)
      → (cache : RedisItemCache W) × (make_cache machine redis w ≡ (ok cache, w))
        × (cache.redis ≡ redis.client)
  unfolding new_cache validate_ttl
  made redis w = (_, refl, refl)

  used :
      (snapshot : ItemSnapshot) (engine : Engine W S) (redis : Redis W) (w : W)
      → (use_redis machine snapshot engine redis w).0 ≡ ok tt
      → (cache : RedisItemCache W) × (v : W) × (cache.redis ≡ redis.client)
        × IsPublication snapshot engine cache w v
        × ((use_redis machine snapshot engine redis w).1 ≡ (redis.aclose v).1)
  used snapshot engine redis w h =
      let (cache, making, client) = made redis w in
      let publishing = λ (c : RedisItemCache W). publish_and_invalidate machine snapshot engine c in
      let body = make_cache machine redis >>= publishing in
      let same = >>=-step (make_cache machine redis) publishing w making in
      let returned = try_finally-eq-ok body redis.aclose w tt h in
      let closed = try_finally-end body redis.aclose w in
      (
        cache,
        (publishing cache w).1,
        client,
        published snapshot engine cache w (ap (λ r. r.0) (sym same) ∙ returned),
        closed ∙ ap (λ r. (redis.aclose r.1).1) same,
      )

  settings_or-ok :
      (o : Option IngestionSettings) (w : W) (settings : IngestionSettings)
      → (settings_or machine o w).0 ≡ ok settings
      → o ≡ some settings
  settings_or-ok none w settings h = cc
  settings_or-ok (some s) w settings h = cc

  -- No failure is reported with the code 0.
  report-zero : (e : Exc) (w : W) → (exit_with machine e (report machine e) w).0 ≡ ok (pos 0) → ⊥
  unfolding report is_exception is_os_error is_driver_error is_sqlalchemy_error
  report-zero (app_error a b c) w h = cc
  report-zero (http_exception a b) w h = cc
  report-zero invalid_api_key w h = cc
  report-zero auth_unavailable w h = cc
  report-zero (clerk_base_error a) w h = cc
  report-zero os_error w h = cc
  report-zero timeout_error w h = cc
  report-zero redis_connection_error w h = cc
  report-zero redis_timeout_error w h = cc
  report-zero redis_response_error w h = cc
  report-zero redis_error w h = cc
  report-zero sqlalchemy_error w h = cc
  report-zero postgres_error w h = cc
  report-zero interface_error w h = cc
  report-zero (value_error a) w h = cc
  report-zero unicode_error w h = cc
  report-zero (validation_error a) w h = cc
  report-zero (snapshot_load_error a) w h = cc
  report-zero configuration_error w h = cc
  report-zero cache_invalidation_error w h = cc
  report-zero attribute_error w h = cc
  report-zero (unexpected a) w h = cc
  report-zero cancelled w h = cc
  report-zero request_validation_error w h = cc

  exit_code-zero :
      (r : Outcome (Unit {0})) (w : W) → (exit_code machine r w).0 ≡ ok (pos 0) → r ≡ ok tt
  exit_code-zero (ok tt) w h = refl
  exit_code-zero (raised e) w h = absurd (report-zero e w h)

  configured-ok :
      (w : W) (both : IngestionSettings × Engine W S)
      → (configured machine w).0 ≡ ok both
      → (settings : IngestionSettings) × (engine : Engine W S) × (validate_ingestion_settings
            platform machine.is_loopback machine.environ machine.raw
          ≡ some settings)
        × ((make_engine settings w).0 ≡ ok engine)
  configured-ok w both h =
      let returned =
        try_except-eq-ok (configure machine) is_value_error (λ e. configuration_error) w both h in
      let (settings, reading, h1) =
        >>=-eq-ok (read_settings machine) (with_database machine) w returned in
      let accepted = settings_or-ok _ w settings reading in
      let same = ap (λ o. (settings_or machine o w).1) accepted in
      let moved = ap (λ v. (with_database machine settings v).0) same in
      let (engine, connected, _) =
        >>=-eq-ok (make_engine settings) (λ e. pure (settings, e)) w (sym moved ∙ h1) in
      (settings, engine, accepted, connected)

  configured-eq :
      (w : W) (settings : IngestionSettings) (engine : Engine W S)
      → validate_ingestion_settings platform machine.is_loopback machine.environ machine.raw
        ≡ some settings
      → (make_engine settings w).0 ≡ ok engine
      → configured machine w ≡ (ok (settings, engine), (make_engine settings w).1)
  configured-eq w settings engine accepted connected = rw accepted (rw connected refl)

  run_ingestion-IsPublished :
      (path : FilePath) (w : W)
      → (run_ingestion machine path w).0 ≡ ok tt
      → IsPublished path w (run_ingestion machine path w).1
  unfolding run_ingestion
  run_ingestion-IsPublished path w h =
      let rest = λ (s : ItemSnapshot). configured machine >>= with_engine machine s in
      let (snapshot, loading, h1) = >>=-eq-ok (load path) rest w h in
      let w1 = (load path w).1 in
      let (both, configuring, _) =
        >>=-eq-ok (configured machine) (with_engine machine snapshot) w1 h1 in
      let (settings, engine, accepted, connected) = configured-ok w1 both configuring in
      let w2 = (make_engine settings w1).1 in
      let step : rest snapshot w1 ≡ with_engine machine snapshot (settings, engine) w2 =
        rw (configured-eq w1 settings engine accepted connected) refl in
      let body = with_redis machine snapshot settings engine in
      let h2 = try_finally-eq-ok body engine.dispose w2 tt (ap (λ r. r.0) (sym step) ∙ h1) in
      let (redis, opened, h3) =
        >>=-eq-ok (make_redis settings) (use_redis machine snapshot engine) w2 h2 in
      let w3 = (make_redis settings w2).1 in
      let (cache, v, client, publication, closed) = used snapshot engine redis w3 h3 in
      let using =
        >>=-step (make_redis settings) (use_redis machine snapshot engine) w2
          (λ i. (opened i, w3)) in
      record {
        snapshot = snapshot;
        settings = settings;
        engine = engine;
        redis = redis;
        cache = cache;
        invalid_since = v;
        loaded =
            load_snapshot-IsLoaded machine.os files platform machine.parser path w snapshot loading;
        accepted = accepted;
        connected = connected;
        opened = opened;
        client = client;
        publication = publication;
        ended =
            ap (λ r. r.1) (>>=-step (load path) rest w (λ i. (loading i, w1)) ∙ step)
            ∙ try_finally-end body engine.dispose w2
            ∙ ap (λ u. (engine.dispose u).1) (ap (λ r. r.1) using ∙ closed);
      }

  exit_code-world : (r : Outcome (Unit {0})) (w : W) → r ≡ ok tt → (exit_code machine r w).1 ≡ w
  exit_code-world r w h = rw h refl

  -- If the command exits with 0 on an input path, then, each step in the world that the step before
  -- it has left, the whole file held at most 5 MiB and was JSON of a sound snapshot, the settings
  -- were accepted, the engine and the Redis client were made of them, the ingestion of this snapshot
  -- through this engine returned, the invalidation of a cache of this client returned, and at last
  -- the Redis client was closed and the engine disposed of.
  pub main-IsPublished :
      (argv : List Text) (path : FilePath) (w : W)
      → machine.parse_args argv ≡ parsed path
      → (main machine argv w).0 ≡ ok (pos 0)
      → IsPublished path w (main machine argv w).1
  unfolding main
  main-IsPublished argv path w arguments h =
      let run = run_ingestion machine path w in
      let returned =
        exit_code-zero run.0 run.1 (ap (λ p. (start machine p w).0) (sym arguments) ∙ h) in
      let ended =
        ap (λ p. (start machine p w).1) arguments ∙ exit_code-world run.0 run.1 returned in
      rw ended (run_ingestion-IsPublished path w returned)
