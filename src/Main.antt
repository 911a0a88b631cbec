-- ===== src/Main.antt =====
-- app/main.py: the lifespan of the application, from the settings to the state that the routes use.
pub mod Startup
mod Tests
use platinum_gold_backend.Prelude.{ℕ, ℤ, Text, Option, none, some}
use platinum_gold_backend.Exec.{Exec, pure, lift, try_finally, ◌>>=◌, ◌>>◌}
use platinum_gold_backend.Value.{int}
use platinum_gold_backend.Auth.{VerifiedKey, ApiKeyVerifier, bind_api_key_verifier}
use platinum_gold_backend.Core.Clients.{
  ConnectArgs, RedisOptions, Engine, Redis, create_database, create_redis,
}
use platinum_gold_backend.Core.Config.Settings.{Settings}
use platinum_gold_backend.Core.Log.{Logger}
use platinum_gold_backend.Core.Platform.{Platform}
use platinum_gold_backend.Items.Cache.Client.{Codec, RedisItemCache, new_cache}
use platinum_gold_backend.Items.Router.{AppState}
use platinum_gold_backend.Items.Service.Cached.{as_item_cache}

-- What the lifespan calls: SQLAlchemy, redis-py, secrets and Clerk's client, which is left only if
-- it was entered. `milliseconds` is `int(seconds * 1000)`.
pub record Process (W S : Type 0) : Type 0 where
  pub platform : Platform
  pub create_async_engine : Text → ConnectArgs → Exec W (Engine W S)
  pub from_url : Text → RedisOptions → Exec W (Redis W)
  pub randbelow : ℕ → Exec W ℕ
  pub enter_clerk : Text → ℕ → Exec W (Text → ℕ → Exec W VerifiedKey)
  pub leave_clerk : Exec W Unit
  pub milliseconds : ℤ → ℕ
  pub logger : Logger W
  pub codec : Codec
  pub app_version : Text

module _ {W S : Type 0} (process : Process W S) (settings : Settings) where
  open process use {platform}

  abbrev pub start_redis : Exec W (Redis W)
  start_redis =
      create_redis platform process.from_url settings.redis_url settings.dependency_timeout_seconds
        settings.redis_max_connections

  abbrev pub start_cache : Redis W → Exec W (RedisItemCache W)
  start_cache redis = lift (
      new_cache process.randbelow redis.client none (int settings.cache_item_ttl_seconds)
        (int settings.cache_list_ttl_seconds) (int settings.cache_meta_ttl_seconds))

  abbrev pub start_verifier : Exec W (ApiKeyVerifier W)
  start_verifier =
      bind_api_key_verifier process.enter_clerk settings.clerk_secret_key
        (process.milliseconds settings.dependency_timeout_seconds)

  -- `app.state` once it is complete
  abbrev pub state_of : Engine W S → RedisItemCache W → ApiKeyVerifier W → AppState W S
  state_of engine cache verifier = record {
    session_factory = some engine.session_maker;
    item_cache = some (as_item_cache process.logger process.codec cache);
    api_key_verifier = some verifier;
    version = process.app_version;
  }

  module _ (serve : AppState W S → Exec W Unit) where
    -- From the client of Clerk on: `serve` is what happens at the `yield`.
    abbrev pub with_cache : Engine W S → RedisItemCache W → Exec W Unit
    with_cache engine cache = do
      verifier ← start_verifier
      try_finally (serve (state_of engine cache verifier)) process.leave_clerk

    abbrev pub with_redis : Engine W S → Redis W → Exec W Unit
    with_redis engine redis =
        try_finally (do cache ← start_cache redis; with_cache engine cache) redis.aclose

    abbrev pub with_engine : Engine W S → Exec W Unit
    with_engine engine =
        try_finally (do redis ← start_redis; with_redis engine redis) engine.dispose

    -- `lifespan`; the callbacks of the exit stack run from the last to the first.
    unfoldable pub lifespan : Exec W Unit
    lifespan = do
      engine ← create_database platform process.create_async_engine settings.postgres
      with_engine engine
