-- ===== src/Core/Config/Settings/Runtime.antt =====
-- What the settings of the API guarantee once they are accepted.
use platinum_gold_backend.Prelude.{
  ℕ, ◌≤◌, Text, codes, ℤ, pos, negsuc, lebℤ, Bool, true, false, leb, ◌&&◌, text_eq, is_some_eq,
  Option, none, some, ◌≡◌, refl, arith, Bool-cases, ◌⊎◌, inl, inr, and-eq-true_iff,
}
use platinum_gold_backend.Prelude.Options.{>>=-some, ensure->>-some, some-injective}
use platinum_gold_backend.Core.Platform.{SplitUrl, Platform}
use platinum_gold_backend.Core.Clients.{RedisOptions, redis_ssl_of, redis_options}
use platinum_gold_backend.Core.Config.{
  is_production, default_redis_max_connections, max_redis_connections,
  default_cache_item_ttl_seconds, default_cache_list_ttl_seconds, default_cache_meta_ttl_seconds,
  max_cache_ttl_seconds, is_loopback_host,
}
use platinum_gold_backend.Core.Config.RedisUrl.{
  validate_redis_url, remote_redis_ok, validate_production_redis,
}
use platinum_gold_backend.Core.Config.RedisUrl.Accepted.{IsRedisUrl, validate_redis_url-IsRedisUrl}
use platinum_gold_backend.Core.Config.DatabaseUrl.Accepted.{IsDatabaseUrl}
use platinum_gold_backend.Core.Config.Settings.Targets.{validate_postgres_settings-IsDatabaseUrl}
use platinum_gold_backend.Core.Config.Settings.{
  RawSettings, Settings, log_level_of, bounded, validate_postgres_settings, validate_settings,
}

-- a number of 1 to `most`
abbrev pub IsWithin : ℕ → ℤ → Type 0
IsWithin most (pos n) = (1 ≤ n) × (n ≤ most)
IsWithin most (negsuc n) = ⊥

within : (most : ℕ) (n : ℤ) → (lebℤ (pos 1) n && lebℤ n (pos most)) ≡ true → IsWithin most n
within most (pos n) h = ground arith
within most (negsuc n) h = absurd (ground arith)

bounded-IsWithin :
    (default most : ℕ) (o : Option ℤ) (n : ℤ)
    → (leb 1 default && leb default most) ≡ true
    → bounded default most o ≡ some n
    → IsWithin most n
unfolding bounded
bounded-IsWithin default most none n l h =
    let same = some-injective h in rw (← same) (within most (pos default) l)
bounded-IsWithin default most (some m) n l h =
    elim (Bool-cases (lebℤ (pos 1) m && lebℤ m (pos most))) [
      | inl e ↦ let same = some-injective (rw e at h) in rw (← same) (within most m e)
      | inr e ↦ absurd (none-ne-some (rw e at h))
    ]
  where
    none-ne-some : {a : ℤ} → none ≡ some a → ⊥
    none-ne-some x = cc

module _ (platform : Platform) (is_loopback : Text → Bool) where
  open platform use {urlsplit}

  -- Redis on this machine, or over TLS with its certificate and host name checked, and a password.
  pub data IsSafeRedis (s : Settings) : Type 0 where
    loopback :
        (redis : SplitUrl)
        → urlsplit s.redis_url ≡ some redis
        → is_loopback_host is_loopback redis.hostname ≡ true
        → IsSafeRedis s
    verified :
        (redis : SplitUrl) (password : Text) (options : RedisOptions)
        → urlsplit s.redis_url ≡ some redis
        → redis_options platform s.redis_url s.dependency_timeout_seconds s.redis_max_connections
          ≡ some options
        → options.ssl
          ≡ some (record { ssl_cert_reqs = codes "required"; ssl_check_hostname = true })
        → redis.password ≡ some password
        → IsSafeRedis s

  pub record IsRunnable (s : Settings) : Type 0 where
    pub database : IsDatabaseUrl platform s.database_url
    pub redis : IsRedisUrl platform s.redis_url
    pub connections : IsWithin max_redis_connections s.redis_max_connections
    pub item_ttl : IsWithin max_cache_ttl_seconds s.cache_item_ttl_seconds
    pub list_ttl : IsWithin max_cache_ttl_seconds s.cache_list_ttl_seconds
    pub meta_ttl : IsWithin max_cache_ttl_seconds s.cache_meta_ttl_seconds
    pub safe_redis : (is_production s.environment ≡ false) ⊎ IsSafeRedis s

  abbrev options_of : Settings → SplitUrl → RedisOptions
  options_of s redis = record {
    decode_responses = true;
    socket_connect_timeout = s.dependency_timeout_seconds;
    socket_timeout = s.dependency_timeout_seconds;
    max_connections = s.redis_max_connections;
    ssl = redis_ssl_of redis;
  }

  safe_of :
      (s : Settings) (redis : SplitUrl)
      → urlsplit s.redis_url ≡ some redis
      → remote_redis_ok platform is_loopback redis ≡ true
      → IsSafeRedis s
  unfolding redis_options
  safe_of s redis es h = elim (Bool-cases (is_loopback_host is_loopback redis.hostname)) [
    | inl near ↦ loopback redis es near
    | inr far ↦
        let (tls, secret) =
          (and-eq-true_iff (text_eq redis.scheme (codes "rediss")) _).0 (rw far at h) in
        let (password, ep) = is_some_eq redis.password secret in
        verified redis password (options_of s redis) es (rw es) (rw tls) ep
  ]

  production_of :
      (s : Settings)
      → IsRedisUrl platform s.redis_url
      → validate_production_redis platform is_loopback s.environment s.redis_url ≡ true
      → (is_production s.environment ≡ false) ⊎ IsSafeRedis s
  unfolding validate_production_redis
  production_of s u h = elim (Bool-cases (is_production s.environment)) [
    | inr other ↦ inl other
    | inl live ↦ inr (safe_of s u.parsed u.split (rw u.split at (rw live at h)))
  ]

  -- Settings of the API that are accepted name a valid database and Redis, a pool of 1 to 100 connections and
  -- times to live of 1 second to 7 days; in production Redis is on this machine, or reached over
  -- verified TLS with a password.
  pub validate_settings-IsRunnable :
      (raw : RawSettings) (s : Settings)
      → validate_settings platform is_loopback raw ≡ some s
      → IsRunnable s
  unfolding validate_settings
  validate_settings-IsRunnable raw s h =
      let (postgres, e1, h1) = >>=-some (validate_postgres_settings platform raw) _ s h in
      let (level, e2, h2) = >>=-some (log_level_of raw.log_level) _ s h1 in
      let (given, e3, h3) = >>=-some raw.redis_url _ s h2 in
      let (redis_url, e4, h4) = >>=-some (validate_redis_url platform given) _ s h3 in
      let (connections, e5, h5) =
        >>=-some
          (bounded default_redis_max_connections max_redis_connections raw.redis_max_connections) _
          s h4 in
      let (item, e6, h6) =
        >>=-some
          (bounded default_cache_item_ttl_seconds max_cache_ttl_seconds raw.cache_item_ttl_seconds)
          _ s h5 in
      let (list, e7, h7) =
        >>=-some
          (bounded default_cache_list_ttl_seconds max_cache_ttl_seconds raw.cache_list_ttl_seconds)
          _ s h6 in
      let (meta, e8, h8) =
        >>=-some
          (bounded default_cache_meta_ttl_seconds max_cache_ttl_seconds raw.cache_meta_ttl_seconds)
          _ s h7 in
      let (live, made) = ensure->>-some _ _ s h8 in
      let same = some-injective made in
      let url = (validate_redis_url-IsRedisUrl platform given redis_url e4).1 in
      rw (← same) (record {
        database = validate_postgres_settings-IsDatabaseUrl platform is_loopback raw postgres e1;
        redis = url;
        connections =
            bounded-IsWithin default_redis_max_connections max_redis_connections
              raw.redis_max_connections connections refl e5;
        item_ttl =
            bounded-IsWithin default_cache_item_ttl_seconds max_cache_ttl_seconds
              raw.cache_item_ttl_seconds item refl e6;
        list_ttl =
            bounded-IsWithin default_cache_list_ttl_seconds max_cache_ttl_seconds
              raw.cache_list_ttl_seconds list refl e7;
        meta_ttl =
            bounded-IsWithin default_cache_meta_ttl_seconds max_cache_ttl_seconds
              raw.cache_meta_ttl_seconds meta refl e8;
        safe_redis = production_of _ url live;
      })
