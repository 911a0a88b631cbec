-- ===== src/Core/Config/Tests.antt =====
-- Settings that are accepted and refused, and the theorems at them.
use platinum_gold_backend.Prelude.{codes, pos, false, none, some, [], ◌∷◌, ◌≡◌, refl}
use platinum_gold_backend.Value.{str, int}
use platinum_gold_backend.Core.Config.DatabaseUrl.{cache_size_ok, validate_database_url}
use platinum_gold_backend.Core.Config.DatabaseUrl.CacheSize.{
  is_small_numeral, cache_size_ok-is_small_numeral,
}
use platinum_gold_backend.Core.Config.RedisUrl.{validate_redis_url}
use platinum_gold_backend.Core.Config.Settings.{validate_settings, validate_ingestion_settings}
use platinum_gold_backend.Core.Config.Settings.Targets.{
  IsAccepted, validate_ingestion_settings-IsAccepted,
}
use platinum_gold_backend.Core.Config.Settings.Runtime.{IsRunnable, validate_settings-IsRunnable}
use platinum_gold_backend.Core.Config.Samples.{
  database_url, redis_url, platform, no_loopback, raw, settings, ingestion_settings, validating,
}

accepts_database : validate_database_url platform (str database_url) ≡ some database_url
unfolding validating
accepts_database = refl

accepts_redis : validate_redis_url platform (str redis_url) ≡ some redis_url
unfolding validating
accepts_redis = refl

accepts_settings : validate_settings platform no_loopback raw ≡ some settings
unfolding validating
accepts_settings = refl

accepts_ingestion :
    validate_ingestion_settings platform no_loopback (codes "PATH" ∷ []) raw
    ≡ some ingestion_settings
unfolding validating
accepts_ingestion = refl

refuses :
    (validate_database_url platform (int (pos 1)) ≡ none)
    × (validate_ingestion_settings platform no_loopback (codes "PGHOST" ∷ []) raw ≡ none)
    × (validate_settings platform no_loopback
          (record raw { redis_max_connections = some (pos 101) })
        ≡ none)
    × (cache_size_ok (codes "1001") ≡ false)
    × (cache_size_ok (codes "00001") ≡ false)
unfolding validating
refuses = (refl, refl, refl, refl, refl)

cache_size_ok-is_small_numeral_example :
    cache_size_ok (codes "0999") ≡ is_small_numeral (codes "0999")
cache_size_ok-is_small_numeral_example = cache_size_ok-is_small_numeral (codes "0999")

validate_settings-IsRunnable_example : IsRunnable platform no_loopback settings
validate_settings-IsRunnable_example =
    validate_settings-IsRunnable platform no_loopback raw settings accepts_settings

validate_ingestion_settings-IsAccepted_example :
    IsAccepted platform no_loopback (codes "PATH" ∷ []) ingestion_settings
validate_ingestion_settings-IsAccepted_example =
    validate_ingestion_settings-IsAccepted platform no_loopback (codes "PATH" ∷ []) raw
      ingestion_settings accepts_ingestion
