-- ===== src/Items/Service/Tests.antt =====
-- The service over a repository of one item and a cache that holds it, and fails otherwise.
use platinum_gold_backend.Prelude.Decimal.{show, show_int, read}
use platinum_gold_backend.Items.Cache.Redis.{key, item_suffix}
use platinum_gold_backend.Items.Schemas.{ItemResponse}
use platinum_gold_backend.Items.Repository.{ItemRecord, ItemRepository}
use platinum_gold_backend.Prelude.{none, ◌∷◌, arith, text_eq, codes, pos, some, [], ◌≡◌, refl}
use platinum_gold_backend.Errors.{
  ok, raised, redis_connection_error, value_error, is_os_error, sqlalchemy_error, Outcome,
}
use platinum_gold_backend.Exec.{pure, raise, ◌>>=◌, ◌>>◌}
use platinum_gold_backend.Items.Cache.Client.{missed}
use platinum_gold_backend.Items.Cache.Fake.{params}
use platinum_gold_backend.Items.Service.{
  ItemCache, is_cache_failure, to_item_response, item_not_found, log_cache_failure, get_by_game_id,
}
use platinum_gold_backend.Items.Service.Failures.{
  from_database, get_by_game_id-hit, get_by_game_id-cache_down, get_by_game_id-unexpected,
  get_by_game_id-not_found,
}
use platinum_gold_backend.Items.Service.Cached.{
  item_answer, read_item, get_by_game_id-invalidate, get_by_game_id-get_by_game_id,
}
use platinum_gold_backend.Items.Cache.Fake as Fake
use platinum_gold_backend.Items.Cache.Generation.{invalidate}
use platinum_gold_backend.Items.Service.Samples.{
  World, logger, name_of, brimstone, repository, cache,
}

-- The record whose response is what the fake codec reads.
abbrev known : ItemRecord
known = record brimstone { introduced_in_version = some (codes "rebirth") }

get_by_game_id-hit_example :
    get_by_game_id logger name_of repository cache (pos 118) []
    ≡ (ok (to_item_response brimstone), [])
get_by_game_id-hit_example =
    get_by_game_id-hit logger name_of repository cache (pos 118) [] [] (to_item_response brimstone)
      (some (codes "100")) refl

asks_database :
    get_by_game_id logger name_of repository cache (pos 7) []
    ≡ (repository.get_by_game_id (pos 7)
          >>= from_database logger name_of repository cache (pos 7) [] [])
        (log_cache_failure logger name_of (codes "read") (codes "item") redis_connection_error [])
asks_database =
    get_by_game_id-cache_down logger name_of repository cache (pos 7) [] [] redis_connection_error
      refl (unfold is_cache_failure in refl)

running : Unit {0}
unfolding Fake.fake_redis_lem key item_suffix show show_int read text_eq to_item_response
running = tt

-- a cache whose generation factory is broken, and one that misses
abbrev broken : ItemCache World
broken = record cache { get_item = λ id. raise (value_error (codes "bad")) }

abbrev empty : ItemCache World
empty = record cache { get_item = λ id. pure (missed (some (codes "100"))) }

raises_unexpected :
    get_by_game_id logger name_of repository broken (pos 118) []
    ≡ (raised (value_error (codes "bad")), [])
raises_unexpected =
    get_by_game_id-unexpected logger name_of repository broken (pos 118) [] []
      (value_error (codes "bad")) refl (unfold is_cache_failure is_os_error in refl)

finds_nothing :
    get_by_game_id logger name_of repository empty (pos 7) []
    ≡ (raised (item_not_found (pos 7)), [])
finds_nothing =
    get_by_game_id-not_found logger name_of repository empty (pos 7) [] [] (some (codes "100")) []
      refl refl

-- A database of one item beside the fake Redis, and one that is down.
abbrev one_item : ItemRepository Fake.FakeWorld
one_item = record {
  get_catalog_meta = pure (record { items = pos 1; metadata = none });
  get_by_game_id = λ id. pure (some known);
  list_items = λ q ql t v s o l k. pure (known ∷ []);
  count_items = λ q ql t v. pure (pos 1);
  get_random = λ q ql t v. pure (some known);
}

abbrev unreachable : ItemRepository Fake.FakeWorld
unreachable = record one_item { get_by_game_id = λ id. raise sqlalchemy_error }

get_by_game_id-invalidate_example :
    ((invalidate Fake.logger Fake.cache
        >> read_item Fake.logger name_of Fake.fake_codec Fake.cache Fake.fake_redis_lem unreachable
            (pos 118))
      Fake.start).0
    ≡ item_answer (pos 118) (raised sqlalchemy_error)
get_by_game_id-invalidate_example =
    get_by_game_id-invalidate Fake.logger name_of Fake.fake_codec Fake.cache Fake.fake_redis_lem
      unreachable (pos 118) 100 Fake.start (omega arith) (unfold running in refl)
      (unfold running in refl) refl

abbrev filled : Outcome ItemResponse × Fake.FakeWorld
filled =
    read_item Fake.logger name_of Fake.fake_codec Fake.cache Fake.fake_redis_lem one_item (pos 118)
      Fake.start

get_by_game_id-get_by_game_id_example :
    (filled.0 ≡ ok (to_item_response known))
    × (read_item Fake.logger name_of Fake.fake_codec Fake.cache Fake.fake_redis_lem unreachable
          (pos 118)
          filled.1
        ≡ (ok (to_item_response known), filled.1))
get_by_game_id-get_by_game_id_example =
    get_by_game_id-get_by_game_id Fake.logger name_of Fake.fake_codec Fake.cache Fake.fake_redis_lem
      one_item known 100 unreachable Fake.start (omega arith) (unfold running in refl)
      (unfold running in refl) refl (λ v k. refl) refl (unfold running in omega arith)
      (unfold running in refl)
