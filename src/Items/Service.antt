-- ===== src/Items/Service.antt =====
-- app/items/service.py: cache-aside reads. The repository and the cache are the source's protocols.

pub mod Cached
pub mod Failures
mod Tests
pub mod Samples
use platinum_gold_backend.Prelude.{
  ℕ, Text, String, codes, ℤ, Bool, true, false, Option, none, some, List, [], ◌∷◌, ◌++◌, map, ◌||◌,
}
use platinum_gold_backend.Prelude.Decimal.{show_int}
use platinum_gold_backend.Errors.{
  Exc, app_error, http_exception, invalid_api_key, auth_unavailable, clerk_base_error, os_error,
  timeout_error, redis_connection_error, redis_timeout_error, redis_response_error, redis_error,
  is_os_error,
}
use platinum_gold_backend.Exec.{Exec, pure, raise, effect, try_except, ◌>>=◌, ◌>>◌}
use platinum_gold_backend.Core.Log.{LogRecord, Logger, text}
use platinum_gold_backend.Items.Schemas.{
  ItemResponse, ItemFilterParams, ItemListParams, ItemListResponse, MetaResponse,
}
use platinum_gold_backend.Items.Repository.{
  ItemRecord, DatasetMetadataRecord, CatalogMetaRecord, ItemRepository,
}
use platinum_gold_backend.Items.Cache.Client.{CacheLookup}

-- The protocol `ItemCache` of app/items/cache.py.
pub record ItemCache (W : Type 0) : Type 0 where
  pub get_item : ℤ → Exec W (CacheLookup ItemResponse)
  pub set_item : ItemResponse → Option Text → Exec W Unit
  pub get_list : ItemListParams → Exec W (CacheLookup ItemListResponse)
  pub set_list : ItemListParams → ItemListResponse → Option Text → Exec W Unit
  pub get_meta : Text → Exec W (CacheLookup MetaResponse)
  pub set_meta : MetaResponse → Option Text → Exec W Unit

-- `except CACHE_FAILURES`
unfoldable pub is_cache_failure : Exc → Bool
unfolding is_os_error
is_cache_failure redis_connection_error = true
is_cache_failure redis_timeout_error = true
is_cache_failure redis_response_error = true
is_cache_failure e = is_os_error e

unfoldable pub to_item_response : ItemRecord → ItemResponse
to_item_response item = record {
  game_id = item.game_id;
  name = item.name;
  description = item.description;
  quality = item.quality;
  type = item.item_type;
  recharge_time = item.recharge_time;
  image_url = item.image_url;
  introduced_in_version = item.introduced_in_version;
}

-- The page that `list_items` builds from the items and the count.
unfoldable pub list_response : ItemListParams → List ItemRecord → ℤ → ItemListResponse
list_response params items total = record {
  items = map to_item_response items;
  total = total;
  limit = params.limit;
  offset = params.offset;
}

-- The metadata that `get_meta` builds.
unfoldable pub meta_response : Text → CatalogMetaRecord → MetaResponse
meta_response api_version catalog = record {
  api_version = api_version;
  dataset_version = elim catalog.metadata [
    | none ↦ none
    | some metadata ↦ some metadata.dataset_version
  ];
  game_version = elim catalog.metadata [ none ↦ none | some metadata ↦ metadata.game_version ];
  last_sync = elim catalog.metadata [ none ↦ none | some metadata ↦ some metadata.last_sync ];
  items = catalog.items;
}

-- f"Item {game_id} does not exist"
abbrev pub item_not_found : ℤ → Exc
item_not_found game_id =
    app_error 404 (codes "ITEM_NOT_FOUND")
      (codes "Item " ++ (show_int game_id ++ codes " does not exist"))

abbrev pub nothing_matches : Exc
nothing_matches = app_error 404 (codes "ITEM_NOT_FOUND") (codes "No item matches the given filters")

-- `type(exception).__name__` is a parameter.
module _ {W : Type 0} (logger : Logger W) (name_of : Exc → Text) where
  abbrev pub cache_failure : Text → Text → Exc → LogRecord
  cache_failure operation resource e = record {
    event = codes "cache_operation_failed";
    extra =
        (codes "dependency", text (codes "redis"))
        ∷ (codes "cache_operation", text operation)
        ∷ (codes "cache_resource", text resource)
        ∷ (codes "exception_type", text (name_of e))
        ∷ [];
  }

  abbrev pub log_cache_failure : Text → Text → Exc → W → W
  log_cache_failure operation resource e = logger.warning (cache_failure operation resource e)

  -- `_cache_read`: `none` is a cache that failed
  unfoldable pub cache_read :
      {A : Type 0} → Exec W (CacheLookup A) → Text → Exec W (Option (CacheLookup A))
  cache_read operation resource =
      try_except (do lookup ← operation; pure (some lookup)) is_cache_failure
        (λ e. effect (log_cache_failure (codes "read") resource e) none)

  -- `_cache_write`
  unfoldable pub cache_write : Exec W Unit → Text → Exec W Unit
  cache_write operation resource =
      try_except operation is_cache_failure
        (λ e. effect (log_cache_failure (codes "write") resource e) tt)

  -- A cache that was read is offered the response, one that failed is not.
  abbrev pub write_back :
      {A : Type 0} → Option (CacheLookup A) → (Option Text → Exec W Unit) → Text → Exec W Unit
  write_back none write resource = pure tt
  write_back (some lookup) write resource = cache_write (write lookup.generation) resource

  -- `if lookup is not None and lookup.value is not None: return lookup.value`
  abbrev pub cached_value : {A : Type 0} → Option (CacheLookup A) → Option A
  cached_value none = none
  cached_value (some lookup) = lookup.value

  module _ (repository : ItemRepository W) (cache : ItemCache W) where
    abbrev pub respond_item :
        ℤ → Option (CacheLookup ItemResponse) → Option ItemRecord → Exec W ItemResponse
    respond_item game_id lookup none = raise (item_not_found game_id)
    respond_item game_id lookup (some item) =
        let response = to_item_response item in
        do write_back lookup (cache.set_item response) (codes "item"); pure response

    abbrev pub load_item :
        ℤ → Option (CacheLookup ItemResponse) → Option ItemResponse → Exec W ItemResponse
    load_item game_id lookup (some value) = pure value
    load_item game_id lookup none = do
      item ← repository.get_by_game_id game_id
      respond_item game_id lookup item

    unfoldable pub get_by_game_id : ℤ → Exec W ItemResponse
    get_by_game_id game_id = do
      lookup ← cache_read (cache.get_item game_id) (codes "item")
      load_item game_id lookup (cached_value lookup)

    abbrev pub load_list :
        ItemListParams
        → Option (CacheLookup ItemListResponse)
        → Option ItemListResponse
        → Exec W ItemListResponse
    load_list params lookup (some value) = pure value
    load_list params lookup none = do
      items ←
          repository.list_items params.search params.quality params.type params.version params.sort
            params.order params.limit params.offset
      total ← repository.count_items params.search params.quality params.type params.version
      write_back lookup (cache.set_list params (list_response params items total)) (codes "list")
      pure (list_response params items total)

    unfoldable pub list_items : ItemListParams → Exec W ItemListResponse
    list_items params = do
      lookup ← cache_read (cache.get_list params) (codes "list")
      load_list params lookup (cached_value lookup)

    abbrev random_response : Option ItemRecord → Exec W ItemResponse
    random_response none = raise nothing_matches
    random_response (some item) = pure (to_item_response item)

    unfoldable pub get_random : ItemFilterParams → Exec W ItemResponse
    get_random params = do
      item ← repository.get_random params.search params.quality params.type params.version
      random_response item

    abbrev pub load_meta :
        Text → Option (CacheLookup MetaResponse) → Option MetaResponse → Exec W MetaResponse
    load_meta api_version lookup (some value) = pure value
    load_meta api_version lookup none = do
      catalog ← repository.get_catalog_meta
      write_back lookup (cache.set_meta (meta_response api_version catalog)) (codes "meta")
      pure (meta_response api_version catalog)

    unfoldable pub get_meta : Text → Exec W MetaResponse
    get_meta api_version = do
      lookup ← cache_read (cache.get_meta api_version) (codes "meta")
      load_meta api_version lookup (cached_value lookup)
