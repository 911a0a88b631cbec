-- ===== src/Items/Repository/Sql.antt =====
-- app/items/repository.py: `SqlAlchemyItemRepository`, `apply_filters` and `to_record`. A statement
-- is the data that the source gives to SQLAlchemy.
mod Tests
pub mod Pages
pub mod Filters
pub mod Contract
use platinum_gold_backend.Prelude.{
  ℕ, Text, codes, ℤ, pos, Bool, true, false, ◌||◌, ◌==◌, Option, none, some, List, [], ◌∷◌, ◌++◌,
  map, if◌then◌else◌,
}
use platinum_gold_backend.Errors.{
  Exc, Outcome, is_os_error, is_sqlalchemy_error, service_unavailable,
}
use platinum_gold_backend.Exec.{Exec, pure, raise, lift, try_except, ◌>>=◌}
use platinum_gold_backend.Items.Schemas.{
  DateTime, SortField, by_name, by_quality, by_game_id, SortOrder, asc, desc,
}
use platinum_gold_backend.Items.Models.{Item}
use platinum_gold_backend.Items.Repository.{
  ItemRecord, DatasetMetadataRecord, CatalogMetaRecord, ItemRepository, Filtered,
}

-- What a WHERE names: Item.game_id == n, Item.name.ilike(pattern, escape), and so on.
pub data Condition : Type 0 where
  game_id_is : ℤ → Condition
  name_ilike : Text → ℕ → Condition
  quality_is : ℤ → Condition
  item_type_is : Text → Condition
  version_is : Text → Condition

-- SORT_COLUMNS gives a column for each sort field, so the field stands for it.
pub data OrderTerm : Type 0 where
  ascending descending : SortField → OrderTerm
  random : OrderTerm

pub data Select : Type 0 where
  -- select(Item) with its conditions, order, offset and limit
  select_items : List Condition → List OrderTerm → Option ℤ → Option ℤ → Select
  -- select(func.count()).select_from(Item)
  select_count : List Condition → Select
  -- the count of the items beside three columns of the metadata row of this id
  select_catalog : ℤ → Select

-- the row that the catalog query returns
pub record CatalogRow : Type 0 where
  pub total : ℤ
  pub dataset_version : Option Text
  pub game_version : Option Text
  pub last_sync : DateTime

-- `session.execute`, and the methods that read its result.
pub record Session (W R : Type 0) : Type 0 where
  pub run : Select → Exec W R
  pub scalar_one_or_none : R → Outcome (Option Item)
  pub scalars_all : R → Outcome (List Item)
  pub scalar_one : R → Outcome ℤ
  pub one : R → Outcome CatalogRow

-- `s.replace(c, r)`, for a single character c
abbrev pub replace : ℕ → Text → Text → Text
replace c r [] = []
replace c r (d ∷ s) = if d == c then r ++ replace c r s else d ∷ replace c r s

unfoldable pub escaped : Text → Text
escaped search =
    replace b'_' (codes "\\_") (replace b'%' (codes "\\%") (replace b'\\' (codes "\\\\") search))

abbrev pub search_conditions : Option Text → List Condition
search_conditions none = []
search_conditions (some search) = name_ilike (codes "%" ++ (escaped search ++ codes "%")) b'\\' ∷ []

abbrev pub condition_of : {A : Type 0} → (A → Condition) → Option A → List Condition
condition_of f none = []
condition_of f (some a) = f a ∷ []

-- The conditions that `apply_filters` adds to a statement, in order.
unfoldable pub apply_filters : Filtered (List Condition)
apply_filters search quality item_type version =
    search_conditions search
    ++ (condition_of quality_is quality
        ++ (condition_of item_type_is item_type ++ condition_of version_is version))

unfoldable pub to_record : Item → ItemRecord
to_record item = record {
  game_id = item.game_id;
  name = item.name;
  description = item.description;
  quality = item.quality;
  item_type = item.item_type;
  recharge_time = item.recharge_time;
  image_url = item.image_url;
  introduced_in_version = item.introduced_in_version;
}

abbrev pub record_of : Option Item → Option ItemRecord
record_of none = none
record_of (some item) = some (to_record item)

abbrev pub ordered : SortField → SortOrder → OrderTerm
ordered sort desc = descending sort
ordered sort asc = ascending sort

-- except (OSError, TimeoutError, SQLAlchemyError)
unfoldable pub is_query_failure : Exc → Bool
is_query_failure e = is_os_error e || is_sqlalchemy_error e

-- `last_sync` is not null in a row that exists; it is not looked at if there is none.
abbrev pub metadata_of : CatalogRow → Option Text → Option DatasetMetadataRecord
metadata_of row none = none
metadata_of row (some dataset_version) = some (record {
  dataset_version = dataset_version;
  game_version = row.game_version;
  last_sync = row.last_sync;
})

unfoldable pub catalog_meta : CatalogRow → CatalogMetaRecord
catalog_meta row = record { items = row.total; metadata = metadata_of row row.dataset_version }

module _ {W R : Type 0} (session : Session W R) where
  -- `_execute`
  unfoldable pub execute : Select → Exec W R
  execute statement =
      try_except (session.run statement) is_query_failure (λ e. raise service_unavailable)

  -- `_scalar`
  unfoldable pub scalar : Select → Exec W (Option Item)
  scalar statement = do result ← execute statement; lift (session.scalar_one_or_none result)

  -- `_scalars`
  unfoldable pub scalars : Select → Exec W (List Item)
  scalars statement = do result ← execute statement; lift (session.scalars_all result)

  unfoldable pub get_catalog_meta : Exec W CatalogMetaRecord
  get_catalog_meta = do
    result ← execute (select_catalog (pos 1))
    row ← lift (session.one result)
    pure (catalog_meta row)

  unfoldable pub get_by_game_id : ℤ → Exec W (Option ItemRecord)
  get_by_game_id game_id = do
    item ← scalar (select_items (game_id_is game_id ∷ []) [] none none)
    pure (record_of item)

  unfoldable pub list_items : Filtered (SortField → SortOrder → ℤ → ℤ → Exec W (List ItemRecord))
  list_items search quality item_type version sort order limit offset = do
    items ← scalars (
        select_items (apply_filters search quality item_type version)
          (ordered sort order ∷ ascending by_game_id ∷ []) (some offset) (some limit))
    pure (map to_record items)

  unfoldable pub count_items : Filtered (Exec W ℤ)
  count_items search quality item_type version = do
    result ← execute (select_count (apply_filters search quality item_type version))
    lift (session.scalar_one result)

  unfoldable pub get_random : Filtered (Exec W (Option ItemRecord))
  get_random search quality item_type version = do
    item ← scalar (
        select_items (apply_filters search quality item_type version) (random ∷ []) none
          (some (pos 1)))
    pure (record_of item)

  -- The class as the protocol that `ItemService` consumes.
  abbrev pub sqlalchemy_repository : ItemRepository W
  sqlalchemy_repository = record {
    get_catalog_meta = get_catalog_meta;
    get_by_game_id = get_by_game_id;
    list_items = list_items;
    count_items = count_items;
    get_random = get_random;
  }
