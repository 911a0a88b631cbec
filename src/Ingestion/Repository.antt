-- ===== src/Ingestion/Repository.antt =====
-- app/ingestion/repository.py: the protocol, the statements that the SQLAlchemy repository builds
-- and the order in which it executes them. What PostgreSQL does is in Repository/Contract.

pub mod Batches
pub mod Upserts
pub mod Contract
use platinum_gold_backend.Prelude.{
  ℕ, zero, suc, ◌+◌, ◌/◌, Text, String, codes, ℤ, Bool, true, false, ◌||◌, length, take, drop,
  Option, none, some, List, [], ◌∷◌, map,
}
use platinum_gold_backend.Errors.{
  Exc, is_os_error, is_driver_error, is_sqlalchemy_error, service_unavailable,
}
use platinum_gold_backend.Exec.{Exec, pure, raise, try_except, ◌>>=◌, ◌>>◌}
use platinum_gold_backend.Items.Schemas.{DateTime}
use platinum_gold_backend.Ingestion.Schemas.{ItemImport}

abbrev pub item_batch_size : ℕ
item_batch_size = 1000

abbrev pub ingestion_lock_key : ℕ
ingestion_lock_key = 1182026

-- The protocol `IngestionRepository`; `upsert_metadata` takes dataset_version, game_version and
-- last_sync.
pub record IngestionRepository (S : Type 0) : Type 0 where
  pub acquire_lock : Exec S Unit
  pub get_last_sync : Exec S (Option DateTime)
  pub upsert_items : List ItemImport → Exec S Unit
  pub upsert_metadata : Text → Option Text → DateTime → Exec S Unit

pub data ItemColumn : Type 0 where
  name description quality item_type recharge_time image_url introduced_in_version updated_at :
      ItemColumn

-- One row of `insert(Item).values(…)`.
pub record ItemRow : Type 0 where
  pub game_id : ℤ
  pub name : Text
  pub description : Text
  pub quality : Option ℤ
  pub item_type : Option Text
  pub recharge_time : Option Text
  pub image_url : Text
  pub introduced_in_version : Option Text

pub record MetadataRow : Type 0 where
  pub dataset_version : Text
  pub game_version : Option Text
  pub last_sync : DateTime

pub data Statement : Type 0 where
  -- select(func.pg_advisory_xact_lock(key))
  advisory_lock : ℕ → Statement
  -- select(DatasetMetadata.last_sync).where(DatasetMetadata.id == id)
  select_last_sync : ℕ → Statement
  -- insert(Item).values(rows).on_conflict_do_update(game_id, set_ = the excluded columns)
  insert_items : List ItemRow → List ItemColumn → Statement
  -- insert(DatasetMetadata) with the id, on_conflict_do_update(id); the flag is the condition
  -- excluded.last_sync > last_sync
  insert_metadata : ℕ → MetadataRow → Bool → Statement

unfoldable pub row_of : ItemImport → ItemRow
row_of item = record {
  game_id = item.game_id;
  name = item.name;
  description = item.description;
  quality = item.quality;
  item_type = item.item_type;
  recharge_time = item.recharge_time;
  image_url = item.image_url;
  introduced_in_version = item.introduced_in_version;
}

abbrev pub updated_columns : List ItemColumn
updated_columns =
    name ∷ description ∷ quality ∷ item_type ∷ recharge_time ∷ image_url ∷ introduced_in_version
    ∷ updated_at ∷ []

-- except (InterfaceError, OSError, PostgresError, TimeoutError, SQLAlchemyError)
unfoldable pub is_database_failure : Exc → Bool
is_database_failure e = is_driver_error e || is_os_error e || is_sqlalchemy_error e

-- The slices items[start : start + ITEM_BATCH_SIZE] for `rounds` starts, from the first on.
unfoldable pub batches {ℓ} : {A : Type ℓ} → ℕ → List A → List (List A)
batches zero items = []
batches (suc rounds) items =
    take item_batch_size items ∷ batches rounds (drop item_batch_size items)

-- the number of elements of range(0, n, ITEM_BATCH_SIZE)
unfoldable pub rounds_of : ℕ → ℕ
rounds_of n = (n + 999) / item_batch_size

-- `session.execute` is a parameter; its value is what `scalar_one_or_none` reads of the result.
module _ {S : Type 0} (session_execute : Statement → Exec S (Option DateTime)) where
  -- `_execute`
  unfoldable pub execute : Statement → Exec S (Option DateTime)
  execute statement =
      try_except (session_execute statement) is_database_failure (λ e. raise service_unavailable)

  unfoldable pub acquire_lock : Exec S Unit
  acquire_lock = do execute (advisory_lock ingestion_lock_key); pure tt

  unfoldable pub get_last_sync : Exec S (Option DateTime)
  get_last_sync = execute (select_last_sync 1)

  abbrev pub execute_batches : List (List ItemImport) → Exec S Unit
  execute_batches [] = pure tt
  execute_batches (batch ∷ rest) = do
    execute (insert_items (map row_of batch) updated_columns)
    execute_batches rest

  -- `if not items: return` adds nothing: an empty list has no batches
  unfoldable pub upsert_items : List ItemImport → Exec S Unit
  upsert_items [] = pure tt
  upsert_items (item ∷ items) =
      execute_batches (batches (rounds_of (length (item ∷ items))) (item ∷ items))

  unfoldable pub upsert_metadata : Text → Option Text → DateTime → Exec S Unit
  upsert_metadata dataset_version game_version last_sync = do
    execute (
        insert_metadata 1
          (record {
            dataset_version = dataset_version;
            game_version = game_version;
            last_sync = last_sync;
          })
          true)
    pure tt

  abbrev pub sqlalchemy_repository : IngestionRepository S
  sqlalchemy_repository = record {
    acquire_lock = acquire_lock;
    get_last_sync = get_last_sync;
    upsert_items = upsert_items;
    upsert_metadata = upsert_metadata;
  }
