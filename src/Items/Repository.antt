-- ===== src/Items/Repository.antt =====
-- app/items/repository.py: the records and the protocol that `ItemService` consumes.

pub mod Sql
use platinum_gold_backend.Prelude.{Text, ℤ, Option, List}
use platinum_gold_backend.Exec.{Exec}
use platinum_gold_backend.Items.Schemas.{DateTime, SortField, SortOrder}

pub record ItemRecord : Type 0 where
  pub game_id : ℤ
  pub name : Text
  pub description : Text
  pub quality : Option ℤ
  pub item_type : Option Text
  pub recharge_time : Option Text
  pub image_url : Text
  pub introduced_in_version : Option Text

pub record DatasetMetadataRecord : Type 0 where
  pub dataset_version : Text
  pub game_version : Option Text
  pub last_sync : DateTime

pub record CatalogMetaRecord : Type 0 where
  pub items : ℤ
  pub metadata : Option DatasetMetadataRecord

-- The keyword arguments search, quality, item_type and version, in the source's order.
abbrev pub Filtered : Type 0 → Type 0
Filtered A = Option Text → Option ℤ → Option Text → Option Text → A

-- The protocol `ItemRepository`; `list_items` goes on with sort, order, limit and offset.
pub record ItemRepository (W : Type 0) : Type 0 where
  pub get_catalog_meta : Exec W CatalogMetaRecord
  pub get_by_game_id : ℤ → Exec W (Option ItemRecord)
  pub list_items : Filtered (SortField → SortOrder → ℤ → ℤ → Exec W (List ItemRecord))
  pub count_items : Filtered (Exec W ℤ)
  pub get_random : Filtered (Exec W (Option ItemRecord))
