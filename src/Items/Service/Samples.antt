-- ===== src/Items/Service/Samples.antt =====
-- A repository of one item and a cache that holds it, and fails otherwise.
use platinum_gold_backend.Prelude.{
  Text, codes, ℤ, pos, eqℤ, Option, none, some, List, [], ◌∷◌, if◌then◌else◌,
}
use platinum_gold_backend.Errors.{Exc, redis_connection_error, redis_timeout_error}
use platinum_gold_backend.Exec.{pure, raise}
use platinum_gold_backend.Core.Log.{LogRecord, Logger}
use platinum_gold_backend.Items.Schemas.{ItemResponse}
use platinum_gold_backend.Items.Repository.{ItemRecord, ItemRepository}
use platinum_gold_backend.Items.Cache.Client.{CacheLookup, missed}
use platinum_gold_backend.Items.Service.{ItemCache, to_item_response}

abbrev pub World : Type 0
World = List LogRecord

abbrev pub logger : Logger World
logger = record { warning = λ r w. r ∷ w }

abbrev pub name_of : Exc → Text
name_of e = codes "ConnectionError"

abbrev pub brimstone : ItemRecord
brimstone = record {
  game_id = pos 118;
  name = codes "Brimstone";
  description = codes "Tears are replaced by a laser beam.";
  quality = some (pos 4);
  item_type = some (codes "passive");
  recharge_time = none;
  image_url = codes "https://example.com/118.png";
  introduced_in_version = none;
}

abbrev pub catalog : ℤ → Option ItemRecord
catalog id = if eqℤ id (pos 118) then some brimstone else none

abbrev pub repository : ItemRepository World
repository = record {
  get_catalog_meta = pure (record { items = pos 1; metadata = none });
  get_by_game_id = λ id. pure (catalog id);
  list_items = λ q ql t v s o l k. pure (brimstone ∷ []);
  count_items = λ q ql t v. pure (pos 1);
  get_random = λ q ql t v. pure (some brimstone);
}

abbrev pub hit : CacheLookup ItemResponse
hit = record { value = some (to_item_response brimstone); generation = some (codes "100") }

abbrev pub cache : ItemCache World
cache = record {
  get_item = λ id. if eqℤ id (pos 118) then pure hit else raise redis_connection_error;
  set_item = λ v g. raise redis_timeout_error;
  get_list = λ p. raise redis_connection_error;
  set_list = λ p r g. raise redis_timeout_error;
  get_meta = λ v. pure (missed none);
  set_meta = λ r g. pure tt;
}
