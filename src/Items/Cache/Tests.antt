-- ===== src/Items/Cache/Tests.antt =====
-- Runs of the cache on the fake Redis, and the theorems at these runs.
use platinum_gold_backend.Prelude.{
  ◌+◌, Text, codes, pos, none, some, [], ◌∷◌, ◌≡◌, refl, arith, text_eq,
}
use platinum_gold_backend.Prelude.Decimal.{show, show_int, read}
use platinum_gold_backend.Errors.{ok, is_unicode_error}
use platinum_gold_backend.Exec.{◌>>◌}
use platinum_gold_backend.Value.{Value, get, cons, nil, null, field, end}
use platinum_gold_backend.Items.Cache.Client.{missed, text, bytes}
use platinum_gold_backend.Items.Cache.Generation.{
  parse_text, parse_generation, read_generation, create_generation, generation, invalidate,
}
use platinum_gold_backend.Items.Cache.Generation.Parsing.{
  IsGeneration, parse_generation-show, parse_generation-IsGeneration,
}
use platinum_gold_backend.Items.Cache.Redis.{
  item_model, list_model, meta_model, key, decode, encode, payload_text, has_valid_list_size,
  read_payload, get_entry, set_entry, item_suffix, list_suffix, meta_suffix, get_item, set_item,
  get_list, set_list, get_meta, set_meta,
}
use platinum_gold_backend.Items.Cache.Contract.{PageLaws}
use platinum_gold_backend.Items.Cache.Hits.{IsHit, get_item-IsHit, get_list-IsHit, get_meta-IsHit}
use platinum_gold_backend.Items.Cache.Generation.Reading.{generation-IsGeneration}
use platinum_gold_backend.Items.Cache.Stored.{get_entry_absent}
use platinum_gold_backend.Items.Cache.Keys.{key-injective}
use platinum_gold_backend.Items.Cache.RoundTrip.{
  get_item-set_item, get_list-set_list, get_item-late_set,
}
use platinum_gold_backend.Items.Cache.Fake.{
  FakeWorld, logger, fake_redis_lem, brimstone, params, page, metadata, fake_codec, cache, start,
}

running : Unit {0}
unfolding get_item set_item get_list set_list get_meta set_meta get_entry set_entry read_payload
    decode encode payload_text has_valid_list_size key item_suffix list_suffix meta_suffix
    generation read_generation create_generation parse_generation parse_text invalidate show
    show_int read get text_eq is_unicode_error
running = tt

abbrev stored_item : FakeWorld
stored_item = record start {
  entries = (codes "cache:v1:100:item:118", codes "item") ∷ start.entries;
}

abbrev stored_list : FakeWorld
stored_list = record start {
  entries = (codes "cache:v1:100:list:digest", codes "envelope") ∷ start.entries;
}

abbrev stored_meta : FakeWorld
stored_meta = record start {
  entries = (codes "cache:v1:100:meta:0.1.0", codes "meta") ∷ start.entries;
}

writes_item :
    set_item logger fake_codec cache brimstone (some (codes "100")) start ≡ (ok tt, stored_item)
unfolding running
writes_item = refl

reads_item :
    (get_item logger fake_codec cache (pos 118) stored_item).0
    ≡ ok (record { value = some brimstone; generation = some (codes "100") })
unfolding running
reads_item = refl

reads_list :
    (get_list logger fake_codec cache params stored_list).0
    ≡ ok (record { value = some page; generation = some (codes "100") })
unfolding running
reads_list = refl

reads_meta :
    (get_meta logger fake_codec cache (codes "0.1.0") stored_meta).0
    ≡ ok (record { value = some metadata; generation = some (codes "100") })
unfolding running
reads_meta = refl

-- a fresh Redis gets the pointer of the factory
creates_generation :
    (generation logger cache (record { entries = []; log = [] })).0 ≡ ok (some (codes "100"))
unfolding running
creates_generation = refl

rejects_pointers :
    (parse_generation (text (codes "9223372036854775808")) ≡ none)
    × (parse_generation (text (codes "-1")) ≡ none)
    × (parse_generation (bytes (codes "007")) ≡ some (codes "7"))
unfolding running
rejects_pointers = (refl, refl, refl)

hundred : IsGeneration (codes "100")
unfolding running
hundred = parse_generation-IsGeneration (text (codes "100")) (codes "100") refl

pointer : show 100 ≡ codes "100"
unfolding show
pointer = refl

get_item-IsHit_example :
    (brimstone.game_id ≡ pos 118)
    × ((g : Text) × (some (codes "100") ≡ some g)
        × IsHit logger fake_codec cache item_model (item_suffix (pos 118)) stored_item brimstone g)
get_item-IsHit_example =
    get_item-IsHit logger fake_codec cache (pos 118) stored_item
      (record { value = some brimstone; generation = some (codes "100") }) brimstone reads_item refl

get_list-IsHit_example :
    (page.limit ≡ params.limit)
    × (page.offset ≡ params.offset)
    × ((g : Text) × (some (codes "100") ≡ some g)
        × IsHit logger fake_codec cache list_model
            (list_suffix fake_codec params)
            stored_list
            page
            g)
get_list-IsHit_example =
    get_list-IsHit logger fake_codec cache params stored_list
      (record { value = some page; generation = some (codes "100") }) page reads_list refl

meta_hits :
    (metadata.api_version ≡ codes "0.1.0")
    × ((g : Text) × (some (codes "100") ≡ some g)
        × IsHit logger fake_codec cache meta_model
            (meta_suffix (codes "0.1.0"))
            stored_meta
            metadata
            g)
meta_hits =
    get_meta-IsHit logger fake_codec cache (codes "0.1.0") stored_meta
      (record { value = some metadata; generation = some (codes "100") }) metadata reads_meta refl

key-injective_example : (codes "100" ≡ codes "100") × (codes "item:1" ≡ codes "item:1")
key-injective_example =
    key-injective (codes "100") (codes "100") (codes "item:1") (codes "item:1") hundred hundred refl

parse_generation-show_example :
    (parse_generation (bytes (show 100)) ≡ some (show 100))
    × (parse_generation (text (show 100)) ≡ some (show 100))
parse_generation-show_example = parse_generation-show 100 (omega arith)

parse_generation-IsGeneration_example : IsGeneration (codes "7")
unfolding running
parse_generation-IsGeneration_example =
    parse_generation-IsGeneration (bytes (codes "007")) (codes "7") refl

get_item-set_item_example :
    ((set_item logger fake_codec cache brimstone (some (show 100))
        >> get_item logger fake_codec cache brimstone.game_id)
      start).0
    ≡ ok (record { value = some brimstone; generation = some (show 100) })
unfolding show
get_item-set_item_example =
    get_item-set_item logger fake_codec cache fake_redis_lem brimstone 100 start (omega arith)
      (unfold fake_redis_lem text_eq in refl) (omega arith) refl

page_laws : PageLaws fake_codec (list_suffix fake_codec params) page
unfolding running
page_laws = record {
  fields = field (codes "items") (Value.arr (cons null nil)) end;
  elements = cons null nil;
  dumped = refl;
  listed = refl;
  counted = refl;
  list_read = refl;
  envelope_read = refl;
  envelope_json = refl;
}

get_list-set_list_example :
    ((set_list logger fake_codec cache params page (some (show 100))
        >> get_list logger fake_codec cache params)
      start).0
    ≡ ok (record { value = some page; generation = some (show 100) })
unfolding show encode
get_list-set_list_example =
    get_list-set_list logger fake_codec cache fake_redis_lem params page 100 start (omega arith)
      (unfold fake_redis_lem text_eq in refl) refl refl (omega arith) (omega arith) page_laws

get_item-late_set_example :
    ((invalidate logger cache
        >> set_item logger fake_codec cache brimstone (some (show 100))
        >> get_item logger fake_codec cache (pos 118))
      start).0
    ≡ ok (missed (some (show (100 + 1))))
unfolding show
get_item-late_set_example =
    get_item-late_set logger fake_codec cache fake_redis_lem brimstone (pos 118) 100 start
      (omega arith) (unfold fake_redis_lem text_eq in refl)
      (unfold fake_redis_lem text_eq key item_suffix show_int in refl) (omega arith) refl

generation-IsGeneration_example : IsGeneration (codes "100")
unfolding running
generation-IsGeneration_example =
    generation-IsGeneration logger cache (record { entries = []; log = [] }) (codes "100") refl

get_entry_absent_example :
    get_entry logger fake_codec cache item_model (item_suffix (pos 118)) start ≡ (
      ok (missed (some (show 100))),
      logger.warning (record { event = codes "cache_payload_invalid"; extra = [] }) start,
    )
unfolding show
get_entry_absent_example =
    get_entry_absent logger fake_codec cache fake_redis_lem item_model (item_suffix (pos 118)) 100
      start (omega arith) (unfold fake_redis_lem text_eq in refl)
      (unfold fake_redis_lem text_eq key item_suffix show_int in refl) (unfold decode in refl)
