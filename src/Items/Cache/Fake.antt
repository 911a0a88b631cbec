-- ===== src/Items/Cache/Fake.antt =====
-- A Redis and a codec to run the cache on: an association list, and the JSON of one item.
use platinum_gold_backend.Prelude.{
  ℕ, ◌+◌, Text, codes, pos, true, false, leb, le→leb, ◌&&◌, is_some, is_empty, take, text_eq,
  text_eq_refl, text_eq-eq, Option, none, some, List, [], ◌∷◌, ◌≡◌, ◌≢◌, refl, Bool-cases, inl, inr,
  if◌then◌else◌,
}
use platinum_gold_backend.Prelude.Decimal.{show, read, read-show}
use platinum_gold_backend.Errors.{ok}
use platinum_gold_backend.Exec.{pure}
use platinum_gold_backend.Value.{Value, null, obj, arr, str, field, end, cons, nil}
use platinum_gold_backend.Core.Log.{LogRecord, Logger}
use platinum_gold_backend.Items.Schemas.{
  ItemResponse, ItemListParams, ItemListResponse, MetaResponse, by_name, asc,
}
use platinum_gold_backend.Items.Cache.Client.{
  text, RedisCacheClient, RedisItemCache, ListCacheEnvelope, Codec,
}
use platinum_gold_backend.Items.Cache.Redis.{utf8_length}
use platinum_gold_backend.Items.Cache.Contract.{Redis}

pub record FakeWorld : Type 0 where
  pub entries : List (Text × Text)
  pub log : List LogRecord

abbrev pub find : Text → List (Text × Text) → Option Text
find k [] = none
find k ((j, v) ∷ rest) = if text_eq j k then some v else find k rest

abbrev pub logger : Logger FakeWorld
logger = record { warning = λ r w. record w { log = r ∷ w.log } }

abbrev value_at : ℕ → Option Text → Text
value_at n none = []
value_at n (some v) = if leb (utf8_length v) (n + 1) then v else take (n + 1) v

abbrev number_in : Option Text → ℕ
number_in none = 0
number_in (some v) = read 0 v

abbrev put : Text → Text → FakeWorld → FakeWorld
put k v w = record w { entries = (k, v) ∷ w.entries }

abbrev pub fake_redis : RedisCacheClient FakeWorld
fake_redis = record {
  getrange = λ k start n w. (ok (text (value_at n (find k w.entries))), w);
  set = λ k v ttl nx w.
      if nx && is_some (find k w.entries) then (ok false, w) else (ok true, put k v w);
  incr = λ k w. let n : ℕ = number_in (find k w.entries) + 1 in (ok (pos n), put k (show n) w);
}

pub text_eq-ne : (k j : Text) → k ≢ j → text_eq k j ≡ false
text_eq-ne k j h = elim (Bool-cases (text_eq k j)) [
  | inl same ↦ absurd (h (text_eq-eq k j same))
  | inr other ↦ other
]

unfoldable pub fake_redis_lem : Redis logger fake_redis
fake_redis_lem = record {
  stored = λ w k. find k w.entries;
  stored-warning = λ r w k. refl;
  getrange_present = λ k n w v e fits. rw e (rw (le→leb (utf8_length v) (n + 1) fits));
  getrange_absent = λ k n w e. rw e;
  set_ok = λ k v ttl w. refl;
  set_self = λ k v ttl w. rw (text_eq_refl k);
  set_other = λ k j v ttl w h. rw (text_eq-ne k j h);
  incr_ok = λ k n w e h. rw e (rw (read-show n));
  incr_self = λ k n w e h. rw (text_eq_refl k) (rw e (rw (read-show n)));
  incr_other = λ k j w h. rw (text_eq-ne k j h);
}

abbrev pub brimstone : ItemResponse
brimstone = record {
  game_id = pos 118;
  name = codes "Brimstone";
  description = codes "Tears are replaced by a laser beam.";
  quality = some (pos 4);
  type = some (codes "passive");
  recharge_time = none;
  image_url = codes "https://example.com/118.png";
  introduced_in_version = some (codes "rebirth");
}

abbrev pub params : ItemListParams
params = record {
  filters = record { search = none; quality = none; type = none; version = none };
  sort = by_name;
  order = asc;
  limit = pos 20;
  offset = pos 0;
}

abbrev pub page : ItemListResponse
page = record { items = brimstone ∷ []; total = pos 1; limit = pos 20; offset = pos 0 }

abbrev pub metadata : MetaResponse
metadata = record {
  api_version = codes "0.1.0";
  dataset_version = some (codes "example");
  game_version = none;
  last_sync = some 5;
  items = pos 1;
}

abbrev pub payload : Value
payload = obj (field (codes "items") (arr (cons null nil)) end)

abbrev pub suffix : Text
suffix = codes "list:digest"

abbrev pub envelope : ListCacheEnvelope
envelope = record { cache_key = suffix; payload = payload }

abbrev pub unless_empty : {A : Type 0} → A → Text → Option A
unless_empty a t = if is_empty t then none else some a

abbrev pub fake_codec : Codec
fake_codec = record {
  decode_utf8 = λ b. some b;
  loads =
      unless_empty
        (obj (field (codes "cacheKey") (str suffix) (field (codes "payload") payload end)));
  dump_item = λ item. codes "item";
  validate_item = unless_empty brimstone;
  dump_meta = λ meta. codes "meta";
  validate_meta = unless_empty metadata;
  dump_list = λ list. payload;
  validate_list = λ v. some page;
  dump_envelope = λ e. codes "envelope";
  validate_envelope = unless_empty envelope;
  dump_params = λ p. codes "params";
  sha256_hex = λ t. codes "digest";
}

abbrev pub cache : RedisItemCache FakeWorld
cache = record {
  redis = fake_redis;
  generation_factory = pure (pos 100);
  item_ttl_seconds = 86400;
  list_ttl_seconds = 900;
  meta_ttl_seconds = 86400;
}

-- Redis with the pointer 100
abbrev pub start : FakeWorld
start = record { entries = (codes "cache:items:generation", codes "100") ∷ []; log = [] }
