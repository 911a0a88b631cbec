-- ===== src/Items/Cache/Client.antt =====
-- app/items/cache.py: the constants, what the cache takes from Redis, pydantic, json and hashlib,
-- and the `RedisItemCache` object with its constructor.
use platinum_gold_backend.Prelude.{
  ℕ, ◌+◌, ◌*◌, ◌-◌, Text, codes, ℤ, pos, Bool, ltb, leb, ◌&&◌, Option, none, some, List, ◌++◌,
  if◌then◌else◌,
}
use platinum_gold_backend.Errors.{Exc, Outcome, ok, raised, value_error}
use platinum_gold_backend.Exec.{Exec}
use platinum_gold_backend.Exec
use platinum_gold_backend.Value.{Value, int}
use platinum_gold_backend.Items.Schemas.{
  ItemResponse, ItemListParams, ItemListResponse, MetaResponse,
}

abbrev pub cache_generation_key : Text
cache_generation_key = codes "cache:items:generation"

abbrev pub max_generation : ℕ
max_generation = 9223372036854775807

abbrev pub max_generation_digits : ℕ
max_generation_digits = 19

abbrev pub max_cache_payload_bytes : ℕ
max_cache_payload_bytes = 2 * 1024 * 1024

abbrev pub max_cached_list_items : ℕ
max_cached_list_items = 100

-- app/core/config.py
abbrev pub max_cache_ttl_seconds : ℕ
max_cache_ttl_seconds = 604800

-- What Redis answers: bytes, or text if the client decodes.
pub data Reply : Type 0 where
  bytes : List ℕ → Reply
  text : Text → Reply

-- The protocol `RedisCacheClient`: `set name value ex nx` says whether the reply is truthy.
pub record RedisCacheClient (W : Type 0) : Type 0 where
  pub getrange : Text → ℕ → ℕ → Exec W Reply
  pub set : Text → Text → Option ℕ → Bool → Exec W Bool
  pub incr : Text → Exec W ℤ

pub record ListCacheEnvelope : Type 0 where
  pub cache_key : Text
  pub payload : Value

-- pydantic, json and hashlib as the cache calls them. A validation returns `none` where pydantic
-- raises ValidationError; `loads` where json raises RecursionError or ValueError.
pub record Codec : Type 0 where
  pub decode_utf8 : List ℕ → Option Text
  pub loads : Text → Option Value
  pub dump_item : ItemResponse → Text
  pub validate_item : Text → Option ItemResponse
  pub dump_meta : MetaResponse → Text
  pub validate_meta : Text → Option MetaResponse
  pub dump_list : ItemListResponse → Value
  pub validate_list : Value → Option ItemListResponse
  pub dump_envelope : ListCacheEnvelope → Text
  pub validate_envelope : Text → Option ListCacheEnvelope
  pub dump_params : ItemListParams → Text
  pub sha256_hex : Text → Text

pub record CacheLookup (A : Type 0) : Type 0 where
  pub value : Option A
  pub generation : Option Text

abbrev pub missed : {A : Type 0} → Option Text → CacheLookup A
missed g = record { value = none; generation = g }

pub record RedisItemCache (W : Type 0) : Type 0 where
  pub redis : RedisCacheClient W
  pub generation_factory : Exec W ℤ
  pub item_ttl_seconds : ℕ
  pub list_ttl_seconds : ℕ
  pub meta_ttl_seconds : ℕ

-- `secrets.randbelow(n)` is a parameter; it draws from 0 to n - 1.
unfoldable pub new_generation : {W : Type 0} → (ℕ → Exec W ℕ) → Exec W ℤ
new_generation randbelow =
    Exec.◌>>=◌ (randbelow (max_generation - 1)) (λ n. Exec.pure (pos (n + 1)))

-- f"{name} cache TTL must be between 1 and {MAX_CACHE_TTL_SECONDS}"
abbrev ttl_error : Text → Exc
ttl_error name = value_error (name ++ codes " cache TTL must be between 1 and 604800")

-- The value is any Python object, given here by the JSON values: a bool is refused.
unfoldable pub validate_ttl : Text → Value → Outcome ℕ
validate_ttl name (int (pos n)) =
    if ltb 0 n && leb n max_cache_ttl_seconds then ok n else raised (ttl_error name)
validate_ttl name _ = raised (ttl_error name)

abbrev factory_or : {W : Type 0} → Option (Exec W ℤ) → Exec W ℤ → Exec W ℤ
factory_or none default = default
factory_or (some factory) default = factory

infixl 10 ◌>>=◌
abbrev ◌>>=◌ : {A B : Type 0} → Outcome A → (A → Outcome B) → Outcome B
ok a >>= f = f a
raised e >>= f = raised e

-- `__init__`: the generation factory defaults to `new_generation`.
unfoldable pub new_cache :
    {W : Type 0}
    → (ℕ → Exec W ℕ)
    → RedisCacheClient W
    → Option (Exec W ℤ)
    → Value
    → Value
    → Value
    → Outcome (RedisItemCache W)
unfolding validate_ttl
new_cache randbelow redis factory item list meta = do
  item_ttl ← validate_ttl (codes "item") item
  list_ttl ← validate_ttl (codes "list") list
  meta_ttl ← validate_ttl (codes "meta") meta
  ok (record {
    redis = redis;
    generation_factory = factory_or factory (new_generation randbelow);
    item_ttl_seconds = item_ttl;
    list_ttl_seconds = list_ttl;
    meta_ttl_seconds = meta_ttl;
  })
