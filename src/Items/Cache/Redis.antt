-- ===== src/Items/Cache/Redis.antt =====
-- app/items/cache.py: `_get`, `_set` and the public operations of `RedisItemCache`.
use platinum_gold_backend.Prelude.{
  ℕ, Text, codes, ℤ, eqℤ, Bool, false, ltb, leb, not, ◌&&◌, length, ◌+◌, text_eq, utf8_width,
  Option, none, some, [], ◌∷◌, ◌++◌, if◌then◌else◌,
}
use platinum_gold_backend.Prelude.Decimal.{show_int}
use platinum_gold_backend.Errors.{is_unicode_error}
use platinum_gold_backend.Exec.{Exec, pure, try_except, ◌>>=◌, ◌>>◌}
use platinum_gold_backend.Value.{Value, obj, arr, elems, get}
use platinum_gold_backend.Core.Log.{Logger}
use platinum_gold_backend.Items.Schemas.{
  ItemResponse, ItemListParams, ItemListResponse, MetaResponse,
}
use platinum_gold_backend.Items.Cache.Client.{
  max_cache_payload_bytes, max_cached_list_items, Reply, bytes, text, ListCacheEnvelope, Codec,
  CacheLookup, missed, RedisItemCache,
}
use platinum_gold_backend.Items.Cache.Generation.{log_invalid_payload, generation}

-- The pydantic model that a cache entry holds.
pub data Model : Type 0 where
  item_model list_model meta_model : Model

abbrev pub Payload : Model → Type 0
Payload item_model = ItemResponse
Payload list_model = ItemListResponse
Payload meta_model = MetaResponse

-- f"cache:{CACHE_KEY_VERSION}:{generation}:{suffix}"
unfoldable pub key : Text → Text → Text
key generation suffix = codes "cache:v1:" ++ (generation ++ (codes ":" ++ suffix))

abbrev pub utf8_length : Text → ℕ
utf8_length [] = 0
utf8_length (c ∷ s) = utf8_width c + utf8_length s

module _ (codec : Codec) where
  -- `_payload_text`
  unfoldable pub payload_text : Option Reply → Option Text
  payload_text none = none
  payload_text (some (bytes b)) =
      if ltb max_cache_payload_bytes (length b) then none else codec.decode_utf8 b
  payload_text (some (text t)) =
      if ltb max_cache_payload_bytes (utf8_length t) then none else some t

  abbrev items_fit : Option Value → Bool
  items_fit (some (arr items)) = leb (length (elems items)) max_cached_list_items
  items_fit _ = false

  abbrev payload_fits : Option Value → Bool
  payload_fits (some (obj payload)) = items_fit (get (codes "items") payload)
  payload_fits _ = false

  abbrev raw_fits : Option Value → Bool
  raw_fits (some (obj raw)) = payload_fits (get (codes "payload") raw)
  raw_fits _ = false

  -- `_has_valid_list_size`
  unfoldable pub has_valid_list_size : Text → Bool
  has_valid_list_size payload = raw_fits (codec.loads payload)

  abbrev open_envelope : Text → Option ListCacheEnvelope → Option ItemListResponse
  open_envelope suffix none = none
  open_envelope suffix (some envelope) =
      if text_eq envelope.cache_key suffix then codec.validate_list envelope.payload else none

  -- The part of `_get` that reads a payload; each `none` is logged by `_get`.
  unfoldable pub decode : (m : Model) → Text → Text → Option (Payload m)
  unfolding has_valid_list_size
  decode item_model suffix payload = codec.validate_item payload
  decode list_model suffix payload =
      if not (has_valid_list_size payload)
      then none
      else open_envelope suffix (codec.validate_envelope payload)
  decode meta_model suffix payload = codec.validate_meta payload

  -- the part of `_set` that writes a payload
  unfoldable pub encode : (m : Model) → Text → Payload m → Text
  encode item_model suffix value = codec.dump_item value
  encode list_model suffix value =
      codec.dump_envelope (record { cache_key = suffix; payload = codec.dump_list value })
  encode meta_model suffix value = codec.dump_meta value

  -- `_list_suffix`
  unfoldable pub list_suffix : ItemListParams → Text
  list_suffix params = codes "list:" ++ codec.sha256_hex (codec.dump_params params)

unfoldable pub item_suffix : ℤ → Text
item_suffix game_id = codes "item:" ++ show_int game_id

unfoldable pub meta_suffix : Text → Text
meta_suffix api_version = codes "meta:" ++ api_version

-- isinstance(value, ItemListResponse) and len(value.items) > MAX_CACHED_LIST_ITEMS
abbrev pub too_many_items : (m : Model) → Payload m → Bool
too_many_items list_model value = ltb max_cached_list_items (length value.items)
too_many_items item_model value = false
too_many_items meta_model value = false

-- the payload is trusted only if the generation is still the one that its key was made of
abbrev pub same_generation : Text → Option Text → Bool
same_generation g none = false
same_generation g (some current) = text_eq current g

abbrev pub same_page : ItemListParams → ItemListResponse → Bool
same_page params response = eqℤ response.limit params.limit && eqℤ response.offset params.offset

module _ {W : Type 0} (logger : Logger W) (codec : Codec) (cache : RedisItemCache W) where
  abbrev pub reject : {A : Type 0} → A → Exec W A
  reject a = log_invalid_payload logger cache >> pure a

  abbrev pub decoded : {A : Type 0} → Text → Option A → Exec W (CacheLookup A)
  decoded g none = reject (missed (some g))
  decoded g (some value) = pure (record { value = some value; generation = some g })

  abbrev pub from_text : (m : Model) → Text → Text → Option Text → Exec W (CacheLookup (Payload m))
  from_text m suffix g none = pure (missed (some g))
  from_text m suffix g (some payload) = decoded g (decode codec m suffix payload)

  abbrev pub after_read :
      (m : Model) → Text → Text → Option Reply → Exec W (CacheLookup (Payload m))
  after_read m suffix g none = pure (missed (some g))
  after_read m suffix g (some payload) = do
    current ← generation logger cache
    (if same_generation g current
        then from_text m suffix g (payload_text codec (some payload))
        else pure (missed current))

  -- the read of the entry, with its `except UnicodeDecodeError`
  unfoldable pub read_payload : Text → Text → Exec W (Option Reply)
  unfolding is_unicode_error
  read_payload g suffix =
      try_except
        (do
          payload ← cache.redis.getrange (key g suffix) 0 max_cache_payload_bytes
          pure (some payload))
        is_unicode_error (λ _. reject none)

  abbrev pub get_at : (m : Model) → Text → Option Text → Exec W (CacheLookup (Payload m))
  get_at m suffix none = pure (missed none)
  get_at m suffix (some g) = do payload ← read_payload g suffix; after_read m suffix g payload

  -- `_get`
  unfoldable pub get_entry : (m : Model) → Text → Exec W (CacheLookup (Payload m))
  get_entry m suffix = do g ← generation logger cache; get_at m suffix g

  -- `_set`
  unfoldable pub set_entry : (m : Model) → Text → Payload m → ℕ → Option Text → Exec W Unit
  set_entry m suffix value ttl none = pure tt
  set_entry m suffix value ttl (some g) =
      let payload = encode codec m suffix value in
      if too_many_items m value
      then reject tt
      else if ltb max_cache_payload_bytes (utf8_length payload)
      then reject tt
      else (do cache.redis.set (key g suffix) payload (some ttl) false; pure tt)

  -- A value for other parameters than were asked for is dropped.
  abbrev pub keep_if : {A : Type 0} → (A → Bool) → CacheLookup A → Exec W (CacheLookup A)
  keep_if fits lookup = elim lookup.value [
    | none ↦ pure lookup
    | some value ↦ if fits value then pure lookup else reject (missed lookup.generation)
  ]

  unfoldable pub get_item : ℤ → Exec W (CacheLookup ItemResponse)
  get_item game_id = do
    lookup ← get_entry item_model (item_suffix game_id)
    keep_if (λ value. eqℤ value.game_id game_id) lookup

  unfoldable pub set_item : ItemResponse → Option Text → Exec W Unit
  set_item item g = set_entry item_model (item_suffix item.game_id) item cache.item_ttl_seconds g

  unfoldable pub get_list : ItemListParams → Exec W (CacheLookup ItemListResponse)
  get_list params = do
    lookup ← get_entry list_model (list_suffix codec params)
    keep_if (same_page params) lookup

  unfoldable pub set_list : ItemListParams → ItemListResponse → Option Text → Exec W Unit
  set_list params response g =
      if not (same_page params response)
      then reject tt
      else set_entry list_model (list_suffix codec params) response cache.list_ttl_seconds g

  unfoldable pub get_meta : Text → Exec W (CacheLookup MetaResponse)
  get_meta api_version = do
    lookup ← get_entry meta_model (meta_suffix api_version)
    keep_if (λ value. text_eq value.api_version api_version) lookup

  unfoldable pub set_meta : MetaResponse → Option Text → Exec W Unit
  set_meta response g =
      set_entry meta_model (meta_suffix response.api_version) response cache.meta_ttl_seconds g
