-- ===== src/Items/Service/Cached.antt =====
-- The item reads of the service over the cache in Redis: what a miss, a hit and an invalidation do.
use platinum_gold_backend.Prelude.{
  ℕ, ◌+◌, ◌≤◌, ◌<◌, Text, codes, ℤ, Option, none, some, [], ◌≡◌, inl, inr, refl, sym, ◌∙◌, ap,
  arith, eqℤ_refl, ltb, Bool-cases, false,
}
use platinum_gold_backend.Prelude.Decimal.{show}
use platinum_gold_backend.Errors.{Exc, Outcome, ok, raised}
use platinum_gold_backend.Exec.{Exec, ◌>>=◌, ◌>>◌, >>=-step, Outcome-cases}
use platinum_gold_backend.Core.Log.{Logger}
use platinum_gold_backend.Items.Schemas.{ItemResponse}
use platinum_gold_backend.Items.Repository.{ItemRecord, ItemRepository}
use platinum_gold_backend.Items.Cache.Client.{
  Codec, RedisItemCache, cache_generation_key, max_generation, max_cache_payload_bytes, missed,
}
use platinum_gold_backend.Items.Cache.Contract.{Redis}
use platinum_gold_backend.Items.Cache.Generation.{invalidate}
use platinum_gold_backend.Items.Cache.Keys.{key-ne-cache_generation_key}
use platinum_gold_backend.Items.Cache.Redis.{
  item_model, key, utf8_length, decode, encode, item_suffix, set_entry, get_item, set_item,
  get_list, set_list, get_meta, set_meta,
}
use platinum_gold_backend.Items.Cache.RoundTrip.{invalidate_stored, pointer_after_set}
use platinum_gold_backend.Items.Cache.Stored.{
  max_payload, get_entry_stored, get_entry_absent, set_entry_stored,
}
use platinum_gold_backend.Items.Service.{
  ItemCache, to_item_response, item_not_found, respond_item, cache_read, cache_write,
  get_by_game_id,
}

-- A `RedisItemCache` as the protocol `ItemCache`.
abbrev pub as_item_cache : {W : Type 0} → Logger W → Codec → RedisItemCache W → ItemCache W
as_item_cache logger codec cache = record {
  get_item = get_item logger codec cache;
  set_item = set_item logger codec cache;
  get_list = get_list logger codec cache;
  set_list = set_list logger codec cache;
  get_meta = get_meta logger codec cache;
  set_meta = set_meta logger codec cache;
}

-- What the database answers, with no cache.
abbrev pub item_answer : ℤ → Outcome (Option ItemRecord) → Outcome ItemResponse
item_answer game_id (raised e) = raised e
item_answer game_id (ok none) = raised (item_not_found game_id)
item_answer game_id (ok (some item)) = ok (to_item_response item)

module _ {W : Type 0} (logger : Logger W) (name_of : Exc → Text) (codec : Codec)
    (cache : RedisItemCache W) (store : Redis logger cache.redis) where
  open store use {stored}

  abbrev pub read_item : ItemRepository W → ℤ → Exec W ItemResponse
  read_item repository = get_by_game_id logger name_of repository (as_item_cache logger codec cache)

  -- The world after the warning with which a lookup misses.
  abbrev pub warned : W → W
  warned = logger.warning (record { event = codes "cache_payload_invalid"; extra = [] })

  get_item_absent :
      (game_id : ℤ) (n : ℕ) (w : W)
      → n ≤ max_generation
      → stored w cache_generation_key ≡ some (show n)
      → stored w (key (show n) (item_suffix game_id)) ≡ none
      → codec.validate_item [] ≡ none
      → get_item logger codec cache game_id w ≡ (ok (missed (some (show n))), warned w)
  unfolding get_item
  get_item_absent game_id n w h e absent empty =
      let missing =
        get_entry_absent logger codec cache store item_model (item_suffix game_id) n w h e absent
          (unfold decode in empty) in
      rw missing refl

  -- Whatever `set_item` does under a known generation, it returns.
  set_item_returns :
      (item : ItemResponse) (g : Text) (w : W)
      → (set_item logger codec cache item (some g) w).0 ≡ ok tt
  unfolding set_item set_entry
  set_item_returns item g w =
      elim (Bool-cases (
        ltb max_cache_payload_bytes
          (utf8_length (encode codec item_model (item_suffix item.game_id) item)))) [
            | inl long ↦ rw long refl
            | inr fits ↦ rw fits (rw (store.set_ok _ _ cache.item_ttl_seconds w) refl)
          ]

  -- The part of `get_by_game_id` that follows a miss.
  abbrev after_miss : ItemRepository W → ℤ → Text → Exec W ItemResponse
  after_miss repository game_id g =
      repository.get_by_game_id game_id
      >>= respond_item logger name_of repository (as_item_cache logger codec cache) game_id
          (some (missed (some g)))

  read_absent :
      (repository : ItemRepository W) (game_id : ℤ) (n : ℕ) (w : W)
      → n ≤ max_generation
      → stored w cache_generation_key ≡ some (show n)
      → stored w (key (show n) (item_suffix game_id)) ≡ none
      → codec.validate_item [] ≡ none
      → read_item repository game_id w ≡ after_miss repository game_id (show n) (warned w)
  unfolding get_by_game_id cache_read
  read_absent repository game_id n w h e absent empty =
      rw (get_item_absent game_id n w h e absent empty) refl

  respond_item-answer :
      (repository : ItemRepository W) (game_id : ℤ) (g : Text) (o : Option ItemRecord) (w : W)
      → (respond_item logger name_of repository
          (as_item_cache logger codec cache)
          game_id
          (some (missed (some g)))
          o
          w).0
        ≡ item_answer game_id (ok o)
  unfolding cache_write
  respond_item-answer repository game_id g none w = refl
  respond_item-answer repository game_id g (some item) w =
      rw (set_item_returns (to_item_response item) g w) refl

  after_miss-answer :
      (repository : ItemRepository W) (game_id : ℤ) (g : Text) (w : W)
      → (after_miss repository game_id g w).0
        ≡ item_answer game_id (repository.get_by_game_id game_id w).0
  after_miss-answer repository game_id g w =
      elim (Outcome-cases (repository.get_by_game_id game_id w).0) [
        | inl (o, e) ↦ rw e (respond_item-answer repository game_id g o _)
        | inr (x, e) ↦ rw e refl
      ]

  -- After `invalidate`, a read of an item answers what the database answers then, whatever is stored
  -- for the generations before it: the item's response, 404 if there is none, or the repository's
  -- exception. No entry is stored for the new generation yet, and "" is no item in JSON.
  pub get_by_game_id-invalidate :
      (repository : ItemRepository W) (game_id : ℤ) (n : ℕ) (w : W)
      → n < max_generation
      → stored w cache_generation_key ≡ some (show n)
      → stored w (key (show (n + 1)) (item_suffix game_id)) ≡ none
      → codec.validate_item [] ≡ none
      → ((invalidate logger cache >> read_item repository game_id) w).0
        ≡ item_answer game_id
            (repository.get_by_game_id game_id (warned (invalidate logger cache w).1)).0
  get_by_game_id-invalidate repository game_id n w h e fresh empty =
      let w1 = (cache.redis.incr cache_generation_key w).1 in
      let moved = invalidate_stored logger codec cache store n w h e in
      let k = key (show (n + 1)) (item_suffix game_id) in
      let absent : stored w1 k ≡ none =
        store.incr_other cache_generation_key k w
          (λ c. key-ne-cache_generation_key (show (n + 1)) (item_suffix game_id) (sym c))
        ∙ fresh in
      ap (λ r. r.0)
        (>>=-step (invalidate logger cache) (λ _. read_item repository game_id) w moved
          ∙ read_absent repository game_id (n + 1) w1 (omega arith)
              (store.incr_self cache_generation_key n w e h) absent empty)
      ∙ after_miss-answer repository game_id (show (n + 1)) (warned w1)
      ∙ ap (λ v. item_answer game_id (repository.get_by_game_id game_id (warned v)).0)
          (ap (λ r. r.1) (sym moved))

  get_item_present :
      (item : ItemResponse) (n : ℕ) (v : Text) (w : W)
      → n ≤ max_generation
      → stored w cache_generation_key ≡ some (show n)
      → stored w (key (show n) (item_suffix item.game_id)) ≡ some v
      → utf8_length v ≤ max_payload
      → codec.validate_item v ≡ some item
      → get_item logger codec cache item.game_id w
        ≡ (ok (record { value = some item; generation = some (show n) }), w)
  unfolding get_item
  get_item_present item n v w h e present fits readable =
      let found =
        get_entry_stored logger codec cache store item_model (item_suffix item.game_id) v item n w h
          e present fits (unfold decode in readable) in
      rw found (rw (eqℤ_refl item.game_id) refl)

  -- A hit is answered without the repository.
  read_present :
      (repository : ItemRepository W) (item : ItemResponse) (n : ℕ) (v : Text) (w : W)
      → n ≤ max_generation
      → stored w cache_generation_key ≡ some (show n)
      → stored w (key (show n) (item_suffix item.game_id)) ≡ some v
      → utf8_length v ≤ max_payload
      → codec.validate_item v ≡ some item
      → read_item repository item.game_id w ≡ (ok item, w)
  unfolding get_by_game_id cache_read
  read_present repository item n v w h e present fits readable =
      rw (get_item_present item n v w h e present fits readable) refl

  -- What the item's write leaves in Redis, after a read that missed and asked the repository.
  module _ (repository : ItemRepository W) (item : ItemRecord) (n : ℕ) where
    abbrev response : ItemResponse
    response = to_item_response item

    abbrev entry : Text
    entry = key (show n) (item_suffix item.game_id)

    written :
        (w : W)
        → (repository.get_by_game_id item.game_id w).0 ≡ ok (some item)
        → utf8_length (codec.dump_item response) ≤ max_payload
        → after_miss repository item.game_id (show n) w ≡ (
          ok response,
          (cache.redis.set entry
              (codec.dump_item response)
              (some cache.item_ttl_seconds)
              false
              (repository.get_by_game_id item.game_id w).1).1,
        )
    unfolding cache_write set_item to_item_response encode
    written w asked fits =
        let write =
          set_entry_stored logger codec cache store item_model (item_suffix item.game_id) response
            cache.item_ttl_seconds (show n) (repository.get_by_game_id item.game_id w).1 refl
            fits in
        rw asked (rw write refl)

    -- A read of an item with no entry for the current generation answers with the item that the
    -- database has, and the same read right after it answers the same out of the cache: whatever a
    -- repository would do then, it is not asked, and nothing changes. The repository does not touch
    -- Redis, the item's JSON has at most 2 MiB and is read back by pydantic, and "" is no item.
    pub get_by_game_id-get_by_game_id :
        (later : ItemRepository W) (w : W)
        → n ≤ max_generation
        → stored w cache_generation_key ≡ some (show n)
        → stored w (key (show n) (item_suffix item.game_id)) ≡ none
        → codec.validate_item [] ≡ none
        → ((v : W) (k : Text) → stored (repository.get_by_game_id item.game_id v).1 k ≡ stored v k)
        → (repository.get_by_game_id item.game_id (warned w)).0 ≡ ok (some item)
        → utf8_length (codec.dump_item (to_item_response item)) ≤ max_payload
        → codec.validate_item (codec.dump_item (to_item_response item))
          ≡ some (to_item_response item)
        → ((read_item repository item.game_id w).0 ≡ ok (to_item_response item))
          × (read_item later item.game_id (read_item repository item.game_id w).1
              ≡ (ok (to_item_response item), (read_item repository item.game_id w).1))
    unfolding to_item_response
    get_by_game_id-get_by_game_id later w h e absent empty apart asked fits readable =
        let u = (repository.get_by_game_id item.game_id (warned w)).1 in
        let done =
          (cache.redis.set entry (codec.dump_item response) (some cache.item_ttl_seconds) false
            u).1 in
        let first =
          read_absent repository item.game_id n w h e absent empty
          ∙ written (warned w) asked fits in
        let pointer : stored done cache_generation_key ≡ some (show n) =
          pointer_after_set logger codec cache store (show n) (item_suffix item.game_id)
            (codec.dump_item response) cache.item_ttl_seconds u
          ∙ apart (warned w) cache_generation_key
          ∙ store.stored-warning _ w cache_generation_key
          ∙ e in
        let present = store.set_self entry (codec.dump_item response) cache.item_ttl_seconds u in
        let second =
          read_present later response n (codec.dump_item response) done h pointer present fits
            readable in
        rw first (refl, second)
