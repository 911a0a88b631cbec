-- ===== src/Items/Cache/RoundTrip.antt =====
-- What is stored is read back, and what was stored for an older generation is never read.
use platinum_gold_backend.Prelude.{
  ℕ, ◌+◌, ◌≤◌, ◌<◌, Text, ℤ, pos, true, false, le→leb, length, none, some, [], ◌≡◌, ◌≢◌, refl, sym,
  ◌∙◌, ap, arith, eqℤ_refl, text_eq, text_eq_refl,
}
use platinum_gold_backend.Prelude.Decimal.{show}
use platinum_gold_backend.Errors.{ok}
use platinum_gold_backend.Exec.{◌>>◌, >>=-step, >>-bind-ok}
use platinum_gold_backend.Value.{get}
use platinum_gold_backend.Core.Log.{Logger}
use platinum_gold_backend.Items.Schemas.{ItemResponse, ItemListParams, ItemListResponse}
use platinum_gold_backend.Items.Cache.Client.{
  cache_generation_key, max_generation, max_cached_list_items, Codec, missed, RedisItemCache,
}
use platinum_gold_backend.Items.Cache.Generation.{generation, invalidate}
use platinum_gold_backend.Items.Cache.Generation.Parsing.{IsGeneration}
use platinum_gold_backend.Items.Cache.Redis.{
  Model, item_model, list_model, Payload, key, utf8_length, decode, encode, too_many_items,
  has_valid_list_size, item_suffix, list_suffix, same_page, get_entry, set_entry, get_item,
  set_item, get_list, set_list,
}
use platinum_gold_backend.Items.Cache.Keys.{
  key-injective, key-ne-cache_generation_key, show-injective,
}
use platinum_gold_backend.Items.Cache.Contract.{Redis, PageLaws}
use platinum_gold_backend.Items.Cache.Stored.{
  max_payload, generation_stored, get_entry_stored, get_entry_absent, set_entry_stored,
}

numeral-IsGeneration : (n : ℕ) → n ≤ max_generation → IsGeneration (show n)
numeral-IsGeneration n h = record { number = n; within = h; canonical = refl }

show-ne : (n : ℕ) → show n ≢ show (n + 1)
show-ne n e = omega (arith, show-injective n (n + 1) e)

key-ne : (n : ℕ) (s t : Text) → n < max_generation → key (show n) s ≢ key (show (n + 1)) t
key-ne n s t h e =
    show-ne n
      (key-injective (show n) (show (n + 1)) s t (numeral-IsGeneration n (omega arith))
        (numeral-IsGeneration (n + 1) (omega arith)) e).0

module _ (codec : Codec) (s : Text) (page : ItemListResponse) (laws : PageLaws codec s page) where
  has_valid_list_size-encode :
      length page.items ≤ max_cached_list_items
      → has_valid_list_size codec (encode codec list_model s page) ≡ true
  unfolding has_valid_list_size encode get text_eq
  has_valid_list_size-encode few =
      rw laws.envelope_json
        (rw laws.dumped (rw laws.listed (le→leb _ _ (omega (arith, laws.counted)))))

  -- A page of at most 100 items is read back from its envelope.
  page_is_read_back :
      length page.items ≤ max_cached_list_items
      → decode codec list_model s (encode codec list_model s page) ≡ some page
  unfolding decode encode
  page_is_read_back few =
      rw (has_valid_list_size-encode few)
        (rw laws.envelope_read (rw (text_eq_refl s) laws.list_read))

same_page_of :
    (params : ItemListParams) (page : ItemListResponse)
    → page.limit ≡ params.limit
    → page.offset ≡ params.offset
    → same_page params page ≡ true
same_page_of params page l o = rw (l, o) (rw (eqℤ_refl params.limit) (eqℤ_refl params.offset))

module _ {W : Type 0} (logger : Logger W) (codec : Codec) (cache : RedisItemCache W)
    (store : Redis logger cache.redis) where
  open store use {stored}

  pub pointer_after_set :
      (g s v : Text) (ttl : ℕ) (w : W)
      → stored (cache.redis.set (key g s) v (some ttl) false w).1 cache_generation_key
        ≡ stored w cache_generation_key
  pointer_after_set g s v ttl w =
      store.set_other (key g s) cache_generation_key v ttl w (key-ne-cache_generation_key g s)

  -- A value that fits is read back under the generation that it was written for.
  get_entry-set_entry :
      (m : Model) (s : Text) (v : Payload m) (ttl n : ℕ) (w : W)
      → n ≤ max_generation
      → stored w cache_generation_key ≡ some (show n)
      → too_many_items m v ≡ false
      → utf8_length (encode codec m s v) ≤ max_payload
      → decode codec m s (encode codec m s v) ≡ some v
      → ((set_entry logger codec cache m s v ttl (some (show n))
            >> get_entry logger codec cache m s)
          w).0
        ≡ ok (record { value = some v; generation = some (show n) })
  get_entry-set_entry m s v ttl n w h e few fits readable =
      let w1 = (cache.redis.set (key (show n) s) (encode codec m s v) (some ttl) false w).1 in
      ap (λ p. p.0)
        (>>=-step (set_entry logger codec cache m s v ttl (some (show n))) _ w
            (set_entry_stored logger codec cache store m s v ttl (show n) w few fits)
          ∙ get_entry_stored logger codec cache store m s (encode codec m s v) v n w1 h
              (pointer_after_set (show n) s (encode codec m s v) ttl w ∙ e)
              (store.set_self (key (show n) s) (encode codec m s v) ttl w) fits readable)

  pub invalidate_stored :
      (n : ℕ) (w : W)
      → n < max_generation
      → stored w cache_generation_key ≡ some (show n)
      → invalidate logger cache w ≡ (ok (pos (n + 1)), (cache.redis.incr cache_generation_key w).1)
  unfolding invalidate
  invalidate_stored n w h e =
      >>=-step (generation logger cache) _ w
        (generation_stored logger codec cache store n w (omega arith) e)
      ∙ λ i. (
        store.incr_ok cache_generation_key n w e h i,
        (cache.redis.incr cache_generation_key w).1,
      )

  -- After `invalidate`, an entry written for the generation before it is not found.
  get_entry-late_set :
      (m : Model) (s t : Text) (v : Payload m) (ttl n : ℕ) (w : W)
      → n < max_generation
      → stored w cache_generation_key ≡ some (show n)
      → stored w (key (show (n + 1)) t) ≡ none
      → too_many_items m v ≡ false
      → utf8_length (encode codec m s v) ≤ max_payload
      → decode codec m t [] ≡ none
      → ((invalidate logger cache
            >> set_entry logger codec cache m s v ttl (some (show n))
            >> get_entry logger codec cache m t)
          w).0
        ≡ ok (missed (some (show (n + 1))))
  get_entry-late_set m s t v ttl n w h e fresh few fits empty =
      let k = key (show n) s in
      let w1 = (cache.redis.incr cache_generation_key w).1 in
      let w2 = (cache.redis.set k (encode codec m s v) (some ttl) false w1).1 in
      let stays : stored w1 (key (show (n + 1)) t) ≡ none =
        store.incr_other cache_generation_key (key (show (n + 1)) t) w
          (λ c. key-ne-cache_generation_key (show (n + 1)) t (sym c))
        ∙ fresh in
      let absent : stored w2 (key (show (n + 1)) t) ≡ none =
        store.set_other k (key (show (n + 1)) t) (encode codec m s v) ttl w1 (key-ne n s t h)
        ∙ stays in
      let pointer : stored w2 cache_generation_key ≡ some (show (n + 1)) =
        pointer_after_set (show n) s (encode codec m s v) ttl w1
        ∙ store.incr_self cache_generation_key n w e h in
      ap (λ p. p.0)
        (>>=-step
            (invalidate logger cache >> set_entry logger codec cache m s v ttl (some (show n))) _ w
            (>>=-step (invalidate logger cache) _ w (invalidate_stored n w h e)
              ∙ set_entry_stored logger codec cache store m s v ttl (show n) w1 few fits)
          ∙ get_entry_absent logger codec cache store m t (n + 1) w2 (omega arith) pointer absent
              empty)

  -- An item that `set_item` stores for the current generation is what `get_item` then returns,
  -- with that generation, if its JSON has at most 2 MiB and pydantic reads it back.
  pub get_item-set_item :
      (item : ItemResponse) (n : ℕ) (w : W)
      → n ≤ max_generation
      → stored w cache_generation_key ≡ some (show n)
      → utf8_length (codec.dump_item item) ≤ max_payload
      → codec.validate_item (codec.dump_item item) ≡ some item
      → ((set_item logger codec cache item (some (show n))
            >> get_item logger codec cache item.game_id)
          w).0
        ≡ ok (record { value = some item; generation = some (show n) })
  unfolding get_item set_item
  get_item-set_item item n w h e fits readable =
      >>-bind-ok (set_item logger codec cache item (some (show n))) _ _ w
        (get_entry-set_entry item_model (item_suffix item.game_id) item cache.item_ttl_seconds n w h
          e refl (unfold encode in fits) (unfold decode encode in readable))
        (λ w'. rw (eqℤ_refl item.game_id))

  -- The same of a page of at most 100 items, stored and read for the same parameters.
  pub get_list-set_list :
      (params : ItemListParams) (page : ItemListResponse) (n : ℕ) (w : W)
      → n ≤ max_generation
      → stored w cache_generation_key ≡ some (show n)
      → page.limit ≡ params.limit
      → page.offset ≡ params.offset
      → length page.items ≤ max_cached_list_items
      → utf8_length (encode codec list_model (list_suffix codec params) page) ≤ max_payload
      → PageLaws codec (list_suffix codec params) page
      → ((set_list logger codec cache params page (some (show n))
            >> get_list logger codec cache params)
          w).0
        ≡ ok (record { value = some page; generation = some (show n) })
  unfolding get_list set_list
  get_list-set_list params page n w h e same_limit same_offset few fits laws =
      let same = same_page_of params page same_limit same_offset in
      rw same (
        >>-bind-ok
          (set_entry logger codec cache list_model (list_suffix codec params) page
            cache.list_ttl_seconds (some (show n)))
          _ _ w
          (get_entry-set_entry list_model (list_suffix codec params) page cache.list_ttl_seconds n w
            h e (ground arith) fits (page_is_read_back codec _ page laws few))
          (λ w'. rw same))

  -- A write that was prepared before `invalidate` and arrives after it is not read: `get_item`
  -- misses, and names the new generation. No entry is stored for the new generation yet.
  pub get_item-late_set :
      (item : ItemResponse) (game_id : ℤ) (n : ℕ) (w : W)
      → n < max_generation
      → stored w cache_generation_key ≡ some (show n)
      → stored w (key (show (n + 1)) (item_suffix game_id)) ≡ none
      → utf8_length (codec.dump_item item) ≤ max_payload
      → codec.validate_item [] ≡ none
      → ((invalidate logger cache
            >> set_item logger codec cache item (some (show n))
            >> get_item logger codec cache game_id)
          w).0
        ≡ ok (missed (some (show (n + 1))))
  unfolding get_item set_item
  get_item-late_set item game_id n w h e fresh fits empty =
      >>-bind-ok (invalidate logger cache >> set_item logger codec cache item (some (show n))) _ _ w
        (get_entry-late_set item_model (item_suffix item.game_id) (item_suffix game_id) item
          cache.item_ttl_seconds n w h e fresh refl (unfold encode in fits)
          (unfold decode in empty))
        (λ w'. refl)
