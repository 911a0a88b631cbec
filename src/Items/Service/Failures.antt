-- ===== src/Items/Service/Failures.antt =====
-- Which calls `get_by_game_id` makes, told by the world that it leaves behind.
use platinum_gold_backend.Prelude.{Text, codes, ℤ, true, false, Option, none, some, ◌≡◌, refl}
use platinum_gold_backend.Errors.{Exc, ok, raised}
use platinum_gold_backend.Exec.{Exec, pure, raise, ◌>>=◌, >>=-ext}
use platinum_gold_backend.Core.Log.{Logger}
use platinum_gold_backend.Items.Schemas.{ItemResponse}
use platinum_gold_backend.Items.Repository.{ItemRecord, ItemRepository}
use platinum_gold_backend.Items.Service.{
  ItemCache, is_cache_failure, to_item_response, item_not_found, log_cache_failure, cache_read,
  respond_item, get_by_game_id,
}

module _ {W : Type 0} (logger : Logger W) (name_of : Exc → Text) (repository : ItemRepository W)
    (cache : ItemCache W) (game_id : ℤ) (w w' : W) where
  abbrev pub from_database : Option ItemRecord → Exec W ItemResponse
  from_database none = raise (item_not_found game_id)
  from_database (some item) = pure (to_item_response item)

  no_write_back :
      (o : Option ItemRecord) (v : W)
      → respond_item logger name_of repository cache game_id none o v ≡ from_database o v
  no_write_back none v = refl
  no_write_back (some item) v = refl

  -- A hit is returned at once: nothing happens after the read of the cache.
  pub get_by_game_id-hit :
      (value : ItemResponse) (g : Option Text)
      → cache.get_item game_id w ≡ (ok (record { value = some value; generation = g }), w')
      → get_by_game_id logger name_of repository cache game_id w ≡ (ok value, w')
  unfolding get_by_game_id cache_read
  get_by_game_id-hit value g e = rw e

  -- If the read of the cache fails in an expected way, one warning is logged, the repository is
  -- asked, and the cache is not written.
  pub get_by_game_id-cache_down :
      (e : Exc)
      → cache.get_item game_id w ≡ (raised e, w')
      → is_cache_failure e ≡ true
      → get_by_game_id logger name_of repository cache game_id w
        ≡ (repository.get_by_game_id game_id >>= from_database)
            (log_cache_failure logger name_of (codes "read") (codes "item") e w')
  unfolding get_by_game_id cache_read
  get_by_game_id-cache_down e raises expected =
      rw (raises, expected)
        (>>=-ext (repository.get_by_game_id game_id) _ from_database
          (log_cache_failure logger name_of (codes "read") (codes "item") e w') no_write_back)

  -- Any other exception of the cache is raised on, and the repository is not asked.
  pub get_by_game_id-unexpected :
      (e : Exc)
      → cache.get_item game_id w ≡ (raised e, w')
      → is_cache_failure e ≡ false
      → get_by_game_id logger name_of repository cache game_id w ≡ (raised e, w')
  unfolding get_by_game_id cache_read
  get_by_game_id-unexpected e raises other = rw (raises, other)

  -- After a miss, an item that the repository does not have is a 404, and nothing is cached.
  pub get_by_game_id-not_found :
      (g : Option Text) (w2 : W)
      → cache.get_item game_id w ≡ (ok (record { value = none; generation = g }), w')
      → repository.get_by_game_id game_id w' ≡ (ok none, w2)
      → get_by_game_id logger name_of repository cache game_id w
        ≡ (raised (item_not_found game_id), w2)
  unfolding get_by_game_id cache_read
  get_by_game_id-not_found g w2 misses missing = rw misses (rw missing)
