-- ===== src/Items/Cache/Contract.antt =====
-- What the cache relies on: the documented behaviour of Redis between two calls of one client,
-- and of the codecs. Theorems about what was stored take these as parameters.
use platinum_gold_backend.Prelude.{
  ℕ, length, codes, ◌+◌, ◌≤◌, ◌<◌, Text, pos, true, false, Option, none, some, [], ◌≡◌, ◌≢◌,
}
use platinum_gold_backend.Prelude.Decimal.{show}
use platinum_gold_backend.Errors.{ok}
use platinum_gold_backend.Core.Log.{LogRecord, Logger}
use platinum_gold_backend.Items.Cache.Client.{text, RedisCacheClient, Codec, ListCacheEnvelope}
use platinum_gold_backend.Items.Cache.Redis.{utf8_length}
use platinum_gold_backend.Items.Schemas.{ItemListResponse}
use platinum_gold_backend.Value.{obj, arr, str, field, end, Fields, Elems, elems, get}

-- `stored w k` is the string that Redis holds under `k`. The client decodes its responses.
pub record Redis {W : Type 0} (logger : Logger W) (client : RedisCacheClient W) : Type 1 where
  pub stored : W → Text → Option Text
  -- logging does not touch Redis
  pub stored-warning :
      (r : LogRecord) (w : W) (k : Text) → stored (logger.warning r w) k ≡ stored w k
  -- GETRANGE k 0 n: the whole value if it has at most n + 1 bytes, "" if there is none
  pub getrange_present :
      (k : Text) (n : ℕ) (w : W) (v : Text)
      → stored w k ≡ some v
      → utf8_length v ≤ n + 1
      → client.getrange k 0 n w ≡ (ok (text v), w)
  pub getrange_absent :
      (k : Text) (n : ℕ) (w : W) → stored w k ≡ none → client.getrange k 0 n w ≡ (ok (text []), w)
  -- SET k v EX ttl
  pub set_ok : (k v : Text) (ttl : ℕ) (w : W) → (client.set k v (some ttl) false w).0 ≡ ok true
  pub set_self :
      (k v : Text) (ttl : ℕ) (w : W) → stored (client.set k v (some ttl) false w).1 k ≡ some v
  pub set_other :
      (k j v : Text) (ttl : ℕ) (w : W)
      → k ≢ j
      → stored (client.set k v (some ttl) false w).1 j ≡ stored w j
  -- INCR k, below the largest signed 64-bit integer
  pub incr_ok :
      (k : Text) (n : ℕ) (w : W)
      → stored w k ≡ some (show n)
      → n < 9223372036854775807
      → (client.incr k w).0 ≡ ok (pos (n + 1))
  pub incr_self :
      (k : Text) (n : ℕ) (w : W)
      → stored w k ≡ some (show n)
      → n < 9223372036854775807
      → stored (client.incr k w).1 k ≡ some (show (n + 1))
  pub incr_other : (k j : Text) (w : W) → k ≢ j → stored (client.incr k w).1 j ≡ stored w j

-- The envelope that holds a page is a JSON object of its two fields, and a dumped page holds its
-- items under "items"; pydantic reads back what it dumped.
abbrev pub envelope_of : Codec → Text → ItemListResponse → ListCacheEnvelope
envelope_of codec s page = record { cache_key = s; payload = codec.dump_list page }

pub record PageLaws (codec : Codec) (s : Text) (page : ItemListResponse) : Type 0 where
  pub fields : Fields
  pub elements : Elems
  pub dumped : codec.dump_list page ≡ obj fields
  pub listed : get (codes "items") fields ≡ some (arr elements)
  pub counted : length (elems elements) ≡ length page.items
  pub list_read : codec.validate_list (codec.dump_list page) ≡ some page
  pub envelope_read :
      codec.validate_envelope (codec.dump_envelope (envelope_of codec s page))
      ≡ some (envelope_of codec s page)
  pub envelope_json :
      codec.loads (codec.dump_envelope (envelope_of codec s page))
      ≡ some (
          obj
            (field (codes "cacheKey") (str s) (field (codes "payload") (codec.dump_list page) end)))
