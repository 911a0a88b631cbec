-- ===== src/Items/Cache/Generation.antt =====
-- app/items/cache.py: the generation number (`_parse_generation`, `_generation`, `invalidate`).
pub mod Parsing
pub mod Reading
use platinum_gold_backend.Prelude.{
  ℕ, Text, codes, Bool, true, false, ltb, leb, not, ◌||◌, isascii, isdigit, length, Option, none,
  some, [], if◌then◌else◌, ℤ,
}
use platinum_gold_backend.Prelude.Decimal.{show, read, show_int}
use platinum_gold_backend.Errors.{value_error, is_unicode_error}
use platinum_gold_backend.Exec.{Exec, pure, raise, effect, try_except, ◌>>=◌, ◌>>◌}
use platinum_gold_backend.Core.Log.{LogRecord, Logger}
use platinum_gold_backend.Items.Cache.Client.{
  cache_generation_key, max_generation, max_generation_digits, Reply, bytes, text, RedisItemCache,
}

unfoldable pub parse_text : Text → Option Text
parse_text t =
    if not (isascii t) || not (isdigit t) || ltb max_generation_digits (length t)
    then none
    else if leb (read 0 t) max_generation
    then some (show (read 0 t))
    else none

-- `value.decode("ascii")` fails on a byte above 127.
unfoldable pub parse_generation : Reply → Option Text
parse_generation (bytes b) = if isascii b then parse_text b else none
parse_generation (text t) = parse_text t

-- `value == "" or value == b""`
abbrev pub is_blank : Reply → Bool
is_blank (bytes []) = true
is_blank (text []) = true
is_blank _ = false

abbrev pub event_only : Text → LogRecord
event_only event = record { event = event; extra = [] }

module _ {W : Type 0} (logger : Logger W) (cache : RedisItemCache W) where
  -- `_log_invalid_payload`
  abbrev pub log_invalid_payload : Exec W Unit
  log_invalid_payload = effect (logger.warning (event_only (codes "cache_payload_invalid"))) tt

  -- the read of the pointer, with its `except UnicodeDecodeError`
  unfoldable pub read_generation : Exec W (Option Reply)
  unfolding is_unicode_error
  read_generation =
      try_except
        (do
          reply ← cache.redis.getrange cache_generation_key 0 max_generation_digits
          pure (some reply))
        is_unicode_error (λ _. log_invalid_payload >> pure none)

  abbrev pub checked_option : Option Text → Exec W (Option Text)
  checked_option none = effect (logger.warning (event_only (codes "cache_generation_invalid"))) none
  checked_option (some g) = pure (some g)

  -- the end of `_generation`: an invalid pointer is logged
  abbrev pub checked : Reply → Exec W (Option Text)
  checked reply = checked_option (parse_generation reply)

  -- after a lost `SET NX`: the other writer's pointer is read
  abbrev pub reread : Option Reply → Exec W (Option Text)
  reread none = pure none
  reread (some reply) = if is_blank reply then pure none else checked reply

  abbrev pub store_candidate : Text → Option Text → Exec W (Option Text)
  store_candidate candidate none =
      raise (value_error (codes "cache generation factory returned an invalid value"))
  store_candidate candidate (some _) = do
    stored ← cache.redis.set cache_generation_key candidate none true
    if stored then pure (some candidate) else (do again ← read_generation; reread again)

  -- no pointer is stored: make one, and store it unless another process was first
  unfoldable pub create_generation : Exec W (Option Text)
  create_generation = do
    n ← cache.generation_factory
    store_candidate (show_int n) (parse_generation (text (show_int n)))

  abbrev pub from_reply : Option Reply → Exec W (Option Text)
  from_reply none = pure none
  from_reply (some reply) = if is_blank reply then create_generation else checked reply

  -- `_generation`
  unfoldable pub generation : Exec W (Option Text)
  generation = do reply ← read_generation; from_reply reply

  abbrev pub increment : Option Text → Exec W ℤ
  increment none = raise (value_error (codes "cache generation is invalid"))
  increment (some _) = cache.redis.incr cache_generation_key

  unfoldable pub invalidate : Exec W ℤ
  invalidate = do current ← generation; increment current
