-- ===== src/Items/Cache/Stored.antt =====
-- `_generation`, `_get` and `_set` over a Redis that behaves as documented, one call at a time.
use platinum_gold_backend.Prelude.{
  codes, ℕ, ◌≤◌, Text, true, false, ltb, all, is_digit, isdigit, length, none, some, [], ◌∷◌, ◌≡◌,
  refl, ◌∙◌, arith, text_eq_refl,
}
use platinum_gold_backend.Prelude.Decimal.{show, all-show, isdigit-show, length-show}
use platinum_gold_backend.Errors.{ok}
use platinum_gold_backend.Exec.{>>=-step}
use platinum_gold_backend.Core.Log.{Logger}
use platinum_gold_backend.Items.Cache.Client.{
  cache_generation_key, max_generation, max_generation_digits, max_cache_payload_bytes, text, Codec,
  missed, RedisItemCache,
}
use platinum_gold_backend.Items.Cache.Generation.{is_blank, read_generation, generation}
use platinum_gold_backend.Items.Cache.Generation.Parsing.{parse_generation-show}
use platinum_gold_backend.Items.Cache.Redis.{
  Model, Payload, key, utf8_length, payload_text, decode, encode, too_many_items, read_payload,
  get_entry, set_entry,
}
use platinum_gold_backend.Items.Cache.Contract.{Redis}

utf8_length-digits : (s : Text) → all is_digit s ≡ true → utf8_length s ≡ length s
utf8_length-digits [] d = refl
utf8_length-digits (c ∷ s) d = ground (arith, utf8_length-digits s)

not_blank : (s : Text) → isdigit s ≡ true → is_blank (text s) ≡ false
not_blank [] h = ground arith
not_blank (c ∷ s) h = refl

not_above :
    (v : Text)
    → utf8_length v ≤ max_cache_payload_bytes
    → ltb max_cache_payload_bytes (utf8_length v) ≡ false
not_above v h = ground arith

abbrev pub max_payload : ℕ
max_payload = max_cache_payload_bytes

module _ {W : Type 0} (logger : Logger W) (codec : Codec) (cache : RedisItemCache W)
    (store : Redis logger cache.redis) where
  open store use {stored}

  read_generation_stored :
      (n : ℕ) (w : W)
      → n ≤ max_generation
      → stored w cache_generation_key ≡ some (show n)
      → read_generation logger cache w ≡ (ok (some (text (show n))), w)
  unfolding read_generation
  read_generation_stored n w h e = rw (
      store.getrange_present cache_generation_key max_generation_digits w (show n) e
        (omega (arith, utf8_length-digits (show n) (all-show n), length-show n 18 (omega arith))))

  -- With the pointer n in Redis, `_generation` is a pure read of n.
  pub generation_stored :
      (n : ℕ) (w : W)
      → n ≤ max_generation
      → stored w cache_generation_key ≡ some (show n)
      → generation logger cache w ≡ (ok (some (show n)), w)
  unfolding generation
  generation_stored n w h e =
      >>=-step (read_generation logger cache) _ w (read_generation_stored n w h e)
      ∙ rw (not_blank (show n) (isdigit-show n)) (rw ((parse_generation-show n h).1))

  read_payload_stored :
      (g s v : Text) (w : W)
      → stored w (key g s) ≡ some v
      → utf8_length v ≤ max_payload
      → read_payload logger codec cache g s w ≡ (ok (some (text v)), w)
  unfolding read_payload
  read_payload_stored g s v w e h =
      rw (store.getrange_present (key g s) max_cache_payload_bytes w v e (omega arith))

  read_payload_absent :
      (g s : Text) (w : W)
      → stored w (key g s) ≡ none
      → read_payload logger codec cache g s w ≡ (ok (some (text [])), w)
  unfolding read_payload
  read_payload_absent g s w e = rw (store.getrange_absent (key g s) max_cache_payload_bytes w e)

  -- With a valid pointer and an entry that decodes, `_get` is a pure read of the entry.
  pub get_entry_stored :
      (m : Model) (s v : Text) (value : Payload m) (n : ℕ) (w : W)
      → n ≤ max_generation
      → stored w cache_generation_key ≡ some (show n)
      → stored w (key (show n) s) ≡ some v
      → utf8_length v ≤ max_payload
      → decode codec m s v ≡ some value
      → get_entry logger codec cache m s w
        ≡ (ok (record { value = some value; generation = some (show n) }), w)
  unfolding get_entry payload_text
  get_entry_stored m s v value n w h e ev fits d =
      >>=-step (generation logger cache) _ w (generation_stored n w h e)
      ∙ >>=-step (read_payload logger codec cache (show n) s) _ w
          (read_payload_stored (show n) s v w ev fits)
      ∙ >>=-step (generation logger cache) _ w (generation_stored n w h e)
      ∙ rw (text_eq_refl (show n)) (rw (not_above v fits) (rw d))

  -- With a valid pointer and no entry under the key, a lookup misses with that generation, and
  -- warns of an invalid payload: the empty answer of GETRANGE is not JSON.
  pub get_entry_absent :
      (m : Model) (s : Text) (n : ℕ) (w : W)
      → n ≤ max_generation
      → stored w cache_generation_key ≡ some (show n)
      → stored w (key (show n) s) ≡ none
      → decode codec m s [] ≡ none
      → get_entry logger codec cache m s w ≡ (
        ok (missed (some (show n))),
        logger.warning (record { event = codes "cache_payload_invalid"; extra = [] }) w,
      )
  unfolding get_entry payload_text
  get_entry_absent m s n w h e ev d =
      >>=-step (generation logger cache) _ w (generation_stored n w h e)
      ∙ >>=-step (read_payload logger codec cache (show n) s) _ w
          (read_payload_absent (show n) s w ev)
      ∙ >>=-step (generation logger cache) _ w (generation_stored n w h e)
      ∙ rw (text_eq_refl (show n)) (rw d)

  -- A value that is small enough is written by one SET with its expiry.
  pub set_entry_stored :
      (m : Model) (s : Text) (value : Payload m) (ttl : ℕ) (g : Text) (w : W)
      → too_many_items m value ≡ false
      → utf8_length (encode codec m s value) ≤ max_payload
      → set_entry logger codec cache m s value ttl (some g) w
        ≡ (ok tt, (cache.redis.set (key g s) (encode codec m s value) (some ttl) false w).1)
  unfolding set_entry
  set_entry_stored m s value ttl g w few fits = rw few (
      rw (not_above (encode codec m s value) fits)
        (rw (store.set_ok (key g s) (encode codec m s value) ttl w)))
