-- ===== src/Items/Cache/Hits.antt =====
-- What a cache hit means: where the value came from, and that the generation did not move.
use platinum_gold_backend.Prelude.{
  Text, ◌≡◌, refl, ℤ, Bool, true, text_eq-eq, eqℤ-eq, Option, none, some, arith, Bool-cases, inl,
  inr, sym, ◌∙◌, and-eq-true_iff,
}
use platinum_gold_backend.Errors.{ok}
use platinum_gold_backend.Exec.{◌>>=◌, >>=-eq-ok}
use platinum_gold_backend.Core.Log.{Logger}
use platinum_gold_backend.Items.Schemas.{
  ItemResponse, ItemListParams, ItemListResponse, MetaResponse,
}
use platinum_gold_backend.Items.Cache.Client.{Reply, Codec, CacheLookup, RedisItemCache}
use platinum_gold_backend.Items.Cache.Generation.{generation}
use platinum_gold_backend.Items.Cache.Generation.Parsing.{IsGeneration}
use platinum_gold_backend.Items.Cache.Generation.Reading.{generation-IsGeneration}
use platinum_gold_backend.Items.Cache.Redis.{
  Model, item_model, list_model, meta_model, Payload, payload_text, decode, item_suffix,
  list_suffix, meta_suffix, decoded, from_text, same_generation, after_read, read_payload, get_at,
  get_entry, keep_if, same_page, get_item, get_list, get_meta,
}

same_generation-eq : (g : Text) (o : Option Text) → same_generation g o ≡ true → o ≡ some g
same_generation-eq g none h = ground arith
same_generation-eq g (some c) h = ground (arith, text_eq-eq c g)

module _ {W : Type 0} (logger : Logger W) (codec : Codec) (cache : RedisItemCache W) where
  -- A hit at `g`: the pointer read before the entry and the pointer read after it are both `g`,
  -- and the value is what the entry under the key of `g` decodes to.
  pub record IsHit (m : Model) (suffix : Text) (w : W) (value : Payload m) (g : Text) : Type 0 where
    pub reply : Reply
    pub payload : Text
    pub before : (generation logger cache w).0 ≡ ok (some g)
    pub read :
        (read_payload logger codec cache g suffix (generation logger cache w).1).0 ≡ ok (some reply)
    pub after :
        (generation logger cache
          (read_payload logger codec cache g suffix (generation logger cache w).1).1).0
        ≡ ok (some g)
    pub text : payload_text codec (some reply) ≡ some payload
    pub value_of : decode codec m suffix payload ≡ some value
    pub valid : IsGeneration g

  abbrev Hit : (m : Model) → Text → W → CacheLookup (Payload m) → Type 0
  Hit m suffix w lookup =
      (value : Payload m)
      → lookup.value ≡ some value
      → (g : Text) × (lookup.generation ≡ some g) × IsHit m suffix w value g

  decoded-hit :
      {A : Type 0} (g : Text) (o : Option A) (w : W) (lookup : CacheLookup A) (value : A)
      → (decoded logger codec cache g o w).0 ≡ ok lookup
      → lookup.value ≡ some value
      → (o ≡ some value) × (lookup.generation ≡ some g)
  decoded-hit g none w lookup value h v = ground arith
  decoded-hit g (some a) w lookup value h v = ground arith

  from_text-hit :
      (m : Model) (suffix g : Text) (o : Option Text) (w : W) (lookup : CacheLookup (Payload m))
      (value : Payload m)
      → (from_text logger codec cache m suffix g o w).0 ≡ ok lookup
      → lookup.value ≡ some value
      → (p : Text) × (o ≡ some p)
        × (decode codec m suffix p ≡ some value)
        × (lookup.generation ≡ some g)
  from_text-hit m suffix g none w lookup value h v = ground arith
  from_text-hit m suffix g (some p) w lookup value h v =
      let (d, same) = decoded-hit g (decode codec m suffix p) w lookup value h v in
      (p, refl, d, same)

  after_read-hit :
      (m : Model) (suffix g : Text) (o : Option Reply) (w : W) (lookup : CacheLookup (Payload m))
      (value : Payload m)
      → (after_read logger codec cache m suffix g o w).0 ≡ ok lookup
      → lookup.value ≡ some value
      → (reply : Reply) × (p : Text) × (o ≡ some reply)
        × ((generation logger cache w).0 ≡ ok (some g))
        × (payload_text codec (some reply) ≡ some p)
        × (decode codec m suffix p ≡ some value)
        × (lookup.generation ≡ some g)
  after_read-hit m suffix g none w lookup value h v = absurd (ground arith)
  after_read-hit m suffix g (some reply) w lookup value h v =
      let (current, e, rest) = >>=-eq-ok (generation logger cache) _ w h in
      elim (Bool-cases (same_generation g current)) [
        | inl same ↦
            let (p, t, d, kept) =
              from_text-hit m suffix g (payload_text codec (some reply)) _ lookup value
                (rw same at rest) v in
            (reply, p, refl, rw (← same_generation-eq g current same) e, t, d, kept)
        | inr moved ↦ absurd (ground arith)
      ]

  get_at-Hit :
      (m : Model) (suffix : Text) (w : W) (o : Option Text) (lookup : CacheLookup (Payload m))
      → (generation logger cache w).0 ≡ ok o
      → (get_at logger codec cache m suffix o (generation logger cache w).1).0 ≡ ok lookup
      → Hit m suffix w lookup
  get_at-Hit m suffix w none lookup e h value v = absurd (ground arith)
  get_at-Hit m suffix w (some g) lookup e h value v =
      let w1 = (generation logger cache w).1 in
      let (o, eo, rest) = >>=-eq-ok (read_payload logger codec cache g suffix) _ w1 h in
      let (reply, p, found, again, t, d, kept) =
        after_read-hit m suffix g o (read_payload logger codec cache g suffix w1).1 lookup value
          rest v in
      (
        g,
        kept,
        record {
          reply = reply;
          payload = p;
          before = e;
          read = rw (← found) eo;
          after = again;
          text = t;
          value_of = d;
          valid = generation-IsGeneration logger cache w g e;
        },
      )

  pub get_entry-IsHit :
      (m : Model) (suffix : Text) (w : W) (lookup : CacheLookup (Payload m))
      → (get_entry logger codec cache m suffix w).0 ≡ ok lookup
      → Hit m suffix w lookup
  unfolding get_entry
  get_entry-IsHit m suffix w lookup h =
      let (o, e, rest) = >>=-eq-ok (generation logger cache) _ w h in
      get_at-Hit m suffix w o lookup e rest

  keep_if-hit :
      {A : Type 0} (fits : A → Bool) (found lookup : CacheLookup A) (w : W) (value : A)
      → (keep_if logger codec cache fits found w).0 ≡ ok lookup
      → lookup.value ≡ some value
      → (fits value ≡ true) × (found.value ≡ some value) × (found.generation ≡ lookup.generation)
  keep_if-hit fits found lookup w value h v = ground arith

  -- A read of a cached value that checks what it was asked for.
  checked-IsHit :
      (m : Model) (suffix : Text) (fits : Payload m → Bool) (w : W)
      (lookup : CacheLookup (Payload m)) (value : Payload m)
      → ((get_entry logger codec cache m suffix >>= keep_if logger codec cache fits) w).0
        ≡ ok lookup
      → lookup.value ≡ some value
      → (fits value ≡ true) × ((g : Text) × (lookup.generation ≡ some g) × IsHit m suffix w value g)
  checked-IsHit m suffix fits w lookup value h v =
      let (found, e, rest) = >>=-eq-ok (get_entry logger codec cache m suffix) _ w h in
      let (fit, same, kept) = keep_if-hit fits found lookup _ value rest v in
      let (g, eg, hit) = get_entry-IsHit m suffix w found e value same in
      (fit, (g, sym kept ∙ eg, hit))

  -- If `get_item` returns a value, it is the item that was asked for, it was decoded from what
  -- Redis holds under that item's key of generation g, and g is a valid generation that
  -- `_generation` returned both before and after the entry was read.
  pub get_item-IsHit :
      (game_id : ℤ) (w : W) (lookup : CacheLookup ItemResponse) (value : ItemResponse)
      → (get_item logger codec cache game_id w).0 ≡ ok lookup
      → lookup.value ≡ some value
      → (value.game_id ≡ game_id)
        × ((g : Text) × (lookup.generation ≡ some g)
            × IsHit item_model (item_suffix game_id) w value g)
  unfolding get_item
  get_item-IsHit game_id w lookup value h v =
      let (fit, hit) = checked-IsHit item_model _ _ w lookup value h v in
      (eqℤ-eq value.game_id game_id fit, hit)

  -- The same of `get_list`: the page has the limit and the offset that were asked for.
  pub get_list-IsHit :
      (params : ItemListParams) (w : W) (lookup : CacheLookup ItemListResponse)
      (value : ItemListResponse)
      → (get_list logger codec cache params w).0 ≡ ok lookup
      → lookup.value ≡ some value
      → (value.limit ≡ params.limit)
        × (value.offset ≡ params.offset)
        × ((g : Text) × (lookup.generation ≡ some g)
            × IsHit list_model (list_suffix codec params) w value g)
  unfolding get_list
  get_list-IsHit params w lookup value h v =
      let (fit, hit) = checked-IsHit list_model _ (same_page params) w lookup value h v in
      let (l, o) = (and-eq-true_iff _ _).0 fit in
      (eqℤ-eq value.limit params.limit l, eqℤ-eq value.offset params.offset o, hit)

  -- The same of `get_meta`: the metadata is that of the API version asked for.
  pub get_meta-IsHit :
      (api_version : Text) (w : W) (lookup : CacheLookup MetaResponse) (value : MetaResponse)
      → (get_meta logger codec cache api_version w).0 ≡ ok lookup
      → lookup.value ≡ some value
      → (value.api_version ≡ api_version)
        × ((g : Text) × (lookup.generation ≡ some g)
            × IsHit meta_model (meta_suffix api_version) w value g)
  unfolding get_meta
  get_meta-IsHit api_version w lookup value h v =
      let (fit, hit) = checked-IsHit meta_model _ _ w lookup value h v in
      (text_eq-eq value.api_version api_version fit, hit)
