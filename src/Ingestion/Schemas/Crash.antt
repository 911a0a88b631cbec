-- ===== src/Ingestion/Schemas/Crash.antt =====
-- When `normalize_item_type` is called with None.
use platinum_gold_backend.Prelude.{
  codes, true, Option, none, some, ◌≡◌, ◌↔◌, refl, inl, inr, ◌⊎◌, arith, Bool-cases,
}
use platinum_gold_backend.Value.{Value, null, obj, Fields, get}
use platinum_gold_backend.Core.Platform.{Platform}
use platinum_gold_backend.Ingestion.Schemas.{
  Checked, valid, invalid, crashed, ◌>>=◌, require, item_import_fields, known_fields, item_type_of,
  validate_item, required_string, game_id_of, quality_of, optional_string, image_url_of,
}

require->>=-crashed {ℓ κ} :
    {A : Type ℓ} {B : Type κ} (o : Option A) (f : A → Checked B)
    → (require o >>= f) ≡ crashed
    → (a : A) × (f a ≡ crashed)
require->>=-crashed none f h = cc
require->>=-crashed (some a) f h = (a, h)

>>=-crashed {ℓ κ} :
    {A : Type ℓ} {B : Type κ} (m : Checked A) (f : A → Checked B)
    → (m >>= f) ≡ crashed
    → (m ≡ crashed) ⊎ ((a : A) × (f a ≡ crashed))
>>=-crashed (valid a) f h = inr (a, h)
>>=-crashed invalid f h = cc
>>=-crashed crashed f h = inl refl

valid-ne-crashed {ℓ} : {A : Type ℓ} {a : A} → valid a ≡ crashed → ⊥
valid-ne-crashed h = cc

module _ (platform : Platform) where
  -- A JSON object with known fields whose `type` is null.
  pub record HasNullType (v : Value) : Type 0 where
    pub fields : Fields
    pub is_object : v ≡ obj fields
    pub known : known_fields fields item_import_fields ≡ true
    pub null_type : get (codes "type") fields ≡ some null

  item_type_of-crashed : (o : Option Value) → item_type_of platform o ≡ crashed → o ≡ some null
  unfolding item_type_of
  item_type_of-crashed none h = cc
  item_type_of-crashed (some null) h = refl
  item_type_of-crashed (some v) h = absurd (ground arith)

  crashed_type : (v : Value) → validate_item platform v ≡ crashed → HasNullType v
  unfolding validate_item
  crashed_type (obj fields) h = elim (Bool-cases (known_fields fields item_import_fields)) [
    | inr unknown ↦ absurd (ground arith)
    | inl known ↦
        elim (>>=-crashed (item_type_of platform (get (codes "type") fields)) _ (rw known at h)) [
          | inl bad ↦ record {
            fields = fields;
            is_object = refl;
            known = known;
            null_type = item_type_of-crashed _ bad;
          }
          | inr (t, h1) ↦
              let (a0, h2) = require->>=-crashed (game_id_of (get (codes "gameId") fields)) _ h1 in
              let (a1, h3) =
                require->>=-crashed (required_string platform (get (codes "name") fields)) _ h2 in
              let (a2, h4) =
                require->>=-crashed (required_string platform (get (codes "description") fields)) _
                  h3 in
              let (a3, h5) = require->>=-crashed (quality_of (get (codes "quality") fields)) _ h4 in
              let (a4, h6) =
                require->>=-crashed (optional_string platform (get (codes "rechargeTime") fields)) _
                  h5 in
              let (a5, h7) =
                require->>=-crashed
                  (image_url_of platform (required_string platform (get (codes "imageUrl") fields)))
                  _ h6 in
              let (a6, h8) =
                require->>=-crashed
                  (optional_string platform (get (codes "introducedInVersion") fields)) _ h7 in
              absurd (valid-ne-crashed h8)
        ]
  ]
  crashed_type _ h = absurd (ground arith)

  null_crashes : (v : Value) → HasNullType v → validate_item platform v ≡ crashed
  unfolding validate_item item_type_of
  null_crashes v h = rw h.is_object (rw h.known (rw h.null_type))

  -- The validation of an item raises AttributeError exactly if the item is an object of known
  -- fields whose `type` is null, whatever its other fields hold.
  pub validate_item-crashed_iff : (v : Value) → (validate_item platform v ≡ crashed) ↔ HasNullType v
  validate_item-crashed_iff v = (crashed_type v, null_crashes v)
