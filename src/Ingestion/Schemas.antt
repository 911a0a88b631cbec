-- ===== src/Ingestion/Schemas.antt =====
-- app/ingestion/schemas.py: the snapshot schema. The declared constraints are read by pydantic in
-- strict mode: a model reports all its invalid fields, so an exception that is no ValueError
-- passes by them, and a list with `FailFast` stops at its first invalid element.
pub mod Crash
pub mod Duplicates
pub mod FieldBounds
pub mod Accepted
use platinum_gold_backend.Prelude.{
  ℕ, zero, suc, Text, String, codes, ℤ, pos, lebℤ, eqℤ, Bool, true, false, ltb, leb, ◌==◌, not,
  ◌&&◌, ◌||◌, length, take, all, any, has_char, mem_text, is_control, is_empty, is_some, Option,
  none, some, List, [], ◌∷◌, map, if◌then◌else◌, text_eq,
}
use platinum_gold_backend.Value.{
  Value, null, bool, int, float, str, arr, obj, Fields, elems, keys, get,
}
use platinum_gold_backend.Core.Platform.{SplitUrl, Platform}

abbrev pub max_game_id : ℕ
max_game_id = 2147483647

abbrev pub max_snapshot_items : ℕ
max_snapshot_items = 10000

abbrev pub max_snapshot_string_length : ℕ
max_snapshot_string_length = 4096

-- The result of a validation. `crashed`: a validator raised AttributeError.
pub data Checked {ℓ} (A : Type ℓ) : Type ℓ where
  valid : A → Checked A
  invalid : Checked A
  crashed : Checked A

infixl 10 ◌>>=◌
abbrev pub ◌>>=◌ {ℓ κ} : {A : Type ℓ} {B : Type κ} → Checked A → (A → Checked B) → Checked B
valid a >>= f = f a
invalid >>= f = invalid
crashed >>= f = crashed

abbrev pub require {ℓ} : {A : Type ℓ} → Option A → Checked A
require none = invalid
require (some a) = valid a

pub record ItemImport : Type 0 where
  pub game_id : ℤ
  pub name : Text
  pub description : Text
  pub quality : Option ℤ
  pub item_type : Option Text
  pub recharge_time : Option Text
  pub image_url : Text
  pub introduced_in_version : Option Text

pub record ItemSnapshot : Type 0 where
  pub dataset_version : Text
  pub game_version : Option Text
  pub items : List ItemImport

abbrev pub item_import_fields : List Text
item_import_fields =
    codes "gameId"
    ∷ codes "name"
    ∷ codes "description"
    ∷ codes "quality"
    ∷ codes "type"
    ∷ codes "rechargeTime"
    ∷ codes "imageUrl"
    ∷ codes "introducedInVersion"
    ∷ []

abbrev pub snapshot_fields : List Text
snapshot_fields = codes "datasetVersion" ∷ codes "gameVersion" ∷ codes "items" ∷ []

-- `reject_unknown_fields` lets a dict through
unfoldable pub known_fields : Fields → List Text → Bool
known_fields fields allowed = all (λ key. mem_text key allowed) (keys fields)

-- StrictInt with Field(gt=0, le=MAX_GAME_ID)
unfoldable pub game_id_of : Option Value → Option ℤ
game_id_of (some (int n)) = if lebℤ (pos 1) n && lebℤ n (pos max_game_id) then some n else none
game_id_of _ = none

-- StrictInt | None with Field(ge=0, le=4), required
unfoldable pub quality_of : Option Value → Option (Option ℤ)
quality_of (some null) = some none
quality_of (some (int n)) = if lebℤ (pos 0) n && lebℤ n (pos 4) then some (some n) else none
quality_of _ = none

-- `len(game_ids) != len(set(game_ids))`
abbrev pub mem_int : ℤ → List ℤ → Bool
mem_int n [] = false
mem_int n (m ∷ ms) = eqℤ n m || mem_int n ms

unfoldable pub set_of : List ℤ → List ℤ
set_of [] = []
set_of (n ∷ ns) = let rest = set_of ns in if mem_int n rest then rest else n ∷ rest

unfoldable pub reject_duplicate_game_ids : ItemSnapshot → Checked ItemSnapshot
reject_duplicate_game_ids snapshot =
    let game_ids = map (λ item. item.game_id) snapshot.items in
    if length game_ids == length (set_of game_ids) then valid snapshot else invalid

module _ (platform : Platform) where
  open platform use {isspace, lower, strip, urlsplit}

  -- `reject_nul`
  abbrev pub reject_nul : Text → Option Text
  reject_nul t = if has_char 0 t then none else some t

  -- StringConstraints(min_length=1, max_length=MAX, strip_whitespace=True), then `reject_nul`
  abbrev pub constrained : Text → Option Text
  constrained t =
      if leb 1 (length t) && leb (length t) max_snapshot_string_length then reject_nul t else none

  -- NonEmptyString: `reject_oversized_string` looks at the string before it is stripped
  unfoldable pub non_empty_string : Value → Option Text
  non_empty_string (str s) =
      if ltb max_snapshot_string_length (length s) then none else constrained (strip s)
  non_empty_string _ = none

  abbrev pub required_string : Option Value → Option Text
  required_string none = none
  required_string (some v) = non_empty_string v

  abbrev pub nullable_string : Value → Option (Option Text)
  nullable_string null = some none
  nullable_string v = elim (non_empty_string v) [ none ↦ none | some t ↦ some (some t) ]

  -- NonEmptyString | None = Field(default=None)
  unfoldable pub optional_string : Option Value → Option (Option Text)
  unfolding non_empty_string
  optional_string none = some none
  optional_string (some v) = nullable_string v

  -- `value.lower()`; None has no `lower`
  abbrev pub lowered : Option Text → Checked (Option Text)
  lowered none = crashed
  lowered (some t) = valid (some (lower t))

  -- The field `type` with `normalize_item_type`: a default is not validated, a given null is.
  unfoldable pub item_type_of : Option Value → Checked (Option Text)
  unfolding non_empty_string
  item_type_of none = valid none
  item_type_of (some v) = do t ← require (nullable_string v); lowered t

  abbrev pub port_ok : Option (Option ℕ) → Bool
  port_ok none = false
  port_ok (some none) = true
  port_ok (some (some port)) = leb port 65535

  -- `netloc.endswith(":")`
  abbrev pub ends_with_colon : Text → Bool
  ends_with_colon [] = false
  ends_with_colon (c ∷ []) = c == b':'
  ends_with_colon (c ∷ d ∷ s) = ends_with_colon (d ∷ s)

  abbrev pub url_refused : Text → SplitUrl → Bool
  url_refused value parsed =
      not (text_eq parsed.scheme (codes "http") || text_eq parsed.scheme (codes "https"))
      || is_empty parsed.netloc
      || not (is_some parsed.hostname)
      || ends_with_colon parsed.netloc
      || is_some parsed.username
      || is_some parsed.password
      || has_char b'\\' value
      || any (λ c. isspace c || is_control c) value

  abbrev pub url_accepted : Text → Option SplitUrl → Bool
  url_accepted value none = false
  url_accepted value (some parsed) = if url_refused value parsed then false else port_ok parsed.port

  unfoldable pub validate_image_url : Text → Option Text
  validate_image_url value = if url_accepted value (urlsplit value) then some value else none

  abbrev pub image_url_of : Option Text → Option Text
  image_url_of none = none
  image_url_of (some t) = validate_image_url t

  -- `ItemImport.model_validate`
  unfoldable pub validate_item : Value → Checked ItemImport
  validate_item (obj fields) = if not (known_fields fields item_import_fields) then invalid else (do
    item_type ← item_type_of (get (codes "type") fields)
    game_id ← require (game_id_of (get (codes "gameId") fields))
    name ← require (required_string (get (codes "name") fields))
    description ← require (required_string (get (codes "description") fields))
    quality ← require (quality_of (get (codes "quality") fields))
    recharge_time ← require (optional_string (get (codes "rechargeTime") fields))
    image_url ← require (image_url_of (required_string (get (codes "imageUrl") fields)))
    version ← require (optional_string (get (codes "introducedInVersion") fields))
    valid (record {
      game_id = game_id;
      name = name;
      description = description;
      quality = quality;
      item_type = item_type;
      recharge_time = recharge_time;
      image_url = image_url;
      introduced_in_version = version;
    }))
  validate_item _ = invalid

  unfoldable pub validate_items : List Value → Checked (List ItemImport)
  validate_items [] = valid []
  validate_items (v ∷ vs) = do item ← validate_item v; rest ← validate_items vs; valid (item ∷ rest)

  -- list[ItemImport] with FailFast, min_length=1 and max_length: an element behind the maximum
  -- is not reached
  abbrev pub items_of : Option Value → Checked (List ItemImport)
  items_of (some (arr vs)) = do
    items ← validate_items (take max_snapshot_items (elems vs))
    (if leb 1 (length (elems vs)) && leb (length (elems vs)) max_snapshot_items
        then valid items
        else invalid)
  items_of _ = invalid

  -- `ItemSnapshot.model_validate`
  unfoldable pub validate_snapshot : Value → Checked ItemSnapshot
  validate_snapshot (obj fields) =
      if not (known_fields fields snapshot_fields) then invalid else (do
        items ← items_of (get (codes "items") fields)
        dataset_version ← require (required_string (get (codes "datasetVersion") fields))
        game_version ← require (optional_string (get (codes "gameVersion") fields))
        reject_duplicate_game_ids (record {
          dataset_version = dataset_version;
          game_version = game_version;
          items = items;
        }))
  validate_snapshot _ = invalid
