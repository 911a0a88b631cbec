-- ===== src/Ingestion/Samples.antt =====
-- A snapshot of one item, as a document and as a validated value, and a platform to validate it on.
use platinum_gold_backend.Prelude.{codes, pos, ◌==◌, none, some, [], ◌∷◌, text_eq}
use platinum_gold_backend.Value.{Value, int, str, arr, obj, nil, cons, end, field, get}
use platinum_gold_backend.Core.Platform.{SplitUrl, Platform}
use platinum_gold_backend.Ingestion.Schemas.{
  ItemImport, ItemSnapshot, known_fields, game_id_of, quality_of, set_of, reject_duplicate_game_ids,
  non_empty_string, optional_string, item_type_of, validate_image_url, validate_item,
  validate_items, validate_snapshot,
}

abbrev pub example_url : SplitUrl
example_url = record {
  scheme = codes "https";
  netloc = codes "example.com";
  path = codes "/118.png";
  query = [];
  fragment = [];
  username = none;
  password = none;
  hostname = some (codes "example.com");
  port = some none;
}

abbrev pub platform : Platform
platform = record {
  isspace = λ c. c == b' ';
  lower = λ t. t;
  strip = λ t. t;
  urlsplit = λ t. some example_url;
  unquote = λ t. t;
  parse_qs = λ t. some [];
}

abbrev pub item_document : Value → Value
item_document type = obj (
    field (codes "gameId") (int (pos 118)) (
      field (codes "name") (str (codes "Brimstone")) (
        field (codes "description") (str (codes "A laser beam.")) (
          field (codes "quality") (int (pos 4)) (
            field (codes "type") type
              (field (codes "imageUrl") (str (codes "https://example.com/118.png")) end))))))

abbrev pub document : Value
document = obj (
    field (codes "datasetVersion") (str (codes "example"))
      (field (codes "items") (arr (cons (item_document (str (codes "passive"))) nil)) end))

abbrev pub brimstone : ItemImport
brimstone = record {
  game_id = pos 118;
  name = codes "Brimstone";
  description = codes "A laser beam.";
  quality = some (pos 4);
  item_type = some (codes "passive");
  recharge_time = none;
  image_url = codes "https://example.com/118.png";
  introduced_in_version = none;
}

abbrev pub snapshot : ItemSnapshot
snapshot = record { dataset_version = codes "example"; game_version = none; items = brimstone ∷ [] }

unfoldable pub validating : Unit {0}
unfolding validate_snapshot validate_items validate_item validate_image_url item_type_of
    optional_string non_empty_string reject_duplicate_game_ids set_of quality_of game_id_of
    known_fields get text_eq
validating = tt
