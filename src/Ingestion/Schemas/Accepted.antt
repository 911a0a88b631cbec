-- ===== src/Ingestion/Schemas/Accepted.antt =====
-- What a snapshot that passes validation satisfies.
use platinum_gold_backend.Prelude.{
  suc, ◌≤◌, codes, ℤ, ◌==◌, ==_iff, length, take, take_all, All, Option, some, List, [], ◌∷◌, map,
  ◌≡◌, refl, ap, sym, ◌∙◌, inl, inr, arith, Bool-cases,
}
use platinum_gold_backend.Value.{Value, arr, obj, elems, get}
use platinum_gold_backend.Core.Platform.{Platform}
use platinum_gold_backend.Ingestion.Schemas.{
  max_snapshot_items, valid, require, ItemImport, ItemSnapshot, item_import_fields, snapshot_fields,
  known_fields, game_id_of, quality_of, set_of, reject_duplicate_game_ids, required_string,
  optional_string, item_type_of, image_url_of, validate_item, validate_items, items_of,
  validate_snapshot,
}
use platinum_gold_backend.Ingestion.Schemas.Duplicates.{Distinct, Distinct-of_length}
use platinum_gold_backend.Ingestion.Schemas.FieldBounds.{
  >>=-eq-valid, valid-injective, in_bounds, require-eq-valid, IsText, IsOptionalText, IsGameId,
  IsQuality, game_id_of-IsGameId, quality_of-IsQuality, required_string-IsText,
  optional_string-IsText, IsItemType, item_type_of-IsItemType, IsImageUrl, image_url_of-IsImageUrl,
}

module _ (platform : Platform) where
  pub record IsItem (item : ItemImport) : Type 0 where
    pub game_id : IsGameId item.game_id
    pub name : IsText item.name
    pub description : IsText item.description
    pub quality : IsQuality item.quality
    pub item_type : IsItemType platform item.item_type
    pub recharge_time : IsOptionalText item.recharge_time
    pub image_url : IsText item.image_url × IsImageUrl platform item.image_url
    pub introduced_in_version : IsOptionalText item.introduced_in_version

  validate_item-IsItem :
      (v : Value) (item : ItemImport) → validate_item platform v ≡ valid item → IsItem item
  unfolding validate_item
  validate_item-IsItem (obj fields) item h =
      elim (Bool-cases (known_fields fields item_import_fields)) [
        | inr unknown ↦ absurd (ground arith)
        | inl known ↦
            let (item_type, e1, h1) =
              >>=-eq-valid (item_type_of platform (get (codes "type") fields)) _ (rw known at h) in
            let (game_id, e2, h2) =
              >>=-eq-valid (require (game_id_of (get (codes "gameId") fields))) _ h1 in
            let (name, e3, h3) =
              >>=-eq-valid (require (required_string platform (get (codes "name") fields))) _ h2 in
            let (description, e4, h4) =
              >>=-eq-valid (require (required_string platform (get (codes "description") fields))) _
                h3 in
            let (quality, e5, h5) =
              >>=-eq-valid (require (quality_of (get (codes "quality") fields))) _ h4 in
            let (recharge, e6, h6) =
              >>=-eq-valid (require (optional_string platform (get (codes "rechargeTime") fields)))
                _ h5 in
            let (url, e7, h7) =
              >>=-eq-valid
                (require (
                  image_url_of platform (required_string platform (get (codes "imageUrl") fields))))
                _ h6 in
            let (version, e8, h8) =
              >>=-eq-valid
                (require (optional_string platform (get (codes "introducedInVersion") fields))) _
                h7 in
            let (found, is_url) = image_url_of-IsImageUrl platform _ url (require-eq-valid _ e7) in
            let it : ItemImport = record {
              game_id = game_id;
              name = name;
              description = description;
              quality = quality;
              item_type = item_type;
              recharge_time = recharge;
              image_url = url;
              introduced_in_version = version;
            } in
            let made : it ≡ item = valid-injective h8 in
            rw (← made) (record {
              game_id = game_id_of-IsGameId _ game_id (require-eq-valid _ e2);
              name = required_string-IsText platform _ name (require-eq-valid _ e3);
              description = required_string-IsText platform _ description (require-eq-valid _ e4);
              quality = quality_of-IsQuality _ quality (require-eq-valid _ e5);
              item_type = item_type_of-IsItemType platform _ item_type e1;
              recharge_time = optional_string-IsText platform _ recharge (require-eq-valid _ e6);
              image_url = (required_string-IsText platform _ url found, is_url);
              introduced_in_version =
                  optional_string-IsText platform _ version (require-eq-valid _ e8);
            })
      ]
  validate_item-IsItem _ item h = absurd (ground arith)

  validate_items-All :
      (vs : List Value) (items : List ItemImport)
      → validate_items platform vs ≡ valid items
      → All IsItem items × (length items ≡ length vs)
  unfolding validate_items
  validate_items-All [] items h = rw (← valid-injective h) (tt, refl)
  validate_items-All (v ∷ vs) items h =
      let (item, e, h1) = >>=-eq-valid (validate_item platform v) _ h in
      let (rest, e2, h2) = >>=-eq-valid (validate_items platform vs) _ h1 in
      let (every, count) = validate_items-All vs rest e2 in
      rw (← valid-injective h2) ((validate_item-IsItem v item e, every), ap suc count)

  abbrev ids : List ItemImport → List ℤ
  ids items = map (λ item. item.game_id) items

  pub record IsSnapshot (snapshot : ItemSnapshot) : Type 0 where
    pub dataset_version : IsText snapshot.dataset_version
    pub game_version : IsOptionalText snapshot.game_version
    pub not_empty : 1 ≤ length snapshot.items
    pub bounded : length snapshot.items ≤ max_snapshot_items
    pub items : All IsItem snapshot.items
    pub distinct : Distinct (ids snapshot.items)

  items_of-All :
      (v : Option Value) (items : List ItemImport)
      → items_of platform v ≡ valid items
      → All IsItem items × (1 ≤ length items) × (length items ≤ max_snapshot_items)
  items_of-All (some (arr vs)) items h =
      let (found, e, rest) =
        >>=-eq-valid (validate_items platform (take max_snapshot_items (elems vs))) _ h in
      let (every, count) = validate_items-All _ found e in
      let (inside, same) = in_bounds (length (elems vs)) found items rest in
      let whole = take_all max_snapshot_items (elems vs) inside.1 in
      let total : length items ≡ length (elems vs) =
        ap length (sym same) ∙ count ∙ ap length whole in
      (rw (← same) every, omega arith, omega arith)
  items_of-All _ items h = absurd (ground arith)

  checked_ids :
      (snapshot result : ItemSnapshot)
      → reject_duplicate_game_ids snapshot ≡ valid result
      → (snapshot ≡ result) × Distinct (ids snapshot.items)
  unfolding reject_duplicate_game_ids
  checked_ids snapshot result h =
      elim (Bool-cases (length (ids snapshot.items) == length (set_of (ids snapshot.items)))) [
        | inl same ↦ (
          valid-injective (rw same at h),
          Distinct-of_length (ids snapshot.items) ((==_iff _ _).0 same),
        )
        | inr repeated ↦ absurd (ground arith)
      ]

  -- A snapshot that passes validation has 1 to 10000 items with different game ids, each valid:
  -- its id is in 1 to 2147483647, its quality in 0 to 4 if it has one, its strings have 1 to 4096
  -- characters and no NUL, its type is in lower case, its image URL is absolute http or https with
  -- no credentials. The versions are such strings too.
  pub validate_snapshot-IsSnapshot :
      (v : Value) (snapshot : ItemSnapshot)
      → validate_snapshot platform v ≡ valid snapshot
      → IsSnapshot snapshot
  unfolding validate_snapshot
  validate_snapshot-IsSnapshot (obj fields) snapshot h =
      elim (Bool-cases (known_fields fields snapshot_fields)) [
        | inr unknown ↦ absurd (ground arith)
        | inl known ↦
            let (items, e1, h1) =
              >>=-eq-valid (items_of platform (get (codes "items") fields)) _ (rw known at h) in
            let (dataset, e2, h2) =
              >>=-eq-valid
                (require (required_string platform (get (codes "datasetVersion") fields))) _ h1 in
            let (game, e3, h3) =
              >>=-eq-valid (require (optional_string platform (get (codes "gameVersion") fields))) _
                h2 in
            let (every, some_items, few) = items_of-All _ items e1 in
            let (made, distinct) = checked_ids _ snapshot h3 in
            rw (← made) (record {
              dataset_version = required_string-IsText platform _ dataset (require-eq-valid _ e2);
              game_version = optional_string-IsText platform _ game (require-eq-valid _ e3);
              not_empty = some_items;
              bounded = few;
              items = every;
              distinct = distinct;
            })
      ]
  validate_snapshot-IsSnapshot _ snapshot h = absurd (ground arith)
