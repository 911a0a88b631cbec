-- ===== src/Items/Schemas/Tests.antt =====
-- Query parameters that are accepted and refused, and the theorem at one of them.
use platinum_gold_backend.Prelude.{codes, text_eq, pos, negsuc, none, some, ◌≡◌, ◌↔◌, refl}
use platinum_gold_backend.Items.Schemas.{
  ItemListParams, by_quality, desc, RawListParams, quality_ok, sort_of, order_of, limit_of,
  offset_of, validate_filter_params, validate_list_params,
}
use platinum_gold_backend.Items.Schemas.Bounds.{IsChecked, validate_list_params-IsChecked_iff}

abbrev given : RawListParams
given = record {
  search = some (codes "luck");
  quality = some (pos 4);
  type = none;
  version = none;
  sort = some (codes "quality");
  order = some (codes "desc");
  limit = some (pos 100);
  offset = none;
}

abbrev checked : ItemListParams
checked = record {
  filters = record {
    search = some (codes "luck");
    quality = some (pos 4);
    type = none;
    version = none;
  };
  sort = by_quality;
  order = desc;
  limit = pos 100;
  offset = pos 0;
}

running : Unit {0}
unfolding validate_list_params validate_filter_params quality_ok sort_of order_of limit_of offset_of
    text_eq
running = tt

accepts_given : validate_list_params given ≡ some checked
unfolding running
accepts_given = refl

refuses :
    (validate_list_params (record given { limit = some (pos 101) }) ≡ none)
    × (validate_list_params (record given { offset = some (negsuc 0) }) ≡ none)
    × (validate_list_params (record given { quality = some (pos 5) }) ≡ none)
    × (validate_list_params (record given { order = some (codes "DESC") }) ≡ none)
unfolding running
refuses = (refl, refl, refl, refl)

validate_list_params-IsChecked_iff_example :
    (validate_list_params given ≡ some checked) ↔ IsChecked given checked
validate_list_params-IsChecked_iff_example = validate_list_params-IsChecked_iff given checked
