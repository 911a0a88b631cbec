-- ===== src/Items/Schemas.antt =====
-- app/items/schemas.py: the public schemas, and the validation of the query parameters.
-- FastAPI turns query strings into `RawListParams`; what the declared constraints accept of them
-- is `validate_list_params`. A `datetime` is its number of microseconds since a fixed instant.
mod Tests
pub mod Bounds
use platinum_gold_backend.Prelude.{
  ℕ, Text, codes, ℤ, pos, lebℤ, Bool, true, ◌&&◌, text_eq, Option, none, some, List, if◌then◌else◌,
}
use platinum_gold_backend.Prelude.Options.{◌>>=◌}

abbrev pub DateTime : Type 0
DateTime = ℕ

pub record ItemResponse : Type 0 where
  pub game_id : ℤ
  pub name : Text
  pub description : Text
  pub quality : Option ℤ
  pub type : Option Text
  pub recharge_time : Option Text
  pub image_url : Text
  pub introduced_in_version : Option Text

pub record ItemFilterParams : Type 0 where
  pub search : Option Text
  pub quality : Option ℤ
  pub type : Option Text
  pub version : Option Text

pub data SortField : Type 0 where
  by_name by_quality by_game_id : SortField

pub data SortOrder : Type 0 where
  asc desc : SortOrder

pub record ItemListParams : Type 0 where
  pub filters : ItemFilterParams
  pub open filters use *
  pub sort : SortField
  pub order : SortOrder
  pub limit : ℤ
  pub offset : ℤ

pub record ItemListResponse : Type 0 where
  pub items : List ItemResponse
  pub total : ℤ
  pub limit : ℤ
  pub offset : ℤ

pub record MetaResponse : Type 0 where
  pub api_version : Text
  pub dataset_version : Option Text
  pub game_version : Option Text
  pub last_sync : Option DateTime
  pub items : ℤ

-- The parameters as the request gives them; `none` is a parameter that it leaves out.
pub record RawListParams : Type 0 where
  pub search : Option Text
  pub quality : Option ℤ
  pub type : Option Text
  pub version : Option Text
  pub sort : Option Text
  pub order : Option Text
  pub limit : Option ℤ
  pub offset : Option ℤ

abbrev pub in_range : ℤ → ℤ → ℤ → Bool
in_range lo hi n = lebℤ lo n && lebℤ n hi

-- Field(default=None, ge=0, le=4)
unfoldable pub quality_ok : Option ℤ → Bool
quality_ok none = true
quality_ok (some q) = in_range (pos 0) (pos 4) q

-- Literal["name", "quality", "game_id"] = "name"
unfoldable pub sort_of : Option Text → Option SortField
sort_of none = some by_name
sort_of (some s) =
    if text_eq s (codes "name")
    then some by_name
    else if text_eq s (codes "quality")
    then some by_quality
    else if text_eq s (codes "game_id")
    then some by_game_id
    else none

-- Literal["asc", "desc"] = "asc"
unfoldable pub order_of : Option Text → Option SortOrder
order_of none = some asc
order_of (some s) =
    if text_eq s (codes "asc")
    then some asc
    else if text_eq s (codes "desc")
    then some desc
    else none

-- Field(default=20, ge=1, le=100)
unfoldable pub limit_of : Option ℤ → Option ℤ
limit_of none = some (pos 20)
limit_of (some n) = if in_range (pos 1) (pos 100) n then some n else none

-- Field(default=0, ge=0)
unfoldable pub offset_of : Option ℤ → Option ℤ
offset_of none = some (pos 0)
offset_of (some n) = if lebℤ (pos 0) n then some n else none

-- `none` is FastAPI's RequestValidationError.
unfoldable pub validate_filter_params : RawListParams → Option ItemFilterParams
unfolding quality_ok
validate_filter_params r =
    if quality_ok r.quality
    then some
        (record { search = r.search; quality = r.quality; type = r.type; version = r.version })
    else none

unfoldable pub validate_list_params : RawListParams → Option ItemListParams
unfolding validate_filter_params sort_of order_of limit_of offset_of
validate_list_params r = do
  filters ← validate_filter_params r
  sort ← sort_of r.sort
  order ← order_of r.order
  limit ← limit_of r.limit
  offset ← offset_of r.offset
  some (record { filters = filters; sort = sort; order = order; limit = limit; offset = offset })
