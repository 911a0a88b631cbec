-- ===== src/Ingestion/Repository/Contract.antt =====
-- What the repository relies on: PostgreSQL's documented effect of each statement on the two
-- tables, as far as the program reads them. The timestamps of a row are left out.
use platinum_gold_backend.Prelude.{
  ltb, ℤ, eqℤ, Bool, true, false, not, ◌||◌, Option, none, some, List, [], ◌∷◌, map, ◌≡◌,
  if◌then◌else◌,
}
use platinum_gold_backend.Errors.{ok}
use platinum_gold_backend.Exec.{Exec}
use platinum_gold_backend.Items.Schemas.{DateTime}
use platinum_gold_backend.Ingestion.Schemas.Duplicates.{Distinct}
use platinum_gold_backend.Ingestion.Repository.{
  ItemColumn, name, description, quality, item_type, recharge_time, image_url,
  introduced_in_version, updated_at, ItemRow, MetadataRow, Statement, advisory_lock,
  select_last_sync, insert_items, insert_metadata,
}

-- The items by game_id, and the singleton row of dataset_metadata.
pub record Db : Type 0 where
  pub items : ℤ → Option ItemRow
  pub metadata : Option MetadataRow

-- whether two columns are the same
abbrev same_column : ItemColumn → ItemColumn → Bool
same_column name name = true
same_column description description = true
same_column quality quality = true
same_column item_type item_type = true
same_column recharge_time recharge_time = true
same_column image_url image_url = true
same_column introduced_in_version introduced_in_version = true
same_column updated_at updated_at = true
same_column _ _ = false

abbrev has_column : ItemColumn → List ItemColumn → Bool
has_column c [] = false
has_column c (d ∷ ds) = same_column c d || has_column c ds

-- DO UPDATE SET column = excluded.column, for the listed columns
abbrev pub updated : List ItemColumn → ItemRow → ItemRow → ItemRow
updated columns excluded old = record {
  game_id = old.game_id;
  name = if has_column name columns then excluded.name else old.name;
  description = if has_column description columns then excluded.description else old.description;
  quality = if has_column quality columns then excluded.quality else old.quality;
  item_type = if has_column item_type columns then excluded.item_type else old.item_type;
  recharge_time =
      if has_column recharge_time columns then excluded.recharge_time else old.recharge_time;
  image_url = if has_column image_url columns then excluded.image_url else old.image_url;
  introduced_in_version =
      if has_column introduced_in_version columns
      then excluded.introduced_in_version
      else old.introduced_in_version;
}

abbrev pub upserted : List ItemColumn → ItemRow → Option ItemRow → ItemRow
upserted columns row none = row
upserted columns row (some old) = updated columns row old

-- INSERT … ON CONFLICT (game_id) DO UPDATE, row by row
abbrev pub upsert_rows : List ItemColumn → List ItemRow → (ℤ → Option ItemRow) → ℤ → Option ItemRow
upsert_rows columns [] items = items
upsert_rows columns (row ∷ rows) items =
    upsert_rows columns rows
      (λ id. if eqℤ id row.game_id then some (upserted columns row (items id)) else items id)

-- the condition excluded.last_sync > last_sync, where there is one
abbrev pub replaces : Bool → MetadataRow → Option MetadataRow → Bool
replaces only_newer new none = true
replaces only_newer new (some old) = not only_newer || ltb old.last_sync new.last_sync

abbrev pub run : Statement → Db → Db
run (advisory_lock key) db = db
run (select_last_sync id) db = db
run (insert_items rows columns) db = record db { items = upsert_rows columns rows db.items }
run (insert_metadata id new only_newer) db =
    if replaces only_newer new db.metadata then record db { metadata = some new } else db

abbrev pub last_sync_of : Option MetadataRow → Option DateTime
last_sync_of none = none
last_sync_of (some m) = some m.last_sync

-- One command may not touch a row twice.
abbrev pub IsRunnable : Statement → Type 0
IsRunnable (insert_items rows columns) = Distinct (map (λ row. row.game_id) rows)
IsRunnable _ = Unit

pub record Postgres {S : Type 0} (session_execute : Statement → Exec S (Option DateTime))
    : Type 0 where
  pub content : S → Db
  -- a statement that succeeds has its documented effect
  pub effect_of :
      (statement : Statement) (s : S) (r : Option DateTime)
      → (session_execute statement s).0 ≡ ok r
      → IsRunnable statement
      → content (session_execute statement s).1 ≡ run statement (content s)
  -- the query reads the singleton row
  pub last_sync_read :
      (s : S) (r : Option DateTime)
      → (session_execute (select_last_sync 1) s).0 ≡ ok r
      → r ≡ last_sync_of (content s).metadata
