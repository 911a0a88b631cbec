-- ===== src/Items/Repository/Sql/Tests.antt =====
-- Runs of the SQL repository on a table held in memory, and the theorems at these runs.
use platinum_gold_backend.Prelude.{
  ℕ, ◌+◌, ◌-◌, Text, codes, ℤ, pos, leb, ◌&&◌, all, min, length, take, drop, none, some, List, [],
  ◌∷◌, ◌++◌, map, ◌≡◌, refl, if◌then◌else◌,
}
use platinum_gold_backend.Errors.{Outcome, ok, raised, unexpected}
use platinum_gold_backend.Items.Schemas.{by_name, asc}
use platinum_gold_backend.Items.Models.{Item}
use platinum_gold_backend.Items.Repository.Sql.{
  Select, select_items, select_count, Session, escaped, apply_filters, to_record, execute, scalars,
  list_items, count_items,
}
use platinum_gold_backend.Items.Repository.Sql.Contract.{ilike, holds, filtered, Tables}
use platinum_gold_backend.Items.Repository.Sql.Filters.{
  contains, kept, ilike-escaped, apply_filters-kept,
}
use platinum_gold_backend.Items.Repository.Sql.Pages.{
  wanted, page_of, count_items-wanted, list_items-page,
}

-- the folding of an ASCII letter
abbrev fold : ℕ → ℕ
fold c = if leb b'A' c && leb c b'Z' then c + 32 else c

abbrev item_of : ℕ → Text → Item
item_of n name = record {
  id = pos n;
  game_id = pos n;
  name = name;
  description = codes "An item.";
  quality = some (pos 3);
  item_type = some (codes "passive");
  recharge_time = none;
  image_url = codes "https://example.com/1.png";
  introduced_in_version = none;
  created_at = 0;
  updated_at = 0;
}

abbrev rows : List Item
rows =
    item_of 1 (codes "100% Luck")
    ∷ item_of 2 (codes "1000 Luck")
    ∷ item_of 3 (codes "The 0% Die")
    ∷ []

-- A result is the statement beside the table that it was executed on.
abbrev Answer : Type 0
Answer = Select × List Item

abbrev all_of : Answer → Outcome (List Item)
all_of (select_items conditions terms (some (pos offset)) (some (pos limit)), items) =
    ok (take limit (drop offset (filtered fold conditions items)))
all_of _ = raised (unexpected (codes "rows"))

abbrev count_of : Answer → Outcome ℤ
count_of (select_count conditions, items) = ok (pos (length (filtered fold conditions items)))
count_of _ = raised (unexpected (codes "count"))

abbrev session : Session (List Item) Answer
session = record {
  run = λ statement w. (ok (statement, w), w);
  scalar_one_or_none = λ r. ok none;
  scalars_all = all_of;
  scalar_one = count_of;
  one = λ r. raised (unexpected (codes "row"));
}

of_ok : {A : Type 0} {a b : A} → ok a ≡ ok b → a ≡ b
of_ok h = cc

abbrev tables : Tables fold session
tables = record {
  table = λ w. w;
  arranged = λ terms items. items;
  length-arranged = λ terms items. refl;
  items_read = λ conditions terms offset limit w r h. rw (← of_ok h);
  count_read = λ conditions w r h. rw (← of_ok h);
}

running : Unit {0}
unfolding list_items count_items scalars execute apply_filters escaped to_record
running = tt

counts : (count_items session (some (codes "0% d")) (some (pos 3)) none none rows).0 ≡ ok (pos 1)
unfolding running
counts = refl

lists :
    (list_items session (some (codes "0%")) none none none by_name asc (pos 1) (pos 1) rows).0
    ≡ ok (to_record (item_of 3 (codes "The 0% Die")) ∷ [])
unfolding running
lists = refl

ilike-escaped_example :
    ilike fold (codes "%" ++ (escaped (codes "50%_\\") ++ codes "%")) b'\\' (codes "A 50%_\\ off")
    ≡ contains fold (codes "50%_\\") (codes "A 50%_\\ off")
ilike-escaped_example = ilike-escaped fold (codes "50%_\\") (codes "A 50%_\\ off")

apply_filters-kept_example :
    all
      (holds fold (item_of 1 (codes "100% Luck")))
      (apply_filters (some (codes "0%")) (some (pos 3)) none none)
    ≡ kept fold (some (codes "0%")) (some (pos 3)) none none (item_of 1 (codes "100% Luck"))
apply_filters-kept_example =
    apply_filters-kept fold (some (codes "0%")) (some (pos 3)) none none
      (item_of 1 (codes "100% Luck"))

count_items-wanted_example :
    pos 1 ≡ pos (length (wanted fold (some (codes "0% d")) (some (pos 3)) none none rows))
count_items-wanted_example =
    count_items-wanted fold (some (codes "0% d")) (some (pos 3)) none none session tables rows
      (pos 1) counts

list_items-page_example :
    (to_record (item_of 3 (codes "The 0% Die")) ∷ []
      ≡ map to_record (page_of fold (some (codes "0%")) none none none session tables [] 1 1 rows))
    × (length (to_record (item_of 3 (codes "The 0% Die")) ∷ [])
        ≡ min 1 (length (wanted fold (some (codes "0%")) none none none rows) - 1))
list_items-page_example =
    list_items-page fold (some (codes "0%")) none none none session tables by_name asc 1 1 rows
      (to_record (item_of 3 (codes "The 0% Die")) ∷ []) lists
