-- ===== src/Items/Repository/Sql/Contract.antt =====
-- What the SQL repository relies on: PostgreSQL's documented LIKE patterns, and what its queries
-- select of the table items.
use platinum_gold_backend.Prelude.{
  ℕ, Text, text_eq, pos, eqℤ, Bool, true, false, ◌&&◌, ◌||◌, ◌==◌, all, is_empty, length, take,
  drop, Option, none, some, List, [], ◌∷◌, ◌≡◌, if◌then◌else◌,
}
use platinum_gold_backend.Errors.{ok}
use platinum_gold_backend.Items.Models.{Item}
use platinum_gold_backend.Items.Repository.Sql.{
  Condition, game_id_is, name_ilike, quality_is, item_type_is, version_is, OrderTerm, select_items,
  select_count, Session,
}

-- A pattern is read from left to right: the escape character takes the next one literally, `%`
-- stands for any string and `_` for any character.
pub data Token : Type 0 where
  any_string any_char : Token
  literal : ℕ → Token

abbrev pub token_of : ℕ → Token
token_of c = if c == b'%' then any_string else if c == b'_' then any_char else literal c

abbrev pub prepend : Token → Option (List Token) → Option (List Token)
prepend t none = none
prepend t (some ts) = some (t ∷ ts)

-- The flag says that an escape character came before; a pattern may not end with one.
abbrev pub tokens : ℕ → Bool → Text → Option (List Token)
tokens escape false [] = some []
tokens escape true [] = none
tokens escape true (c ∷ p) = prepend (literal c) (tokens escape false p)
tokens escape false (c ∷ p) =
    let rest = tokens escape false p in
    let after_escape = tokens escape true p in
    if c == escape then after_escape else prepend (token_of c) rest

-- some suffix of the text passes the test
abbrev pub any_suffix : (Text → Bool) → Text → Bool
any_suffix test [] = test []
any_suffix test (c ∷ t) = test (c ∷ t) || any_suffix test t

-- ILIKE compares characters up to case: `fold` is the database's folding of a character.
module _ (fold : ℕ → ℕ) where
  abbrev pub matches : List Token → Text → Bool
  matches [] t = is_empty t
  matches (any_string ∷ ts) t = any_suffix (matches ts) t
  matches (any_char ∷ ts) [] = false
  matches (any_char ∷ ts) (c ∷ t) = matches ts t
  matches (literal d ∷ ts) [] = false
  matches (literal d ∷ ts) (c ∷ t) = (fold c == fold d) && matches ts t

  abbrev matches_option : Option (List Token) → Text → Bool
  matches_option none t = false
  matches_option (some ts) t = matches ts t

  abbrev pub ilike : Text → ℕ → Text → Bool
  ilike pattern escape t = matches_option (tokens escape false pattern) t

  -- A comparison with NULL is not true.
  abbrev pub equals : {A : Type 0} → (A → A → Bool) → Option A → A → Bool
  equals eq none a = false
  equals eq (some b) a = eq b a

  abbrev pub holds : Item → Condition → Bool
  holds item (game_id_is n) = eqℤ item.game_id n
  holds item (name_ilike pattern escape) = ilike pattern escape item.name
  holds item (quality_is n) = equals eqℤ item.quality n
  holds item (item_type_is t) = equals text_eq item.item_type t
  holds item (version_is t) = equals text_eq item.introduced_in_version t

  abbrev pub filtered : List Condition → List Item → List Item
  filtered conditions [] = []
  filtered conditions (item ∷ items) =
      let rest = filtered conditions items in
      if all (holds item) conditions then item ∷ rest else rest

  -- A query that succeeds reads the table `table w`. `arranged` is what ORDER BY does to rows; it
  -- keeps their number.
  pub record Tables {W R : Type 0} (session : Session W R) : Type 0 where
    pub table : W → List Item
    pub arranged : List OrderTerm → List Item → List Item
    pub length-arranged :
        (terms : List OrderTerm) (items : List Item) → length (arranged terms items) ≡ length items
    pub items_read :
        (conditions : List Condition) (terms : List OrderTerm) (offset limit : ℕ) (w : W) (r : R)
        → (session.run (select_items conditions terms (some (pos offset)) (some (pos limit))) w).0
          ≡ ok r
        → session.scalars_all r
          ≡ ok (take limit (drop offset (arranged terms (filtered conditions (table w)))))
    pub count_read :
        (conditions : List Condition) (w : W) (r : R)
        → (session.run (select_count conditions) w).0 ≡ ok r
        → session.scalar_one r ≡ ok (pos (length (filtered conditions (table w))))
