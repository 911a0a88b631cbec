-- ===== src/Items/Repository/Sql/Pages.antt =====
-- The pages and the counts of the SQL repository.
use platinum_gold_backend.Prelude.{
  length-map, ℕ, ◌-◌, Text, ℤ, pos, Bool, min, length, length-take, length-drop, take, drop, Option,
  some, List, [], ◌∷◌, map, ◌≡◌, refl, sym, ◌∙◌, ap, arith, Bool-cases, inl, inr, if◌then◌else◌,
}
use platinum_gold_backend.Errors.{ok}
use platinum_gold_backend.Exec.{>>=-eq-ok, Outcome-cases}
use platinum_gold_backend.Items.Schemas.{SortField, SortOrder, by_game_id}
use platinum_gold_backend.Items.Models.{Item}
use platinum_gold_backend.Items.Repository.{ItemRecord}
use platinum_gold_backend.Items.Repository.Sql.{
  OrderTerm, Select, select_items, select_count, Session, apply_filters, to_record, ordered,
  ascending, is_query_failure, execute, scalars, list_items, count_items,
}
use platinum_gold_backend.Items.Repository.Sql.Contract.{filtered, Tables}
use platinum_gold_backend.Items.Repository.Sql.Filters.{kept, apply_filters-kept}

of_ok : {A : Type 0} {a b : A} → ok a ≡ ok b → a ≡ b
of_ok x = cc

-- The items that a test keeps.
abbrev pub select_where : (Item → Bool) → List Item → List Item
select_where test [] = []
select_where test (item ∷ items) =
    let rest = select_where test items in if test item then item ∷ rest else rest

module _ (fold : ℕ → ℕ) (search : Option Text) (quality : Option ℤ)
    (item_type version : Option Text) where
  abbrev pub wanted : List Item → List Item
  wanted items = select_where (kept fold search quality item_type version) items

  filtered-wanted :
      (items : List Item)
      → filtered fold (apply_filters search quality item_type version) items ≡ wanted items
  filtered-wanted [] = refl
  filtered-wanted (item ∷ items) =
      rw (apply_filters-kept fold search quality item_type version item)
        (rw (filtered-wanted items))

  module _ {W R : Type 0} (session : Session W R) (tables : Tables fold session) where
    open tables use {table, arranged}

    execute-eq-ok :
        (statement : Select) (w : W) (r : R)
        → (execute session statement w).0 ≡ ok r
        → (session.run statement w).0 ≡ ok r
    unfolding execute
    execute-eq-ok statement w r h = elim (Outcome-cases (session.run statement w).0) [
      | inl (a, e) ↦ (rw e (rw e at h))
      | inr (x, e) ↦ elim (Bool-cases (is_query_failure x)) [
        | inl expected ↦ absurd (ground arith)
        | inr other ↦ absurd (ground arith)
      ]
    ]

    -- If `count_items` returns, it is the number of items in the table that meet the parameters.
    pub count_items-wanted :
        (w : W) (n : ℤ)
        → (count_items session search quality item_type version w).0 ≡ ok n
        → n ≡ pos (length (wanted (table w)))
    unfolding count_items
    count_items-wanted w n h =
        let statement = select_count (apply_filters search quality item_type version) in
        let (r, e, rest) = >>=-eq-ok (execute session statement) _ w h in
        let read = tables.count_read _ w r (execute-eq-ok statement w r e) in
        of_ok (sym rest ∙ read) ∙ ap (λ l. pos (length l)) (filtered-wanted (table w))

    abbrev pub page_of : List OrderTerm → ℕ → ℕ → W → List Item
    page_of terms limit offset w = take limit (drop offset (arranged terms (wanted (table w))))

    scalars-page :
        (terms : List OrderTerm) (limit offset : ℕ) (w : W) (items : List Item)
        → (scalars session
            (select_items
              (apply_filters search quality item_type version)
              terms
              (some (pos offset))
              (some (pos limit)))
            w).0
          ≡ ok items
        → items ≡ page_of terms limit offset w
    unfolding scalars
    scalars-page terms limit offset w items h =
        let conditions = apply_filters search quality item_type version in
        let statement = select_items conditions terms (some (pos offset)) (some (pos limit)) in
        let (r, e, rest) = >>=-eq-ok (execute session statement) _ w h in
        let read =
          tables.items_read conditions terms offset limit w r (execute-eq-ok statement w r e) in
        of_ok (sym rest ∙ read)
        ∙ ap (λ l. take limit (drop offset (arranged terms l))) (filtered-wanted (table w))

    length-page :
        (terms : List OrderTerm) (limit offset : ℕ) (w : W)
        → length (page_of terms limit offset w) ≡ min limit (length (wanted (table w)) - offset)
    length-page terms limit offset w =
        length-take limit _
        ∙ ap (min limit) (
            length-drop offset _
            ∙ ap (λ n. n - offset) (tables.length-arranged terms (wanted (table w))))

    -- If `list_items` returns, it is the page of the arranged items that meet the parameters, and
    -- it is as long as the limit and what lies behind the offset allow.
    pub list_items-page :
        (sort : SortField) (order : SortOrder) (limit offset : ℕ) (w : W)
        (records : List ItemRecord)
        → (list_items session search quality item_type version sort order
            (pos limit)
            (pos offset)
            w).0
          ≡ ok records
        → (records
            ≡ map to_record (
                take limit (
                  drop offset (
                    arranged (ordered sort order ∷ ascending by_game_id ∷ []) (wanted (table w))))))
          × (length records ≡ min limit (length (wanted (table w)) - offset))
    unfolding list_items
    list_items-page sort order limit offset w records h =
        let terms = ordered sort order ∷ ascending by_game_id ∷ [] in
        let (items, e, rest) = >>=-eq-ok (scalars session _) _ w h in
        let same =
          sym (of_ok rest) ∙ ap (map to_record) (scalars-page terms limit offset w items e) in
        (same, ap length same ∙ length-map to_record _ ∙ length-page terms limit offset w)
