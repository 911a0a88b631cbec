-- ===== src/Ingestion/Repository/Upserts.antt =====
-- The batched upsert has the effect of one upsert of all the items, and stores each of them.
use platinum_gold_backend.Prelude.{
  ℤ, eqℤ, eqℤ-eq, eqℤ_refl, Bool, false, ◌||◌, length, flatten, All, Option, none, some, List, [],
  ◌∷◌, ◌++◌, map, ◌≡◌, refl, sym, ◌∙◌, ap, subst, arith, Bool-cases, inl, inr, if◌then◌else◌,
}
use platinum_gold_backend.Errors.{ok}
use platinum_gold_backend.Exec.{Exec, >>=-eq-ok, Outcome-cases}
use platinum_gold_backend.Items.Schemas.{DateTime}
use platinum_gold_backend.Ingestion.Schemas.{ItemImport, mem_int}
use platinum_gold_backend.Ingestion.Schemas.Duplicates.{Distinct}
use platinum_gold_backend.Ingestion.Repository.{
  ItemColumn, ItemRow, Statement, insert_items, row_of, updated_columns, is_database_failure,
  batches, rounds_of, execute, execute_batches, upsert_items,
}
use platinum_gold_backend.Ingestion.Repository.Batches.{batches-flatten}
use platinum_gold_backend.Ingestion.Repository.Contract.{Db, upserted, upsert_rows, Postgres}

abbrev row_ids : List ItemRow → List ℤ
row_ids rows = map (λ row. row.game_id) rows

abbrev pub item_ids : List ItemImport → List ℤ
item_ids items = map (λ item. item.game_id) items

row_ids-map : (items : List ItemImport) → row_ids (map row_of items) ≡ item_ids items
unfolding row_of
row_ids-map [] = refl
row_ids-map (item ∷ items) = ap (λ ids. item.game_id ∷ ids) (row_ids-map items)

mem_int-append :
    (n : ℤ) (xs ys : List ItemImport)
    → mem_int n (item_ids (xs ++ ys)) ≡ (mem_int n (item_ids xs) || mem_int n (item_ids ys))
mem_int-append n [] ys = refl
mem_int-append n (x ∷ xs) ys = ground (arith, mem_int-append n xs ys)

Distinct-append :
    (xs ys : List ItemImport)
    → Distinct (item_ids (xs ++ ys))
    → Distinct (item_ids xs) × Distinct (item_ids ys)
Distinct-append [] ys h = (tt, h)
Distinct-append (x ∷ xs) ys (new, rest) =
    let (dx, dy) = Distinct-append xs ys rest in
    ((ground (arith, mem_int-append x.game_id xs ys), dx), dy)

upsert_rows-append :
    (columns : List ItemColumn) (xs ys : List ItemImport) (items : ℤ → Option ItemRow)
    → upsert_rows columns (map row_of (xs ++ ys)) items
      ≡ upsert_rows columns (map row_of ys) (upsert_rows columns (map row_of xs) items)
upsert_rows-append columns [] ys items = refl
upsert_rows-append columns (x ∷ xs) ys items = upsert_rows-append columns xs ys _

-- What an upsert of all the items does to the tables.
abbrev pub with_items : List ItemImport → Db → Db
with_items items db = record db { items = upsert_rows updated_columns (map row_of items) db.items }

with_items-append :
    (xs ys : List ItemImport) (db : Db)
    → with_items ys (with_items xs db) ≡ with_items (xs ++ ys) db
with_items-append xs ys db =
    ap (λ items. record db { items = items })
      (sym (upsert_rows-append updated_columns xs ys db.items))

module _ {S : Type 0} (session_execute : Statement → Exec S (Option DateTime)) where
  pub execute-eq-ok :
      (statement : Statement) (s : S) (r : Option DateTime)
      → (execute session_execute statement s).0 ≡ ok r
      → ((session_execute statement s).0 ≡ ok r)
        × ((execute session_execute statement s).1 ≡ (session_execute statement s).1)
  unfolding execute
  execute-eq-ok statement s r h = elim (Outcome-cases (session_execute statement s).0) [
    | inl (a, e) ↦ (rw e (rw e at h), rw e refl)
    | inr (x, e) ↦ elim (Bool-cases (is_database_failure x)) [
      | inl expected ↦ absurd (ground arith)
      | inr other ↦ absurd (ground arith)
    ]
  ]

  module _ (postgres : Postgres session_execute) where
    open postgres use {content}

    execute_batches-content :
        (bs : List (List ItemImport)) (s : S)
        → (execute_batches session_execute bs s).0 ≡ ok tt
        → Distinct (item_ids (flatten bs))
        → content (execute_batches session_execute bs s).1 ≡ with_items (flatten bs) (content s)
    execute_batches-content [] s h d = refl
    execute_batches-content (batch ∷ rest) s h d =
        let statement = insert_items (map row_of batch) updated_columns in
        let (r, e, h2) =
          >>=-eq-ok (execute session_execute statement) (λ _. execute_batches session_execute rest)
            s h in
        let s1 = (execute session_execute statement s).1 in
        let (raw, same) = execute-eq-ok statement s r e in
        let (here, later) = Distinct-append batch (flatten rest) d in
        let wrote : content s1 ≡ with_items batch (content s) =
          ap content same ∙ postgres.effect_of statement s r raw (rw (row_ids-map batch) here) in
        rw e (
          execute_batches-content rest s1 h2 later
          ∙ ap (with_items (flatten rest)) wrote
          ∙ with_items-append batch (flatten rest) (content s))

    -- If `upsert_items` returns, its effect on the tables is that of one upsert of all the items.
    pub upsert_items-content :
        (items : List ItemImport) (s : S)
        → (upsert_items session_execute items s).0 ≡ ok tt
        → Distinct (item_ids items)
        → content (upsert_items session_execute items s).1 ≡ with_items items (content s)
    unfolding upsert_items
    upsert_items-content [] s h d = refl
    upsert_items-content (item ∷ items) s h d =
        let all = item ∷ items in
        let (whole, _each) = batches-flatten all in
        execute_batches-content (batches (rounds_of (length all)) all) s h
          (subst (λ l. Distinct (item_ids l)) (sym whole) d)
        ∙ ap (λ l. with_items l (content s)) whole

-- Rows are stored under their own id.
abbrev pub IsKeyed : (ℤ → Option ItemRow) → Type 0
IsKeyed items = (id : ℤ) (row : ItemRow) → items id ≡ some row → row.game_id ≡ id

upserted-row :
    (row : ItemRow) (o : Option ItemRow)
    → ((old : ItemRow) → o ≡ some old → old.game_id ≡ row.game_id)
    → upserted updated_columns row o ≡ row
upserted-row row none keyed = refl
upserted-row row (some old) keyed = ap (λ id. record row { game_id = id }) (keyed old refl)

-- one row of the upsert
abbrev put : ItemRow → (ℤ → Option ItemRow) → ℤ → Option ItemRow
put row items id =
    if eqℤ id row.game_id then some (upserted updated_columns row (items id)) else items id

of_some : {a b : ItemRow} → some a ≡ some b → a ≡ b
of_some h = cc

put-IsKeyed : (row : ItemRow) (items : ℤ → Option ItemRow) → IsKeyed items → IsKeyed (put row items)
put-IsKeyed row items keyed id found h = elim (Bool-cases (eqℤ id row.game_id)) [
  | inl same ↦
      let e = eqℤ-eq id row.game_id same in
      let is_row = upserted-row row (items id) (λ old o. keyed id old o ∙ e) in
      let is_found : upserted updated_columns row (items id) ≡ found = of_some (rw same at h) in
      ap (λ (r : ItemRow). r.game_id) (sym is_found ∙ is_row) ∙ sym e
  | inr other ↦ keyed id found (rw other at h)
]

put_self :
    (row : ItemRow) (items : ℤ → Option ItemRow)
    → IsKeyed items
    → put row items row.game_id ≡ some row
put_self row items keyed =
    rw (eqℤ_refl row.game_id)
      (ap some (upserted-row row (items row.game_id) (λ old e. keyed row.game_id old e)))

not_here : (id n : ℤ) (b : Bool) → (eqℤ id n || b) ≡ false → eqℤ id n ≡ false
not_here id n b h = ground arith

pub upsert_rows_absent :
    (xs : List ItemImport) (items : ℤ → Option ItemRow) (id : ℤ)
    → mem_int id (item_ids xs) ≡ false
    → upsert_rows updated_columns (map row_of xs) items id ≡ items id
unfolding row_of
upsert_rows_absent [] items id h = refl
upsert_rows_absent (x ∷ xs) items id h =
    upsert_rows_absent xs (put (row_of x) items) id (ground arith)
    ∙ rw (not_here id x.game_id (mem_int id (item_ids xs)) h)

-- Every item of a list with different ids is stored under its id, as it stands in the list.
pub upsert_rows-All :
    (xs : List ItemImport) (items : ℤ → Option ItemRow)
    → IsKeyed items
    → Distinct (item_ids xs)
    → All (λ x. upsert_rows updated_columns (map row_of xs) items x.game_id ≡ some (row_of x)) xs
unfolding row_of
upsert_rows-All [] items keyed d = tt
upsert_rows-All (x ∷ xs) items keyed (new, rest) = (
  upsert_rows_absent xs (put (row_of x) items) x.game_id new ∙ put_self (row_of x) items keyed,
  upsert_rows-All xs (put (row_of x) items) (put-IsKeyed (row_of x) items keyed) rest,
)

pub upsert_rows-IsKeyed :
    (xs : List ItemImport) (items : ℤ → Option ItemRow)
    → IsKeyed items
    → IsKeyed (upsert_rows updated_columns (map row_of xs) items)
upsert_rows-IsKeyed [] items keyed = keyed
upsert_rows-IsKeyed (x ∷ xs) items keyed =
    upsert_rows-IsKeyed xs (put (row_of x) items) (put-IsKeyed (row_of x) items keyed)
