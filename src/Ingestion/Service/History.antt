-- ===== src/Ingestion/Service/History.antt =====
-- Several ingestions, one after another: the advisory lock makes their transactions sequential,
-- in an order that need not be that of their clocks.
use platinum_gold_backend.Prelude.{
  ℕ, ◌≤◌, ◌<◌, leb, le→leb, true, false, Option, none, some, List, [], ◌∷◌, ◌++◌, All, ◌≡◌, refl,
  ◌∙◌, ap, arith, Bool-cases, inl, inr,
}
use platinum_gold_backend.Items.Schemas.{DateTime}
use platinum_gold_backend.Ingestion.Schemas.{ItemSnapshot}
use platinum_gold_backend.Ingestion.Schemas.Duplicates.{Distinct}
use platinum_gold_backend.Ingestion.Repository.{row_of}
use platinum_gold_backend.Ingestion.Repository.Contract.{Db, last_sync_of}
use platinum_gold_backend.Ingestion.Repository.Upserts.{
  item_ids, IsKeyed, upsert_rows-All, upsert_rows-IsKeyed,
}
use platinum_gold_backend.Ingestion.Service.Publication.{
  metadata_of, published, publish_after, publish,
}

-- One ingestion: its snapshot, and the time that its clock gave.
abbrev pub Run : Type 0
Run = ItemSnapshot × DateTime

abbrev pub step : Run → Db → Db
step (snapshot, now) db = (publish snapshot now db).1

abbrev pub history : List Run → Db → Db
history [] db = db
history (run ∷ runs) db = history runs (step run db)

abbrev pub IsBefore : DateTime → Option DateTime → Type 0
IsBefore t none = Unit
IsBefore t (some c) = c < t

-- A run that is not newer than what is recorded changes nothing.
step_stale :
    (snapshot : ItemSnapshot) (now t : DateTime) (db : Db)
    → last_sync_of db.metadata ≡ some t
    → now ≤ t
    → step (snapshot, now) db ≡ db
step_stale snapshot now t db e h =
    ap (λ o. (publish_after snapshot now o db).1) e ∙ unchanged now t (le→leb now t h)
  where
    unchanged : (n m : DateTime) → leb n m ≡ true → (publish_after snapshot n (some m) db).1 ≡ db
    unchanged n m l = rw l

step_newer :
    (snapshot : ItemSnapshot) (now : DateTime) (db : Db)
    → IsBefore now (last_sync_of db.metadata)
    → step (snapshot, now) db ≡ published snapshot now db
step_newer snapshot now db h = go (last_sync_of db.metadata) h
  where
    go :
        (o : Option DateTime)
        → IsBefore now o
        → (publish_after snapshot now o db).1 ≡ published snapshot now db
    go none b = refl
    go (some c) b = rw (not_le now c b)
      where
        not_le : (n m : ℕ) → m < n → leb n m ≡ false
        not_le n m l = ground arith

history_stale :
    (runs : List Run) (t : DateTime) (db : Db)
    → last_sync_of db.metadata ≡ some t
    → All (λ run. run.1 ≤ t) runs
    → history runs db ≡ db
history_stale [] t db e h = refl
history_stale (run ∷ runs) t db e (here, later) =
    let same = step_stale run.0 run.1 t db e here in
    ap (history runs) same ∙ history_stale runs t db e later

-- the clock of the database stays before t, and its rows stay under their ids
abbrev Early : DateTime → Db → Type 0
Early t db = IsBefore t (last_sync_of db.metadata) × IsKeyed db.items

step-Early : (run : Run) (t : DateTime) (db : Db) → run.1 < t → Early t db → Early t (step run db)
step-Early run t db h (before, keyed) = go (last_sync_of db.metadata) before
  where
    go : (o : Option DateTime) → IsBefore t o → Early t (publish_after run.0 run.1 o db).1
    go none b = (h, upsert_rows-IsKeyed run.0.items db.items keyed)
    go (some c) b = elim (Bool-cases (leb run.1 c)) [
      | inl stale ↦ rw stale (before, keyed)
      | inr newer ↦ rw newer (h, upsert_rows-IsKeyed run.0.items db.items keyed)
    ]

history-Early :
    (runs : List Run) (t : DateTime) (db : Db)
    → All (λ run. run.1 < t) runs
    → Early t db
    → Early t (history runs db)
history-Early [] t db h early = early
history-Early (run ∷ runs) t db (here, later) early =
    history-Early runs t (step run db) later (step-Early run t db here early)

pub history-append :
    (xs ys : List Run) (db : Db) → history (xs ++ ys) db ≡ history ys (history xs db)
history-append [] ys db = refl
history-append (run ∷ xs) ys db = history-append xs ys (step run db)

le_of_lt :
    (runs : List Run) (t : DateTime) → All (λ run. run.1 < t) runs → All (λ run. run.1 ≤ t) runs
le_of_lt [] t h = tt
le_of_lt (run ∷ runs) t (here, later) = (omega arith, le_of_lt runs t later)

-- The run whose clock is latest wins, wherever it stands in the order: afterwards the metadata are
-- its own, and each of its items is stored as its snapshot has it.
pub history-latest :
    (earlier later : List Run) (snapshot : ItemSnapshot) (t : DateTime) (db : Db)
    → All (λ run. run.1 < t) earlier
    → All (λ run. run.1 < t) later
    → IsBefore t (last_sync_of db.metadata)
    → IsKeyed db.items
    → Distinct (item_ids snapshot.items)
    → ((history (earlier ++ (snapshot, t) ∷ later) db).metadata ≡ some (metadata_of snapshot t))
      × All
          (λ item.
            (history (earlier ++ (snapshot, t) ∷ later) db).items item.game_id ≡ some (row_of item))
          snapshot.items
history-latest earlier later snapshot t db he hl before keyed d =
    let db1 = history earlier db in
    let (early, keyed1) = history-Early earlier t db he (before, keyed) in
    let final : history (earlier ++ (snapshot, t) ∷ later) db ≡ published snapshot t db1 =
      history-append earlier ((snapshot, t) ∷ later) db
      ∙ ap (history later) (step_newer snapshot t db1 early)
      ∙ history_stale later t (published snapshot t db1) refl (le_of_lt later t hl) in
    rw final (refl, upsert_rows-All snapshot.items db1.items keyed1 d)
