-- ===== src/Ingestion/Tests.antt =====
-- A snapshot of one item, validated and ingested into a database that runs the statements.
use platinum_gold_backend.Prelude.{
  List, codes, flatten, All, Option, none, some, [], ◌∷◌, ◌≡◌, ◌⊎◌, inl, ◌↔◌, refl, arith,
}
use platinum_gold_backend.Errors.{ok, raised, postgres_error}
use platinum_gold_backend.Exec.{Exec, pure}
use platinum_gold_backend.Value.{null, str, arr, obj, nil, cons, end, field}
use platinum_gold_backend.Items.Schemas.{DateTime}
use platinum_gold_backend.Ingestion.Samples.{
  platform, item_document, document, brimstone, snapshot, validating,
}
use platinum_gold_backend.Ingestion.Schemas.{
  valid, invalid, crashed, ItemSnapshot, validate_item, validate_snapshot,
}
use platinum_gold_backend.Ingestion.Schemas.Accepted.{IsSnapshot, validate_snapshot-IsSnapshot}
use platinum_gold_backend.Ingestion.Schemas.Crash.{HasNullType, validate_item-crashed_iff}
use platinum_gold_backend.Ingestion.Repository.{
  ItemRow, Statement, insert_metadata, row_of, rounds_of, batches, execute, acquire_lock,
  get_last_sync, upsert_items, upsert_metadata, sqlalchemy_repository,
}
use platinum_gold_backend.Ingestion.Repository.Batches.{IsBatch, batches-flatten}
use platinum_gold_backend.Ingestion.Repository.Contract.{
  Db, last_sync_of, run, IsRunnable, Postgres,
}
use platinum_gold_backend.Ingestion.Repository.Upserts.{with_items, upsert_items-content}
use platinum_gold_backend.Ingestion.Service.{SessionFactory, transaction, ingest_in_session, ingest}
use platinum_gold_backend.Ingestion.Service.Contract.{Sessions, Answered}
use platinum_gold_backend.Ingestion.Service.Publication.{
  metadata_of, publish, ingest-atomic, ingest-publish,
}
use platinum_gold_backend.Ingestion.Service.Runs.{
  Ingested, start, returned, elsewhere, ingested-latest,
}
use platinum_gold_backend.Ingestion.Service.History.{Run}

accepts : validate_snapshot platform document ≡ valid snapshot
unfolding validating
accepts = refl

-- a repeated id, and an unknown field
rejects_repeated :
    validate_snapshot platform (
      obj (
        field (codes "datasetVersion") (str (codes "example")) (
          field
            (codes "items")
            (arr (
              cons
                (item_document (str (codes "passive")))
                (cons (item_document (str (codes "active"))) nil)))
            end)))
    ≡ invalid
unfolding validating
rejects_repeated = refl

rejects_unknown : validate_snapshot platform (obj (field (codes "extra") null end)) ≡ invalid
unfolding validating
rejects_unknown = refl

validate_snapshot-IsSnapshot_example : IsSnapshot platform snapshot
validate_snapshot-IsSnapshot_example =
    validate_snapshot-IsSnapshot platform document snapshot accepts

validate_item-crashed_iff_example :
    (validate_item platform (item_document null) ≡ crashed)
    ↔ HasNullType platform (item_document null)
validate_item-crashed_iff_example = validate_item-crashed_iff platform (item_document null)

batches-flatten_example :
    (flatten (batches (rounds_of 1) (brimstone ∷ [])) ≡ brimstone ∷ [])
    × All IsBatch (batches (rounds_of 1) (brimstone ∷ []))
batches-flatten_example = batches-flatten (brimstone ∷ [])

-- A session is a database that runs the statements.
abbrev answer : Statement → Db → Option DateTime
answer statement db = last_sync_of db.metadata

abbrev session_execute : Statement → Exec Db (Option DateTime)
session_execute statement db = (ok (answer statement db), run statement db)

of_ok : {a b : Option DateTime} → ok a ≡ ok b → b ≡ a
of_ok e = cc

postgres : Postgres session_execute
postgres = record {
  content = λ db. db;
  effect_of = λ statement s r e runnable. refl;
  last_sync_read = λ s r e. of_ok e;
}

abbrev clock : Exec Db DateTime
clock = pure 10

abbrev sessions : SessionFactory Db Db
sessions = record { enter = λ w. (ok w, w); exit_ok = λ s w. (ok tt, s); exit_error = λ e s w. w }

session_contract : Sessions clock sessions (λ db. db)
session_contract = record {
  committed = λ w. w;
  committed-clock = λ w. refl;
  committed-enter = λ w. refl;
  content-enter = λ w s e. of_ok_db e;
  committed-exit_ok = λ s w e. refl;
  committed-exit_raised = λ e s w h. inl cc;
  committed-exit_error = λ e s w. refl;
}
  where
    of_ok_db : {a b : Db} → ok a ≡ ok b → b ≡ a
    of_ok_db e = cc

abbrev empty : Db
empty = record { items = λ id. none; metadata = none }

ingesting : Unit {0}
unfolding ingest transaction ingest_in_session acquire_lock get_last_sync upsert_items
    upsert_metadata execute batches rounds_of row_of
ingesting = tt

ingests : (ingest clock sessions (sqlalchemy_repository session_execute) snapshot empty).0 ≡ ok 10
unfolding ingesting
ingests = refl

upsert_items-content_example :
    (upsert_items session_execute (brimstone ∷ []) empty).1 ≡ with_items (brimstone ∷ []) empty
unfolding upsert_items postgres row_of
upsert_items-content_example =
    upsert_items-content session_execute postgres (brimstone ∷ []) empty (unfold ingesting in refl)
      (refl, tt)

ingest-publish_example :
    (10, (ingest clock sessions (sqlalchemy_repository session_execute) snapshot empty).1)
    ≡ publish snapshot 10 empty
unfolding postgres ingest session_contract
ingest-publish_example =
    ingest-publish session_execute postgres clock sessions session_contract snapshot empty 10 10
      (refl, tt) refl ingests

-- A database that fails when the metadata are written.
abbrev failing_execute : Statement → Exec Db (Option DateTime)
failing_execute (insert_metadata id row newer) db = (raised postgres_error, db)
failing_execute statement db = (ok (answer statement db), run statement db)

failing_effect :
    (statement : Statement) (s : Db) (r : Option DateTime)
    → (failing_execute statement s).0 ≡ ok r
    → IsRunnable statement
    → (failing_execute statement s).1 ≡ run statement s
failing_effect (insert_metadata id row newer) s r e runnable = cc
failing_effect statement s r e runnable = refl

failing_postgres : Postgres failing_execute
failing_postgres = record {
  content = λ db. db;
  effect_of = failing_effect;
  last_sync_read = λ s r e. of_ok e;
}

ingest-atomic_example :
    ((ingest clock sessions (sqlalchemy_repository failing_execute) snapshot empty).1 ≡ empty)
    ⊎ ((now t : DateTime) × (ok 10 ≡ ok now)
        × ((t, (ingest clock sessions (sqlalchemy_repository failing_execute) snapshot empty).1)
            ≡ publish snapshot now empty))
unfolding failing_postgres ingest session_contract
ingest-atomic_example =
    ingest-atomic failing_execute failing_postgres clock sessions session_contract snapshot empty
      (refl, tt)

abbrev newer_snapshot : ItemSnapshot
newer_snapshot = record snapshot { dataset_version = codes "newer" }

-- A database beside a clock that can be set.
record Timed : Type 0 where
  db : Db
  now : DateTime

abbrev timed_clock : Exec Timed DateTime
timed_clock w = (ok w.now, w)

abbrev timed_sessions : SessionFactory Timed Db
timed_sessions = record {
  enter = λ w. (ok w.db, w);
  exit_ok = λ s w. (ok tt, record w { db = s });
  exit_error = λ e s w. w;
}

timed_contract : Sessions timed_clock timed_sessions postgres.content
unfolding postgres
timed_contract = record {
  committed = λ w. w.db;
  committed-clock = λ w. refl;
  committed-enter = λ w. refl;
  content-enter = λ w s e. of_ok_db e;
  committed-exit_ok = λ s w e. refl;
  committed-exit_raised = λ e s w h. inl cc;
  committed-exit_error = λ e s w. refl;
}
  where
    of_ok_db : {a b : Db} → ok a ≡ ok b → b ≡ a
    of_ok_db e = cc

timed_answers : Answered timed_contract
timed_answers = record { undone = λ e s w h. cc }

abbrev at_time : DateTime → Timed → Timed
at_time n w = record w { now = n }

abbrev timed_ingest : ItemSnapshot → Exec Timed DateTime
timed_ingest = ingest timed_clock timed_sessions (sqlalchemy_repository session_execute)

abbrev w5 : Timed
w5 = record { db = empty; now = 5 }

abbrev w9 : Timed
w9 = at_time 9 (timed_ingest snapshot w5).1

abbrev w7 : Timed
w7 = at_time 7 (timed_ingest newer_snapshot w9).1

abbrev end_world : Timed
end_world = (timed_ingest snapshot w7).1

abbrev three_runs : List Run
three_runs = (snapshot, 5) ∷ (newer_snapshot, 9) ∷ (snapshot, 7) ∷ []

-- The newer snapshot is published before an older one is tried.
three_runs_lem :
    Ingested session_execute postgres timed_clock timed_sessions timed_contract w5 three_runs
      end_world
unfolding ingesting postgres timed_contract
three_runs_lem =
    returned snapshot 7 9 end_world
      (elsewhere w7
        (returned newer_snapshot 9 9 (timed_ingest newer_snapshot w9).1
          (elsewhere w9
            (returned snapshot 5 5 (timed_ingest snapshot w5).1 start (refl, tt) refl refl) refl)
          (refl, tt) refl refl)
        refl)
      (refl, tt) refl refl

ingested-latest_example :
    (end_world.db.metadata ≡ some (metadata_of newer_snapshot 9))
    × All (λ item. end_world.db.items item.game_id ≡ some (row_of item)) newer_snapshot.items
unfolding postgres timed_contract
ingested-latest_example =
    ingested-latest session_execute postgres timed_clock timed_sessions timed_contract timed_answers
      w5 end_world ((snapshot, 5) ∷ []) ((snapshot, 7) ∷ []) newer_snapshot 9 three_runs_lem
      (omega arith) (omega arith) tt (λ id row e. absurd (none-ne-some e)) (refl, tt)
  where
    none-ne-some : {r : ItemRow} → none ≡ some r → ⊥
    none-ne-some e = cc
