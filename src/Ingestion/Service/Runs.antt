-- ===== src/Ingestion/Service/Runs.antt =====
-- Ingestions that follow one another on one database, among them some that raise.
use platinum_gold_backend.Prelude.{
  ◌<◌, Option, some, List, [], ◌∷◌, ◌++◌, All, ◌≡◌, refl, sym, ◌∙◌, ap,
}
use platinum_gold_backend.Errors.{Exc, ok, raised}
use platinum_gold_backend.Exec.{Exec}
use platinum_gold_backend.Items.Schemas.{DateTime}
use platinum_gold_backend.Ingestion.Schemas.{ItemSnapshot}
use platinum_gold_backend.Ingestion.Schemas.Duplicates.{Distinct}
use platinum_gold_backend.Ingestion.Repository.{Statement, row_of, sqlalchemy_repository}
use platinum_gold_backend.Ingestion.Repository.Contract.{last_sync_of, Postgres}
use platinum_gold_backend.Ingestion.Repository.Upserts.{item_ids, IsKeyed}
use platinum_gold_backend.Ingestion.Service.{SessionFactory, ingest}
use platinum_gold_backend.Ingestion.Service.Contract.{Sessions, Answered}
use platinum_gold_backend.Ingestion.Service.Publication.{
  metadata_of, publish, ingest-publish, ingest-unchanged,
}
use platinum_gold_backend.Ingestion.Service.History.{
  Run, IsBefore, history, history-append, history-latest,
}

module _ {W S : Type 0} (session_execute : Statement → Exec S (Option DateTime))
    (postgres : Postgres session_execute) (clock : Exec W DateTime) (sessions : SessionFactory W S)
    (contract : Sessions clock sessions postgres.content) where
  open contract use {committed}

  abbrev pub ingestion : ItemSnapshot → Exec W DateTime
  ingestion = ingest clock sessions (sqlalchemy_repository session_execute)

  -- From the first world on, the runs returned in this order, with the times of their clocks.
  -- Between them, ingestions may raise, and the world may change elsewhere.
  pub data Ingested (first : W) : List Run → W → Type 0 where
    start : Ingested first [] first
    returned :
        {runs : List Run} {w : W} (snapshot : ItemSnapshot) (now t : DateTime) (w' : W)
        → Ingested first runs w
        → Distinct (item_ids snapshot.items)
        → (clock w).0 ≡ ok now
        → ingestion snapshot w ≡ (ok t, w')
        → Ingested first (runs ++ (snapshot, now) ∷ []) w'
    raises :
        {runs : List Run} {w : W} (snapshot : ItemSnapshot) (e : Exc) (w' : W)
        → Ingested first runs w
        → ingestion snapshot w ≡ (raised e, w')
        → Ingested first runs w'
    elsewhere :
        {runs : List Run} {w : W} (w' : W)
        → Ingested first runs w
        → committed w' ≡ committed w
        → Ingested first runs w'

  -- The database holds what the specified history makes of the runs that returned.
  pub committed-Ingested :
      Answered contract
      → (first : W) (runs : List Run) (w : W) → Ingested first runs w
      → committed w ≡ history runs (committed first)
  committed-Ingested answers first _ _ start = refl
  committed-Ingested answers first _ _
        (returned {runs = runs} {w = w} snapshot now t w' before d c h) =
      let published =
        ingest-publish session_execute postgres clock sessions contract snapshot w now t d c
          (ap (λ r. r.0) h) in
      ap (λ r. committed r.1) (sym h)
      ∙ ap (λ r. r.1) published
      ∙ ap (λ db. (publish snapshot now db).1) (committed-Ingested answers first runs w before)
      ∙ sym (history-append runs ((snapshot, now) ∷ []) (committed first))
  committed-Ingested answers first _ _ (raises {runs = runs} {w = w} snapshot e w' before h) =
      ap (λ r. committed r.1) (sym h)
      ∙ ingest-unchanged session_execute postgres clock sessions contract answers snapshot w e
          (ap (λ r. r.0) h)
      ∙ committed-Ingested answers first runs w before
  committed-Ingested answers first _ _ (elsewhere {runs = runs} {w = w} w' before same) =
      same ∙ committed-Ingested answers first runs w before

  -- After a sequence of ingestions, some of which may have raised, the one that returned and whose
  -- clock was latest has won, wherever it stands in the order: the metadata are its own, and each
  -- of its items is stored as its snapshot has it. At first every row stands under its own id, and
  -- the recorded time is earlier than the latest.
  -- No commit that raised has taken effect.
  pub ingested-latest :
      Answered contract
      → (first w : W) (earlier later : List Run) (snapshot : ItemSnapshot) (t : DateTime)
      → Ingested first (earlier ++ (snapshot, t) ∷ later) w
      → All (λ run. run.1 < t) earlier
      → All (λ run. run.1 < t) later
      → IsBefore t (last_sync_of (committed first).metadata)
      → IsKeyed (committed first).items
      → Distinct (item_ids snapshot.items)
      → ((committed w).metadata ≡ some (metadata_of snapshot t))
        × All (λ item. (committed w).items item.game_id ≡ some (row_of item)) snapshot.items
  ingested-latest answers first w earlier later snapshot t runs he hl before keyed d =
      rw (committed-Ingested answers first _ w runs)
        (history-latest earlier later snapshot t (committed first) he hl before keyed d)
