-- ===== src/Ingestion/Service.antt =====
-- app/ingestion/service.py: one ingestion, in one transaction.
pub mod Contract
pub mod Publication
pub mod History
pub mod Runs
use platinum_gold_backend.Prelude.{ℕ, leb, Bool, true, false, Option, none, some, if◌then◌else◌}
use platinum_gold_backend.Errors.{Exc, Outcome, ok, raised}
use platinum_gold_backend.Exec.{Exec, pure, ◌>>=◌, ◌>>◌}
use platinum_gold_backend.Items.Schemas.{DateTime}
use platinum_gold_backend.Ingestion.Schemas.{ItemSnapshot}
use platinum_gold_backend.Ingestion.Repository.{IngestionRepository}

-- `session_factory.begin()`: `__aenter__`, and `__aexit__` without and with an exception.
pub record SessionFactory (W S : Type 0) : Type 0 where
  pub enter : Exec W S
  pub exit_ok : S → Exec W Unit
  pub exit_error : Exc → S → W → W

module _ {W S : Type 0} (sessions : SessionFactory W S) where
  abbrev pub leave : {A : Type 0} → Outcome A → S → Exec W A
  leave (ok a) s w = (sessions.exit_ok s >> pure a) w
  leave (raised e) s w = (raised e, sessions.exit_error e s w)

  -- `async with session_factory.begin() as session: body`
  unfoldable pub transaction : {A : Type 0} → Exec S A → Exec W A
  transaction body = do session ← sessions.enter; leave (body session).0 (body session).1

module _ {S : Type 0} (repository : IngestionRepository S) where
  abbrev pub write_snapshot : ItemSnapshot → DateTime → Exec S DateTime
  write_snapshot snapshot last_sync = do
    repository.upsert_items snapshot.items
    repository.upsert_metadata snapshot.dataset_version snapshot.game_version last_sync
    pure last_sync

  abbrev pub publish_unless_stale : ItemSnapshot → DateTime → Option DateTime → Exec S DateTime
  publish_unless_stale snapshot last_sync none = write_snapshot snapshot last_sync
  publish_unless_stale snapshot last_sync (some current) =
      if leb last_sync current then pure current else write_snapshot snapshot last_sync

  -- the body of the `async with`
  unfoldable pub ingest_in_session : ItemSnapshot → DateTime → Exec S DateTime
  ingest_in_session snapshot last_sync = do
    repository.acquire_lock
    current ← repository.get_last_sync
    publish_unless_stale snapshot last_sync current

-- `ingest`: the clock is read before the transaction begins.
unfoldable pub ingest :
    {W S : Type 0}
    → Exec W DateTime
    → SessionFactory W S
    → IngestionRepository S
    → ItemSnapshot
    → Exec W DateTime
ingest clock sessions repository snapshot = do
  last_sync ← clock
  transaction sessions (ingest_in_session repository snapshot last_sync)
