-- ===== src/Ingestion/Service/Contract.antt =====
-- What one ingestion relies on besides PostgreSQL's statements: how a session begins and ends.
use platinum_gold_backend.Prelude.{◌≡◌, ◌⊎◌}
use platinum_gold_backend.Errors.{Exc, ok, raised}
use platinum_gold_backend.Exec.{Exec}
use platinum_gold_backend.Items.Schemas.{DateTime}
use platinum_gold_backend.Ingestion.Repository.Contract.{Db}
use platinum_gold_backend.Ingestion.Service.{SessionFactory}

-- `committed w` is what other sessions see. A session starts from it, a commit that returns
-- publishes the session's content, a rollback changes nothing, and a commit that raises has taken
-- effect as a whole or not at all: the connection may be lost after the server has committed.
pub record Sessions {W S : Type 0} (clock : Exec W DateTime) (sessions : SessionFactory W S)
    (content : S → Db) : Type 0 where
  pub committed : W → Db
  pub committed-clock : (w : W) → committed (clock w).1 ≡ committed w
  pub committed-enter : (w : W) → committed (sessions.enter w).1 ≡ committed w
  pub content-enter : (w : W) (s : S) → (sessions.enter w).0 ≡ ok s → content s ≡ committed w
  pub committed-exit_ok :
      (s : S) (w : W)
      → (sessions.exit_ok s w).0 ≡ ok tt
      → committed (sessions.exit_ok s w).1 ≡ content s
  pub committed-exit_raised :
      (e : Exc) (s : S) (w : W)
      → (sessions.exit_ok s w).0 ≡ raised e
      → (committed (sessions.exit_ok s w).1 ≡ committed w)
        ⊎ (committed (sessions.exit_ok s w).1 ≡ content s)
  pub committed-exit_error :
      (e : Exc) (s : S) (w : W) → committed (sessions.exit_error e s w) ≡ committed w

-- No connection is lost between a commit on the server and its answer, so that a commit that raises
-- has not taken effect.
pub record Answered {W S : Type 0} {clock : Exec W DateTime} {sessions : SessionFactory W S}
    {content : S → Db} (contract : Sessions clock sessions content) : Type 0 where
  pub undone :
      (e : Exc) (s : S) (w : W)
      → (sessions.exit_ok s w).0 ≡ raised e
      → contract.committed (sessions.exit_ok s w).1 ≡ contract.committed w
