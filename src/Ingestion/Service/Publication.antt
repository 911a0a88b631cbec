-- ===== src/Ingestion/Service/Publication.antt =====
-- One ingestion is atomic, and publishes its snapshot unless it is stale.
pub mod Session
pub use Session.{metadata_of, published, publish_after, publish}
use platinum_gold_backend.Prelude.{
  leb, true, false, Option, none, some, ◌≡◌, ◌⊎◌, refl, sym, ◌∙◌, ap, inl, inr, arith, Bool-cases,
  if◌then◌else◌,
}
use platinum_gold_backend.Errors.{Exc, Outcome, ok, raised}
use platinum_gold_backend.Exec.{Exec, >>=-eq-ok, Outcome-cases}
use platinum_gold_backend.Items.Schemas.{DateTime}
use platinum_gold_backend.Ingestion.Schemas.{ItemSnapshot}
use platinum_gold_backend.Ingestion.Schemas.Duplicates.{Distinct}
use platinum_gold_backend.Ingestion.Repository.{
  MetadataRow, Statement, advisory_lock, select_last_sync, insert_metadata, execute, acquire_lock,
  get_last_sync, upsert_items, upsert_metadata, sqlalchemy_repository, ingestion_lock_key,
}
use platinum_gold_backend.Ingestion.Repository.Contract.{
  Db, last_sync_of, replaces, run, IsRunnable, Postgres,
}
use platinum_gold_backend.Ingestion.Repository.Upserts.{
  with_items, item_ids, execute-eq-ok, upsert_items-content,
}
use platinum_gold_backend.Ingestion.Service.{
  SessionFactory, leave, transaction, write_snapshot, publish_unless_stale, ingest_in_session,
  ingest,
}
use platinum_gold_backend.Ingestion.Service.Contract.{Sessions, Answered}
use platinum_gold_backend.Ingestion.Service.Publication.Session.{ingest_in_session-content}

ok-ne-raised : {A : Type 0} {a : A} {e : Exc} → ok a ≡ raised e → ⊥
ok-ne-raised h = cc

module _ {S : Type 0} (session_execute : Statement → Exec S (Option DateTime))
    (postgres : Postgres session_execute) where
  open postgres use {content}

  module _ {W : Type 0} (clock : Exec W DateTime) (sessions : SessionFactory W S)
      (contract : Sessions clock sessions content) where
    open contract use {committed}

    leave-committed :
        (r : Outcome DateTime) (s : S) (w : W) (t : DateTime)
        → (leave sessions r s w).0 ≡ ok t
        → (r ≡ ok t) × (committed (leave sessions r s w).1 ≡ content s)
    leave-committed (raised x) s w t h = cc
    leave-committed (ok a) s w t h = elim (Outcome-cases (sessions.exit_ok s w).0) [
      | inl (_u, e) ↦ (rw e at h, rw e (contract.committed-exit_ok s w e))
      | inr (x, e) ↦ absurd (ok-ne-raised (sym (rw e at h)))
    ]

    -- The end of a session publishes nothing, or what a body that returned has made of it.
    leave-cases :
        (r : Outcome DateTime) (s : S) (w : W)
        → (committed (leave sessions r s w).1 ≡ committed w)
          ⊎ ((t : DateTime) × (r ≡ ok t) × (committed (leave sessions r s w).1 ≡ content s))
    leave-cases (raised x) s w = inl (contract.committed-exit_error x s w)
    leave-cases (ok a) s w = elim (Outcome-cases (sessions.exit_ok s w).0) [
      | inl (_u, e) ↦ inr (a, refl, rw e (contract.committed-exit_ok s w e))
      | inr (x, e) ↦ elim (contract.committed-exit_raised x s w e) [
        | inl nothing ↦ inl (rw e nothing)
        | inr everything ↦ inr (a, refl, rw e everything)
      ]
    ]

    -- Where a commit that raises has not taken effect, a session that raises publishes nothing.
    leave-raised :
        Answered contract
        → (r : Outcome DateTime) (s : S) (w : W) (e : Exc) → (leave sessions r s w).0 ≡ raised e
        → committed (leave sessions r s w).1 ≡ committed w
    leave-raised answered (raised x) s w e h = contract.committed-exit_error x s w
    leave-raised answered (ok a) s w e h = elim (Outcome-cases (sessions.exit_ok s w).0) [
      | inl (_u, q) ↦ absurd (ok-ne-raised (rw q at h))
      | inr (x, q) ↦ rw q (answered.undone x s w q)
    ]

    pub ingest-unchanged :
        Answered contract
        → (snapshot : ItemSnapshot) (w : W) (e : Exc)
        → (ingest clock sessions (sqlalchemy_repository session_execute) snapshot w).0 ≡ raised e
        → committed (ingest clock sessions (sqlalchemy_repository session_execute) snapshot w).1
          ≡ committed w
    unfolding ingest transaction
    ingest-unchanged answered snapshot w e h = elim (Outcome-cases (clock w).0) [
      | inr (x, c) ↦ rw c (contract.committed-clock w)
      | inl (now, c) ↦
          let w1 = (clock w).1 in
          let before = contract.committed-clock w in
          elim (Outcome-cases (sessions.enter w1).0) [
            | inr (x, o) ↦ rw c (rw o (contract.committed-enter w1 ∙ before))
            | inl (s, o) ↦
                let body = ingest_in_session (sqlalchemy_repository session_execute) snapshot now in
                rw c (
                  rw o (
                    leave-raised answered (body s).0 (body s).1 (sessions.enter w1).1 e
                      (rw o at (rw c at h))
                    ∙ contract.committed-enter w1
                    ∙ before))
          ]
    ]

    -- An ingestion of a snapshot with different game ids, however it ends, an exception at any point
    -- included, leaves the database as it was or as the specification has it after publishing the
    -- snapshot with the time that the clock gave, even if its commit raises.
    pub ingest-atomic :
        (snapshot : ItemSnapshot) (w : W)
        → Distinct (item_ids snapshot.items)
        → (committed (ingest clock sessions (sqlalchemy_repository session_execute) snapshot w).1
            ≡ committed w)
          ⊎ ((now t : DateTime) × ((clock w).0 ≡ ok now)
              × ((
                t,
                committed
                    (ingest clock sessions (sqlalchemy_repository session_execute) snapshot w).1,
              )
                  ≡ publish snapshot now (committed w)))
    unfolding ingest transaction
    ingest-atomic snapshot w d = elim (Outcome-cases (clock w).0) [
      | inr (x, c) ↦ inl (rw c (contract.committed-clock w))
      | inl (now, c) ↦
          let w1 = (clock w).1 in
          let before = contract.committed-clock w in
          elim (Outcome-cases (sessions.enter w1).0) [
            | inr (x, o) ↦ inl (rw c (rw o (contract.committed-enter w1 ∙ before)))
            | inl (s, o) ↦
                let body = ingest_in_session (sqlalchemy_repository session_execute) snapshot now in
                elim (leave-cases (body s).0 (body s).1 (sessions.enter w1).1) [
                  | inl nothing ↦ inl (rw c (rw o (nothing ∙ contract.committed-enter w1 ∙ before)))
                  | inr (t, done, kept) ↦ inr (
                    now,
                    t,
                    c,
                    rw c (
                        rw o (
                          ap (λ db. (t, db)) kept
                          ∙ ingest_in_session-content session_execute postgres snapshot now t s d
                              done
                          ∙ ap (publish snapshot now) (contract.content-enter w1 s o ∙ before))),
                  )
                ]
          ]
    ]

    -- An ingestion that returns, of a snapshot with different game ids, has the effect and the
    -- result of the specification: it publishes the snapshot with the time that the clock gave,
    -- or, if the database records that time or a later one, changes nothing and returns the
    -- recorded time.
    pub ingest-publish :
        (snapshot : ItemSnapshot) (w : W) (now t : DateTime)
        → Distinct (item_ids snapshot.items)
        → (clock w).0 ≡ ok now
        → (ingest clock sessions (sqlalchemy_repository session_execute) snapshot w).0 ≡ ok t
        → (
          t,
          committed (ingest clock sessions (sqlalchemy_repository session_execute) snapshot w).1,
        )
          ≡ publish snapshot now (committed w)
    unfolding ingest transaction
    ingest-publish snapshot w now t d c h =
        let w1 = (clock w).1 in
        let body = ingest_in_session (sqlalchemy_repository session_execute) snapshot now in
        let (s, o, h1) = >>=-eq-ok sessions.enter _ w1 (rw c at h) in
        let (done, kept) = leave-committed (body s).0 (body s).1 (sessions.enter w1).1 t h1 in
        rw c (
          rw o (
            ap (λ db. (t, db)) kept
            ∙ ingest_in_session-content session_execute postgres snapshot now t s d done
            ∙ ap (publish snapshot now)
                (contract.content-enter w1 s o ∙ contract.committed-clock w)))
