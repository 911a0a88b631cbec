-- ===== src/Ingestion/Service/Publication/Session.antt =====
-- What an ingestion does to the database of its session, and what it is specified to do.
use platinum_gold_backend.Prelude.{
  leb, true, false, Option, none, some, ◌≡◌, refl, sym, ◌∙◌, ap, inl, inr, arith, Bool-cases,
  if◌then◌else◌,
}
use platinum_gold_backend.Errors.{ok}
use platinum_gold_backend.Exec.{Exec, >>=-eq-ok}
use platinum_gold_backend.Items.Schemas.{DateTime}
use platinum_gold_backend.Ingestion.Schemas.{ItemSnapshot}
use platinum_gold_backend.Ingestion.Schemas.Duplicates.{Distinct}
use platinum_gold_backend.Ingestion.Repository.{
  MetadataRow, Statement, advisory_lock, select_last_sync, insert_metadata, execute, acquire_lock,
  get_last_sync, upsert_items, upsert_metadata, sqlalchemy_repository, ingestion_lock_key,
}
use platinum_gold_backend.Ingestion.Repository.Contract.{
  Db, last_sync_of, replaces, run, IsRunnable, Postgres,
}
use platinum_gold_backend.Ingestion.Repository.Upserts.{
  with_items, item_ids, execute-eq-ok, upsert_items-content,
}
use platinum_gold_backend.Ingestion.Service.{
  write_snapshot, publish_unless_stale, ingest_in_session,
}

-- The specification: an ingestion at time `now` replaces the metadata and upserts the items, and
-- does nothing if the database records a synchronization at `now` or later.
abbrev pub metadata_of : ItemSnapshot → DateTime → MetadataRow
metadata_of snapshot now = record {
  dataset_version = snapshot.dataset_version;
  game_version = snapshot.game_version;
  last_sync = now;
}

abbrev pub published : ItemSnapshot → DateTime → Db → Db
published snapshot now db = record (with_items snapshot.items db) {
  metadata = some (metadata_of snapshot now);
}

abbrev pub publish_after : ItemSnapshot → DateTime → Option DateTime → Db → DateTime × Db
publish_after snapshot now none db = (now, published snapshot now db)
publish_after snapshot now (some current) db =
    if leb now current then (current, db) else (now, published snapshot now db)

abbrev pub publish : ItemSnapshot → DateTime → Db → DateTime × Db
publish snapshot now db = publish_after snapshot now (last_sync_of db.metadata) db

replaces-none :
    (new : MetadataRow) (old : Option MetadataRow)
    → none ≡ last_sync_of old
    → replaces true new old ≡ true
replaces-none new none h = refl
replaces-none new (some m) h = cc

replaces-older :
    (new : MetadataRow) (c : DateTime) (old : Option MetadataRow)
    → some c ≡ last_sync_of old
    → leb new.last_sync c ≡ false
    → replaces true new old ≡ true
replaces-older new c none h newer = cc
replaces-older new c (some m) h newer = ground arith

of_ok : {a b : DateTime} → ok a ≡ ok b → b ≡ a
of_ok h = cc

module _ {S : Type 0} (session_execute : Statement → Exec S (Option DateTime))
    (postgres : Postgres session_execute) where
  open postgres use {content}

  -- a statement that is executed, and what it does
  statement-content :
      (statement : Statement) (s : S) (r : Option DateTime)
      → IsRunnable statement
      → (execute session_execute statement s).0 ≡ ok r
      → content (execute session_execute statement s).1 ≡ run statement (content s)
  statement-content statement s r runnable e =
      let (raw, same) = execute-eq-ok session_execute statement s r e in
      ap content same ∙ postgres.effect_of statement s r raw runnable

  acquire_lock-content :
      (s : S)
      → (acquire_lock session_execute s).0 ≡ ok tt
      → content (acquire_lock session_execute s).1 ≡ content s
  unfolding acquire_lock
  acquire_lock-content s h =
      let (r, e, _rest) =
        >>=-eq-ok (execute session_execute (advisory_lock ingestion_lock_key)) _ s h in
      rw e (statement-content (advisory_lock ingestion_lock_key) s r tt e)

  get_last_sync-content :
      (s : S) (r : Option DateTime)
      → (get_last_sync session_execute s).0 ≡ ok r
      → (r ≡ last_sync_of (content s).metadata)
        × (content (get_last_sync session_execute s).1 ≡ content s)
  unfolding get_last_sync
  get_last_sync-content s r h = (
    postgres.last_sync_read s r (execute-eq-ok session_execute (select_last_sync 1) s r h).0,
    statement-content (select_last_sync 1) s r tt h,
  )

  upsert_metadata-content :
      (snapshot : ItemSnapshot) (now : DateTime) (s : S)
      → (upsert_metadata session_execute snapshot.dataset_version snapshot.game_version now s).0
        ≡ ok tt
      → content
          (upsert_metadata session_execute snapshot.dataset_version snapshot.game_version now s).1
        ≡ run (insert_metadata 1 (metadata_of snapshot now) true) (content s)
  unfolding upsert_metadata
  upsert_metadata-content snapshot now s h =
      let statement = insert_metadata 1 (metadata_of snapshot now) true in
      let (r, e, _rest) = >>=-eq-ok (execute session_execute statement) _ s h in
      rw e (statement-content statement s r tt e)

  write_snapshot-content :
      (snapshot : ItemSnapshot) (now t : DateTime) (s : S)
      → Distinct (item_ids snapshot.items)
      → replaces true (metadata_of snapshot now) (content s).metadata ≡ true
      → (write_snapshot (sqlalchemy_repository session_execute) snapshot now s).0 ≡ ok t
      → (t ≡ now)
        × (content (write_snapshot (sqlalchemy_repository session_execute) snapshot now s).1
            ≡ published snapshot now (content s))
  write_snapshot-content snapshot now t s d newer h =
      let items = upsert_items session_execute snapshot.items in
      let metadata =
        upsert_metadata session_execute snapshot.dataset_version snapshot.game_version now in
      let (_u1, e1, h1) = >>=-eq-ok items _ s h in
      let (_u2, e2, h2) = >>=-eq-ok metadata _ (items s).1 h1 in
      let stored : content (items s).1 ≡ with_items snapshot.items (content s) =
        upsert_items-content session_execute postgres snapshot.items s e1 d in
      let recorded = upsert_metadata-content snapshot now (items s).1 e2 in
      (
        cc,
        rw e1 (
            rw e2 (
              recorded
              ∙ ap (run (insert_metadata 1 (metadata_of snapshot now) true)) stored
              ∙ rw newer)),
      )

  publish_unless_stale-content :
      (snapshot : ItemSnapshot) (now t : DateTime) (current : Option DateTime) (s : S)
      → Distinct (item_ids snapshot.items)
      → current ≡ last_sync_of (content s).metadata
      → (publish_unless_stale (sqlalchemy_repository session_execute) snapshot now current s).0
        ≡ ok t
      → (
        t,
        content
            (publish_unless_stale (sqlalchemy_repository session_execute) snapshot now current s).1,
      )
        ≡ publish_after snapshot now current (content s)
  publish_unless_stale-content snapshot now t none s d is h =
      let (same, wrote) =
        write_snapshot-content snapshot now t s d
          (replaces-none (metadata_of snapshot now) (content s).metadata is) h in
      λ i. (same i, wrote i)
  publish_unless_stale-content snapshot now t (some c) s d is h = elim (Bool-cases (leb now c)) [
    | inl stale ↦ rw stale (λ i. (of_ok (rw stale at h) i, content s))
    | inr newer ↦
        let (same, wrote) =
          write_snapshot-content snapshot now t s d
            (replaces-older (metadata_of snapshot now) c (content s).metadata is newer)
            (rw newer at h) in
        rw newer (λ i. (same i, wrote i))
  ]

  pub ingest_in_session-content :
      (snapshot : ItemSnapshot) (now t : DateTime) (s : S)
      → Distinct (item_ids snapshot.items)
      → (ingest_in_session (sqlalchemy_repository session_execute) snapshot now s).0 ≡ ok t
      → (t, content (ingest_in_session (sqlalchemy_repository session_execute) snapshot now s).1)
        ≡ publish snapshot now (content s)
  unfolding ingest_in_session
  ingest_in_session-content snapshot now t s d h =
      let (_u, e1, h1) = >>=-eq-ok (acquire_lock session_execute) _ s h in
      let s1 = (acquire_lock session_execute s).1 in
      let (current, e2, h2) = >>=-eq-ok (get_last_sync session_execute) _ s1 h1 in
      let s2 = (get_last_sync session_execute s1).1 in
      let (read, kept) = get_last_sync-content s1 current e2 in
      let as_before : content s2 ≡ content s = kept ∙ acquire_lock-content s e1 in
      let is : current ≡ last_sync_of (content s2).metadata =
        read ∙ ap (λ (db : Db). last_sync_of db.metadata) (sym kept) in
      rw e1 (
        rw e2 (
          publish_unless_stale-content snapshot now t current s2 d is h2
          ∙ ap (λ c. publish_after snapshot now c (content s2)) is
          ∙ ap (publish snapshot now) as_before))
