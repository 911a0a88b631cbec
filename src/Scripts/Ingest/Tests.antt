-- ===== src/Scripts/Ingest/Tests.antt =====
-- Runs of the command on a machine whose world is what was written to stderr, and the theorems there.
use platinum_gold_backend.Prelude.{
  Text, codes, ℤ, pos, true, false, ltb, length, Option, none, some, List, [], ◌∷◌, ◌++◌, ◌≡◌, ◌≤◌,
  refl, ap, sym, take, if◌then◌else◌,
}
use platinum_gold_backend.Prelude.Decimal.{read, show, digits_of, show_int}
use platinum_gold_backend.Errors.{
  redis_error, is_os_error, is_redis_error, is_value_error, is_unicode_error, Outcome, ok, raised,
}
use platinum_gold_backend.Exec.{pure, lift}
use platinum_gold_backend.Exec.Returns.{ok-injective}
use platinum_gold_backend.Ingestion.Loader.Contract.{Files}
use platinum_gold_backend.Core.Platform.{SplitUrl, Platform}
use platinum_gold_backend.Core.Clients.{
  database_connect_args, redis_options, create_database, create_redis,
}
use platinum_gold_backend.Core.Config.Settings.{database_requires_tls}
use platinum_gold_backend.Core.Config.Samples as Environment
use platinum_gold_backend.Items.Cache.Client.{text, validate_ttl, new_cache}
use platinum_gold_backend.Items.Cache.Generation.{
  parse_text, parse_generation, read_generation, generation, invalidate,
}
use platinum_gold_backend.Ingestion.Samples as Snapshots
use platinum_gold_backend.Ingestion.Service.{ingest, transaction, ingest_in_session}
use platinum_gold_backend.Ingestion.Loader.{
  FilePath, Os, open_parts, open_snapshot_descriptor, read_snapshot_bytes, is_read_failure,
  parse_snapshot, load_snapshot,
}
use platinum_gold_backend.Scripts.Ingest.{
  Machine, parsed, argument_error, run_ingestion, report, main,
}
use platinum_gold_backend.Scripts.Ingest.Report.{
  join, safe_validation_text, message_of, format_validation_error, length-format_validation_error,
}
use platinum_gold_backend.Scripts.Ingest.Published.{IsPublished, main-IsPublished}

abbrev found_or : Option SplitUrl → Option SplitUrl → Option SplitUrl
found_or none other = other
found_or (some url) other = some url

abbrev platform : Platform
platform = record Snapshots.platform {
  urlsplit = λ t. found_or (Environment.platform.urlsplit t) (Snapshots.platform.urlsplit t);
  parse_qs = Environment.platform.parse_qs;
}

abbrev path : FilePath
path = record { is_absolute = false; anchor = []; parts = codes "s.json" ∷ [] }

abbrev reading : Os Text
reading = record {
  secure = true;
  open_at = λ part flags directory. pure 3;
  close = λ d. pure tt;
  is_regular = λ d. pure true;
  fdopen = λ d. pure tt;
  read_file = λ d n. pure (take n (codes "document"));
  close_file = λ d. pure tt;
}

reading_files : Files reading
reading_files = record {
  content = λ w d. codes "document";
  read_file-ok = λ d n w bytes h. sym (ok-injective h);
}

-- Redis answers `incr` with the given outcome.
abbrev machine : Outcome ℤ → Machine Text (Unit {0})
machine incr = record {
  os = reading;
  platform = platform;
  parser = record {
    decode_utf8 = λ b. some b;
    loads = λ t. some Snapshots.document;
    errors = λ v. [];
  };
  is_loopback = Environment.no_loopback;
  environ = [];
  raw = Environment.raw;
  setting_errors = [];
  create_async_engine = λ url args. pure (record {
    dispose = pure tt;
    sessions = record { enter = pure tt; exit_ok = λ s. pure tt; exit_error = λ e s w. w };
    session_maker = record { enter = pure tt; close = λ s. pure tt };
  });
  from_url = λ url options. pure (record {
    client = record {
      getrange = λ key first last. pure (text (codes "5"));
      set = λ key value ttl once. pure true;
      incr = λ key. lift incr;
    };
    aclose = pure tt;
  });
  clock = pure 10;
  repository = record {
    acquire_lock = pure tt;
    get_last_sync = pure none;
    upsert_items = λ items. pure tt;
    upsert_metadata = λ dataset game last_sync. pure tt;
  };
  logger = record { warning = λ entry w. w };
  randbelow = λ n. pure 0;
  parse_args =
      λ argv. if ltb 1 (length argv) then parsed path else argument_error (codes "required");
  unicode_escape = λ t. t;
  print_error = λ line w. w ++ line;
}

abbrev arguments : List Text
arguments = codes "--input" ∷ codes "s.json" ∷ []

running : Unit {0}
unfolding Snapshots.validating Environment.validating main run_ingestion report load_snapshot
    parse_snapshot read_snapshot_bytes open_snapshot_descriptor open_parts is_read_failure
    is_os_error is_redis_error is_value_error is_unicode_error database_connect_args
    database_requires_tls redis_options create_database create_redis validate_ttl new_cache
    parse_text parse_generation read_generation generation invalidate ingest transaction
    ingest_in_session read show digits_of show_int
running = tt

publishes : main (machine (ok (pos 6))) arguments [] ≡ (ok (pos 0), [])
unfolding running
publishes = refl

keeps_old_cache : main (machine (raised redis_error)) arguments [] ≡ (
  ok (pos 1),
  codes
      "Ingestion failed: data was published but cache invalidation failed; repeat ingestion to retry\n",
)
unfolding running
keeps_old_cache = refl

refuses_arguments :
    main (machine (ok (pos 6))) [] [] ≡ (ok (pos 2), codes "Invalid command-line arguments\n")
unfolding running
refuses_arguments = refl

reports :
    format_validation_error
      (λ t. t)
      (record { loc = codes "items" ∷ codes "0" ∷ []; msg = codes "bad" }
        ∷ record { loc = []; msg = codes "worse" }
        ∷ [])
    ≡ codes "items.0: bad; : worse"
unfolding format_validation_error message_of safe_validation_text join
reports = refl

main-IsPublished_example :
    IsPublished
      (machine (ok (pos 6)))
      reading_files
      path
      []
      (main (machine (ok (pos 6))) arguments []).1
main-IsPublished_example =
    main-IsPublished (machine (ok (pos 6))) reading_files arguments path [] refl
      (ap (λ r. r.0) publishes)

length-format_validation_error_example :
    length (format_validation_error (λ t. t) (record { loc = []; msg = codes "worse" } ∷ [])) ≤ 6930
length-format_validation_error_example =
    length-format_validation_error (λ t. t) (record { loc = []; msg = codes "worse" } ∷ [])
