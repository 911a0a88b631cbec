-- ===== src/Ingestion/Loader/Tests.antt =====
-- Runs of the loader on an operating system that only counts descriptors, and the theorems there.
use platinum_gold_backend.Prelude.{
  take, sym, ℕ, suc, ◌+◌, ◌<◌, codes, Bool, true, false, text_eq, some, List, [], ◌∷◌, ◌≡◌, refl,
  ap, arith,
}
use platinum_gold_backend.Errors.{Exc, os_error, ok, raised, is_os_error}
use platinum_gold_backend.Exec.{Exec, pure}
use platinum_gold_backend.Exec.Returns.{ok-injective}
use platinum_gold_backend.Ingestion.Samples.{platform, document, snapshot, validating}
use platinum_gold_backend.Ingestion.Loader.{
  FilePath, Os, Parser, unreadable, open_parts, open_snapshot_descriptor, read_snapshot_bytes,
  is_read_failure, parse_snapshot, load_snapshot,
}
use platinum_gold_backend.Ingestion.Loader.Contract.{Files, mem, remove, Descriptors}
use platinum_gold_backend.Ingestion.Loader.Descriptors.{opened-load_snapshot}
use platinum_gold_backend.Ingestion.Loader.Loaded.{IsLoaded, load_snapshot-IsLoaded}

-- The world is the list of the open descriptors.
abbrev World : Type 0
World = List ℕ

abbrev total : List ℕ → ℕ
total [] = 0
total (d ∷ ds) = d + total ds

above_total : (n : ℕ) (ds : List ℕ) → total ds < n → mem n ds ≡ false
above_total n [] h = refl
above_total n (d ∷ ds) h = ground (arith, above_total n ds (omega arith))

abbrev drop_descriptor : ℕ → Exec World Unit
drop_descriptor d ds = (ok tt, remove d ds)

abbrev open_unless : Bool → Exec World ℕ
open_unless true ds = (raised os_error, ds)
open_unless false ds = (ok (suc (total ds)), suc (total ds) ∷ ds)

abbrev counting : Os World
counting = record {
  secure = true;
  open_at = λ path flags directory ds. open_unless (text_eq path (codes "missing")) ds;
  close = drop_descriptor;
  is_regular = λ d. pure true;
  fdopen = λ d. pure tt;
  read_file = λ d n. pure (take n (codes "document"));
  close_file = drop_descriptor;
}

counting_opens :
    (b : Bool) (ds : List ℕ) (d : ℕ)
    → (open_unless b ds).0 ≡ ok d
    → ((open_unless b ds).1 ≡ d ∷ ds) × (mem d ds ≡ false)
counting_opens true ds d h = cc
counting_opens false ds d h =
    (ap (λ n. n ∷ ds) (of_ok h), rw (of_ok h) at (above_total (suc (total ds)) ds (omega arith)))
  where
    of_ok : {a b : ℕ} → ok a ≡ ok b → a ≡ b
    of_ok x = cc

counting_fails :
    (b : Bool) (ds : List ℕ) (e : Exc) → (open_unless b ds).0 ≡ raised e → (open_unless b ds).1 ≡ ds
counting_fails true ds e h = refl
counting_fails false ds e h = cc

counting_lem : Descriptors counting
counting_lem = record {
  opened = λ ds. ds;
  opened-open_at =
      λ path flags directory ds d h. counting_opens (text_eq path (codes "missing")) ds d h;
  opened-open_raised =
      λ path flags directory ds e h. counting_fails (text_eq path (codes "missing")) ds e h;
  opened-close = λ d ds h. (refl, refl);
  opened-close_file = λ d ds h. (refl, refl);
  opened-is_regular = λ d ds. refl;
  opened-fdopen = λ d ds. refl;
  opened-read_file = λ d n ds. refl;
}

abbrev parser : Parser
parser = record { decode_utf8 = λ b. some b; loads = λ t. some document; errors = λ v. [] }

abbrev here : FilePath
here = record {
  is_absolute = true;
  anchor = codes "/";
  parts = codes "/" ∷ codes "data" ∷ codes "s.json" ∷ [];
}

abbrev missing : FilePath
missing = record { is_absolute = false; anchor = []; parts = codes "data" ∷ codes "missing" ∷ [] }

counting_files : Files counting
counting_files = record {
  content = λ ds d. codes "document";
  read_file-ok = λ d n ds bytes h. sym (ok-injective h);
}

loading : Unit {0}
unfolding validating load_snapshot parse_snapshot read_snapshot_bytes open_snapshot_descriptor
    open_parts is_read_failure is_os_error
loading = tt

loads : load_snapshot counting platform parser here (3 ∷ []) ≡ (ok snapshot, 3 ∷ [])
unfolding loading
loads = refl

misses : load_snapshot counting platform parser missing (3 ∷ []) ≡ (raised unreadable, 3 ∷ [])
unfolding loading
misses = refl

opened-load_snapshot_example : (load_snapshot counting platform parser missing (3 ∷ [])).1 ≡ 3 ∷ []
unfolding counting_lem
opened-load_snapshot_example =
    opened-load_snapshot counting counting_lem platform parser missing (3 ∷ [])

load_snapshot-IsLoaded_example :
    IsLoaded counting counting_files platform parser here (3 ∷ []) snapshot
load_snapshot-IsLoaded_example =
    load_snapshot-IsLoaded counting counting_files platform parser here (3 ∷ []) snapshot
      (ap (λ r. r.0) loads)
