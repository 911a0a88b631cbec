-- ===== src/Ingestion/Loader.antt =====
-- app/ingestion/loader.py: a snapshot is read through descriptors that are opened one directory
-- after another, with a bound on its size, then decoded, parsed and validated.
pub mod Contract
pub mod Descriptors
pub mod Loaded
mod Tests
use platinum_gold_backend.Prelude.{
  ℕ, ◌+◌, ◌*◌, Text, codes, Bool, true, false, ltb, ◌||◌, length, Option, none, some, List, [], ◌∷◌,
  if◌then◌else◌,
}
use platinum_gold_backend.Errors.{
  Exc, Detail, snapshot_load_error, validation_error, attribute_error, is_os_error,
  is_unicode_error, Outcome, ok, raised,
}
use platinum_gold_backend.Exec.{Exec, pure, raise, lift, try_except, try_finally, ◌>>=◌, ◌>>◌}
use platinum_gold_backend.Value.{Value}
use platinum_gold_backend.Core.Platform.{Platform}
use platinum_gold_backend.Ingestion.Schemas.{
  Checked, valid, invalid, crashed, ItemSnapshot, validate_snapshot,
}

abbrev pub max_snapshot_bytes : ℕ
max_snapshot_bytes = 5 * 1024 * 1024

-- `pathlib.Path`: the parts of an absolute path begin with its anchor.
pub record FilePath : Type 0 where
  pub is_absolute : Bool
  pub anchor : Text
  pub parts : List Text

-- `directory_flags` and `file_flags`
pub data Flags : Type 0 where
  directory_flags file_flags : Flags

-- The module `os`. `secure` says that it has O_DIRECTORY, O_NOFOLLOW and `dir_fd`; `os.open` takes the
-- directory that a path is relative to. `fdopen` makes a file of a descriptor, which then is read
-- and closed as `read_file` and `close_file` of that descriptor.
pub record Os (W : Type 0) : Type 0 where
  pub secure : Bool
  pub open_at : Text → Flags → Option ℕ → Exec W ℕ
  pub close : ℕ → Exec W Unit
  pub is_regular : ℕ → Exec W Bool
  pub fdopen : ℕ → Exec W Unit
  pub read_file : ℕ → ℕ → Exec W (List ℕ)
  pub close_file : ℕ → Exec W Unit

-- `bytes.decode("utf-8")`, `json.loads` (`none` where it raises RecursionError or ValueError), and
-- the errors that pydantic reports of a payload.
pub record Parser : Type 0 where
  pub decode_utf8 : List ℕ → Option Text
  pub loads : Text → Option Value
  pub errors : Value → List Detail

abbrev pub not_regular : Exc
not_regular = snapshot_load_error (codes "Snapshot path is not a regular file")

abbrev pub insecure : Exc
insecure = snapshot_load_error (codes "Secure snapshot opening is unavailable")

abbrev pub unreadable : Exc
unreadable = snapshot_load_error (codes "Unable to read snapshot")

abbrev pub too_large : Exc
too_large = snapshot_load_error (codes "Snapshot is too large")

abbrev pub invalid_json : Exc
invalid_json = snapshot_load_error (codes "Snapshot contains invalid JSON")

module _ (platform : Platform) (parser : Parser) where
  abbrev pub model_validate : Value → Outcome ItemSnapshot
  model_validate payload = elim (validate_snapshot platform payload) [
    | valid snapshot ↦ ok snapshot
    | invalid ↦ raised (validation_error (parser.errors payload))
    | crashed ↦ raised attribute_error
  ]

  abbrev pub parse_text : Option Text → Option Value
  parse_text none = none
  parse_text (some t) = parser.loads t

  abbrev pub validate_payload : Option Value → Outcome ItemSnapshot
  validate_payload none = raised invalid_json
  validate_payload (some payload) = model_validate payload

  -- the part of `load_snapshot` behind the read
  unfoldable pub parse_snapshot : List ℕ → Outcome ItemSnapshot
  parse_snapshot raw_content =
      if ltb max_snapshot_bytes (length raw_content)
      then raised too_large
      else validate_payload (parse_text (parser.decode_utf8 raw_content))

-- except (OSError, UnicodeError)
unfoldable pub is_read_failure : Exc → Bool
is_read_failure e = is_os_error e || is_unicode_error e

module _ {W : Type 0} (os : Os W) where
  -- The loop over the parts beside the local variable `directory_descriptor`, which the `finally`
  -- reads: the descriptor that is current when the loop is left comes back with the outcome.
  abbrev Walk : Type 0
  Walk = ℕ → W → (Outcome ℕ × ℕ) × W

  abbrev pub keep_directory : Exec W ℕ → Walk
  keep_directory m directory w = (((m w).0, directory), (m w).1)

  -- after `os.close(directory_descriptor)`, the next descriptor is the current one
  abbrev pub advance : ℕ → Walk → Outcome (Unit {0}) → Walk
  advance next rest (ok done) directory w = rest next w
  advance next rest (raised e) directory w = ((raised e, directory), w)

  -- after `os.open(part, directory_flags, dir_fd=directory_descriptor)`
  abbrev pub descend : Walk → Outcome ℕ → Walk
  descend rest (ok next) directory w =
      advance next rest (os.close directory w).0 directory (os.close directory w).1
  descend rest (raised e) directory w = ((raised e, directory), w)

  unfoldable pub open_parts : List Text → Walk
  open_parts [] directory w = ((raised not_regular, directory), w)
  open_parts (part ∷ []) directory w =
      keep_directory (os.open_at part file_flags (some directory)) directory w
  open_parts (part ∷ next ∷ rest) directory w =
      let opened = os.open_at part directory_flags (some directory) w in
      descend (open_parts (next ∷ rest)) opened.0 directory opened.1

  -- `try: … finally: os.close(directory_descriptor)`
  abbrev pub close_current : (Outcome ℕ × ℕ) × W → Outcome ℕ × W
  close_current ((r, directory), w) = (os.close directory >> lift r) w

  abbrev pub open_below : List Text → ℕ → Exec W ℕ
  open_below parts directory w = close_current (open_parts parts directory w)

  abbrev pub after_anchor : List Text → List Text
  after_anchor [] = []
  after_anchor (_ ∷ parts) = parts

  -- `_open_snapshot_descriptor`
  unfoldable pub open_snapshot_descriptor : FilePath → Exec W ℕ
  open_snapshot_descriptor path =
      if os.secure
      then if path.is_absolute
        then (do
          directory ← os.open_at path.anchor directory_flags none
          open_below (after_anchor path.parts) directory)
        else (do
          directory ← os.open_at (codes ".") directory_flags none
          open_below path.parts directory)
      else raise insecure

  -- `with snapshot_file: return snapshot_file.read(MAX_SNAPSHOT_BYTES + 1)`
  abbrev pub read_and_close : ℕ → Exec W (List ℕ)
  read_and_close descriptor =
      try_finally (os.read_file descriptor (max_snapshot_bytes + 1)) (os.close_file descriptor)

  -- The file owns the descriptor once `fdopen` has returned; before that, the `finally` closes it.
  abbrev pub hand_over : ℕ → Outcome (Unit {0}) → Exec W (List ℕ)
  hand_over descriptor (ok done) w = read_and_close descriptor w
  hand_over descriptor (raised e) w = (os.close descriptor >> raise e) w

  abbrev pub read_regular : ℕ → Outcome Bool → Exec W (List ℕ)
  read_regular descriptor (ok true) w =
      hand_over descriptor (os.fdopen descriptor w).0 (os.fdopen descriptor w).1
  read_regular descriptor (ok false) w = (os.close descriptor >> raise not_regular) w
  read_regular descriptor (raised e) w = (os.close descriptor >> raise e) w

  abbrev pub read_descriptor : ℕ → Exec W (List ℕ)
  read_descriptor descriptor w =
      read_regular descriptor (os.is_regular descriptor w).0 (os.is_regular descriptor w).1

  -- `_read_snapshot_bytes`
  unfoldable pub read_snapshot_bytes : FilePath → Exec W (List ℕ)
  read_snapshot_bytes path = do
    descriptor ← open_snapshot_descriptor path
    read_descriptor descriptor

  unfoldable pub load_snapshot : Platform → Parser → FilePath → Exec W ItemSnapshot
  load_snapshot platform parser path = do
    raw_content ← try_except (read_snapshot_bytes path) is_read_failure (λ e. raise unreadable)
    lift (parse_snapshot platform parser raw_content)
