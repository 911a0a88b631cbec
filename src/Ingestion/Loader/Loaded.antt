-- ===== src/Ingestion/Loader/Loaded.antt =====
-- What a snapshot that `load_snapshot` returns was made of.
use platinum_gold_backend.Prelude.{
  Text, Bool, true, false, ◌+◌, take, take_all, length-take, ap, sym, ◌∙◌, ℕ, ◌≤◌, ltb, length,
  Option, none, some, List, ◌≡◌, refl, arith, Bool-cases, inl, inr,
}
use platinum_gold_backend.Errors.{Outcome, ok, raised}
use platinum_gold_backend.Exec.{
  try_finally-eq-ok, Exec, raise, lift, >>=-eq-ok, try_except, try_except-eq-ok,
}
use platinum_gold_backend.Value.{Value}
use platinum_gold_backend.Core.Platform.{Platform}
use platinum_gold_backend.Ingestion.Schemas.{valid, ItemSnapshot, validate_snapshot}
use platinum_gold_backend.Ingestion.Schemas.Accepted.{IsSnapshot, validate_snapshot-IsSnapshot}
use platinum_gold_backend.Ingestion.Loader.Contract.{Files}
use platinum_gold_backend.Ingestion.Loader.{
  open_snapshot_descriptor, hand_over, read_regular, read_descriptor, not_regular,
  max_snapshot_bytes, FilePath, Os, Parser, unreadable, read_snapshot_bytes, model_validate,
  parse_text, validate_payload, parse_snapshot, is_read_failure, load_snapshot,
}

-- What was read with one byte more than the bound, and is within it, is all there is.
whole :
    (n : ℕ) (bytes content : List ℕ)
    → bytes ≡ take (n + 1) content
    → length bytes ≤ n
    → (length content ≤ n) × (bytes ≡ content)
whole n bytes content e h =
    let short : length content ≤ n = omega (arith, ap length e, length-take (n + 1) content, h) in
    (short, e ∙ take_all (n + 1) content (omega (arith, short)))

module _ {W : Type 0} (os : Os W) (files : Files os) (platform : Platform) (parser : Parser) where
  -- The path was opened as a regular file, and when it is read, the file holds UTF-8 text of at most
  -- 5 MiB, which is JSON of a valid snapshot.
  pub record IsLoaded (path : FilePath) (w : W) (snapshot : ItemSnapshot) : Type 0 where
    pub descriptor : ℕ
    pub opened : (open_snapshot_descriptor os path w).0 ≡ ok descriptor
    pub regular : (os.is_regular descriptor (open_snapshot_descriptor os path w).1).0 ≡ ok true
    pub reading : W
    pub is_reading :
        reading
        ≡ (os.fdopen descriptor
            (os.is_regular descriptor (open_snapshot_descriptor os path w).1).1).1
    pub small : length (files.content reading descriptor) ≤ 5242880
    pub text : Text
    pub decoded : parser.decode_utf8 (files.content reading descriptor) ≡ some text
    pub payload : Value
    pub parsed : parser.loads text ≡ some payload
    pub validated : validate_snapshot platform payload ≡ valid snapshot
    pub sound : IsSnapshot platform snapshot

  model_validate-ok :
      (payload : Value) (snapshot : ItemSnapshot)
      → model_validate platform parser payload ≡ ok snapshot
      → validate_snapshot platform payload ≡ valid snapshot
  model_validate-ok payload snapshot h = ground arith

  validate_payload-ok :
      (o : Option Value) (snapshot : ItemSnapshot)
      → validate_payload platform parser o ≡ ok snapshot
      → (payload : Value) × (o ≡ some payload)
        × (validate_snapshot platform payload ≡ valid snapshot)
  validate_payload-ok none snapshot h = absurd (ground arith)
  validate_payload-ok (some payload) snapshot h =
      (payload, refl, model_validate-ok payload snapshot h)

  parse_snapshot-ok :
      (raw_content : List ℕ) (snapshot : ItemSnapshot)
      → parse_snapshot platform parser raw_content ≡ ok snapshot
      → (length raw_content ≤ max_snapshot_bytes)
        × ((payload : Value) × (parse_text platform parser (parser.decode_utf8 raw_content)
              ≡ some payload)
            × (validate_snapshot platform payload ≡ valid snapshot))
  unfolding parse_snapshot
  parse_snapshot-ok raw_content snapshot h =
      elim (Bool-cases (ltb max_snapshot_bytes (length raw_content))) [
        | inl large ↦ absurd (ground arith)
        | inr small ↦ (ground arith, validate_payload-ok _ snapshot (rw small at h))
      ]

  parse_text-some :
      (o : Option Text) (payload : Value)
      → parse_text platform parser o ≡ some payload
      → (t : Text) × (o ≡ some t) × (parser.loads t ≡ some payload)
  parse_text-some none payload h = cc
  parse_text-some (some t) payload h = (t, refl, h)

  hand_over-ok :
      (d : ℕ) (r : Outcome (Unit {0})) (w : W) (bytes : List ℕ)
      → (hand_over os d r w).0 ≡ ok bytes
      → (os.read_file d (max_snapshot_bytes + 1) w).0 ≡ ok bytes
  hand_over-ok d (ok _) w bytes h =
      try_finally-eq-ok (os.read_file d (max_snapshot_bytes + 1)) (os.close_file d) w bytes h
  hand_over-ok d (raised e) w bytes h =
      let (_, _, never) = >>=-eq-ok (os.close d) (λ _. raise {A = List ℕ} e) w h in cc

  read_regular-ok :
      (d : ℕ) (r : Outcome Bool) (w : W) (bytes : List ℕ)
      → (read_regular os d r w).0 ≡ ok bytes
      → (r ≡ ok true) × ((os.read_file d (max_snapshot_bytes + 1) (os.fdopen d w).1).0 ≡ ok bytes)
  read_regular-ok d (ok true) w bytes h =
      (refl, hand_over-ok d (os.fdopen d w).0 (os.fdopen d w).1 bytes h)
  read_regular-ok d (ok false) w bytes h =
      let (_, _, never) = >>=-eq-ok (os.close d) (λ _. raise {A = List ℕ} not_regular) w h in cc
  read_regular-ok d (raised e) w bytes h =
      let (_, _, never) = >>=-eq-ok (os.close d) (λ _. raise {A = List ℕ} e) w h in cc

  -- If `load_snapshot` returns a snapshot, then the path was opened as a regular file, the whole file
  -- has at most 5 MiB, it is UTF-8 JSON of this snapshot, and the snapshot is sound.
  pub load_snapshot-IsLoaded :
      (path : FilePath) (w : W) (snapshot : ItemSnapshot)
      → (load_snapshot os platform parser path w).0 ≡ ok snapshot
      → IsLoaded path w snapshot
  unfolding load_snapshot read_snapshot_bytes
  load_snapshot-IsLoaded path w snapshot h =
      let read : Exec W (List ℕ) =
        try_except (read_snapshot_bytes os path) is_read_failure (λ e. raise unreadable) in
      let (raw, e, rest) = >>=-eq-ok read (λ raw. lift (parse_snapshot platform parser raw)) w h in
      let bytes_read =
        try_except-eq-ok (read_snapshot_bytes os path) is_read_failure (λ e. unreadable) w raw e in
      let (d, opened, inner) =
        >>=-eq-ok (open_snapshot_descriptor os path) (read_descriptor os) w bytes_read in
      let w1 = (open_snapshot_descriptor os path w).1 in
      let (regular, reads) =
        read_regular-ok d (os.is_regular d w1).0 (os.is_regular d w1).1 raw inner in
      let reading = (os.fdopen d (os.is_regular d w1).1).1 in
      let (few, (payload, parsed, validated)) = parse_snapshot-ok raw snapshot rest in
      let (small, same) =
        whole max_snapshot_bytes raw (files.content reading d)
          (files.read_file-ok d (max_snapshot_bytes + 1) reading raw reads) few in
      let (t, decoded, loads) = parse_text-some (parser.decode_utf8 raw) payload parsed in
      record {
        descriptor = d;
        opened = opened;
        regular = regular;
        reading = reading;
        is_reading = refl;
        small = small;
        text = t;
        decoded = ap parser.decode_utf8 (sym same) ∙ decoded;
        payload = payload;
        parsed = loads;
        validated = validated;
        sound = validate_snapshot-IsSnapshot platform payload snapshot validated;
      }
