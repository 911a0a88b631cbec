-- ===== src/Ingestion/Loader/Descriptors.antt =====
-- No descriptor is left open, however the loading of a snapshot ends.
use platinum_gold_backend.Prelude.{
  ℕ, ◌+◌, Text, codes, Bool, true, false, none, some, List, [], ◌∷◌, ◌≡◌, refl, ◌∙◌, arith,
  Bool-cases, inl, inr, if◌then◌else◌,
}
use platinum_gold_backend.Errors.{Exc, Outcome, ok, raised}
use platinum_gold_backend.Exec.{Exec, raise, lift, ◌>>=◌, ◌>>◌, Outcome-cases}
use platinum_gold_backend.Core.Platform.{Platform}
use platinum_gold_backend.Ingestion.Loader.{
  insecure, not_regular, max_snapshot_bytes, after_anchor, FilePath, directory_flags, file_flags,
  Os, Parser, keep_directory, open_parts, close_current, open_below, open_snapshot_descriptor,
  read_and_close, hand_over, read_regular, read_descriptor, read_snapshot_bytes, is_read_failure,
  load_snapshot,
}
use platinum_gold_backend.Ingestion.Loader.Contract.{mem, remove, Descriptors}

mem_first : (d : ℕ) (ds : List ℕ) → mem d (d ∷ ds) ≡ true
mem_first d ds = ground arith

remove_first : (d : ℕ) (ds : List ℕ) → remove d (d ∷ ds) ≡ ds
remove_first d ds = ground arith

mem_second : (n d : ℕ) (ds : List ℕ) → mem d (n ∷ d ∷ ds) ≡ true
mem_second n d ds = ground arith

remove_second : (n d : ℕ) (ds : List ℕ) → mem n (d ∷ ds) ≡ false → remove d (n ∷ d ∷ ds) ≡ n ∷ ds
remove_second n d ds h = ground arith

mem_rest : (n d : ℕ) (ds : List ℕ) → mem n (d ∷ ds) ≡ false → mem n ds ≡ false
mem_rest n d ds h = ground arith

module _ {W : Type 0} (os : Os W) (contract : Descriptors os) where
  open contract use {opened}

  close_top :
      (d : ℕ) (ds : List ℕ) (w : W)
      → opened w ≡ d ∷ ds
      → ((os.close d w).0 ≡ ok tt) × (opened (os.close d w).1 ≡ ds)
  close_top d ds w e =
      let (done, left) = contract.opened-close d w (rw e (mem_first d ds)) in
      (done, left ∙ rw e (remove_first d ds))

  close_under :
      (n d : ℕ) (ds : List ℕ) (w : W)
      → opened w ≡ n ∷ d ∷ ds
      → mem n (d ∷ ds) ≡ false
      → ((os.close d w).0 ≡ ok tt) × (opened (os.close d w).1 ≡ n ∷ ds)
  close_under n d ds w e new =
      let (done, left) = contract.opened-close d w (rw e (mem_second n d ds)) in
      (done, left ∙ rw e (remove_second n d ds new))

  -- What a walk that began with the descriptors `ds` leaves open: its current directory, and the
  -- file if it returned one.
  abbrev Walked : List ℕ → (Outcome ℕ × ℕ) × W → Type 0
  Walked ds ((ok file, directory), w) =
      (opened w ≡ file ∷ directory ∷ ds) × (mem file (directory ∷ ds) ≡ false)
  Walked ds ((raised e, directory), w) = opened w ≡ directory ∷ ds

  -- What a call leaves open that opens at most the descriptor that it returns.
  abbrev Opens : List ℕ → Outcome ℕ × W → Type 0
  Opens ds (ok file, w) = opened w ≡ file ∷ ds
  Opens ds (raised e, w) = opened w ≡ ds

  keep_directory-Walked :
      (part : Text) (directory : ℕ) (ds : List ℕ) (w : W)
      → opened w ≡ directory ∷ ds
      → Walked ds (keep_directory os (os.open_at part file_flags (some directory)) directory w)
  keep_directory-Walked part directory ds w e =
      elim (Outcome-cases (os.open_at part file_flags (some directory) w).0) [
        | inl (file, o) ↦
            let (now, new) = contract.opened-open_at part file_flags (some directory) w file o in
            rw o (rw e at now, rw e at new)
        | inr (x, o) ↦ rw o (contract.opened-open_raised part file_flags (some directory) w x o ∙ e)
      ]

  open_parts-Walked :
      (parts : List Text) (directory : ℕ) (ds : List ℕ) (w : W)
      → opened w ≡ directory ∷ ds
      → Walked ds (open_parts os parts directory w)
  unfolding open_parts
  open_parts-Walked [] directory ds w e = e
  open_parts-Walked (part ∷ []) directory ds w e = keep_directory-Walked part directory ds w e
  open_parts-Walked (part ∷ next ∷ rest) directory ds w e =
      let call = os.open_at part directory_flags (some directory) in
      elim (Outcome-cases (call w).0) [
        | inl (n, o) ↦
            let (now, new) = contract.opened-open_at part directory_flags (some directory) w n o in
            let (done, left) = close_under n directory ds (call w).1 (rw e at now) (rw e at new) in
            rw o (
              rw done (open_parts-Walked (next ∷ rest) n ds (os.close directory (call w).1).1 left))
        | inr (x, o) ↦
            rw o (contract.opened-open_raised part directory_flags (some directory) w x o ∙ e)
      ]

  close_current-Opens :
      (ds : List ℕ) (r : (Outcome ℕ × ℕ) × W) → Walked ds r → Opens ds (close_current os r)
  close_current-Opens ds ((ok file, directory), w) (e, new) =
      let (done, left) = close_under file directory ds w e new in rw done left
  close_current-Opens ds ((raised x, directory), w) e =
      let (done, left) = close_top directory ds w e in rw done left

  open_below-Opens :
      (parts : List Text) (directory : ℕ) (ds : List ℕ) (w : W)
      → opened w ≡ directory ∷ ds
      → Opens ds (open_below os parts directory w)
  open_below-Opens parts directory ds w e =
      close_current-Opens ds (open_parts os parts directory w)
        (open_parts-Walked parts directory ds w e)

  from_root :
      (path : Text) (parts : List Text) (w : W)
      → Opens (opened w) ((os.open_at path directory_flags none >>= open_below os parts) w)
  from_root path parts w = elim (Outcome-cases (os.open_at path directory_flags none w).0) [
    | inl (d, o) ↦ rw o (
        open_below-Opens parts d (opened w) _
          (contract.opened-open_at path directory_flags none w d o).0)
    | inr (x, o) ↦ rw o (contract.opened-open_raised path directory_flags none w x o)
  ]

  Opens-if :
      (b : Bool) (m n : Exec W ℕ) (w : W)
      → Opens (opened w) (m w)
      → Opens (opened w) (n w)
      → Opens (opened w) ((if b then m else n) w)
  Opens-if true m n w hm hn = hm
  Opens-if false m n w hm hn = hn

  open_snapshot_descriptor-Opens :
      (path : FilePath) (w : W) → Opens (opened w) (open_snapshot_descriptor os path w)
  unfolding open_snapshot_descriptor
  open_snapshot_descriptor-Opens path w =
      Opens-if os.secure _ (raise insecure) w
        (Opens-if path.is_absolute
          (os.open_at path.anchor directory_flags none
            >>= open_below os (after_anchor os path.parts))
          (os.open_at (codes ".") directory_flags none >>= open_below os path.parts) w
          (from_root path.anchor _ w) (from_root _ path.parts w))
        refl

  close_file-closes :
      (d : ℕ) (ds : List ℕ) (w : W)
      → opened w ≡ d ∷ ds
      → ((os.close_file d w).0 ≡ ok tt) × (opened (os.close_file d w).1 ≡ ds)
  close_file-closes d ds w e =
      let (done, left) = contract.opened-close_file d w (rw e (mem_first d ds)) in
      (done, left ∙ rw e (remove_first d ds))

  close-closes :
      (d : ℕ) (ds : List ℕ) (x : Exc) (w : W)
      → opened w ≡ d ∷ ds
      → opened ((os.close d >> raise {A = List ℕ} x) w).1 ≡ ds
  close-closes d ds x w e = let (done, left) = close_top d ds w e in rw done left

  read_and_close-closes :
      (d : ℕ) (ds : List ℕ) (w : W) → opened w ≡ d ∷ ds → opened (read_and_close os d w).1 ≡ ds
  read_and_close-closes d ds w e =
      let w1 = (os.read_file d (max_snapshot_bytes + 1) w).1 in
      let (done, left) =
        close_file-closes d ds w1 (contract.opened-read_file d (max_snapshot_bytes + 1) w ∙ e) in
      rw done left

  hand_over-closes :
      (d : ℕ) (ds : List ℕ) (r : Outcome Unit) (w : W)
      → opened w ≡ d ∷ ds
      → opened (hand_over os d r w).1 ≡ ds
  hand_over-closes d ds (ok done) w e = read_and_close-closes d ds w e
  hand_over-closes d ds (raised x) w e = close-closes d ds x w e

  read_regular-closes :
      (d : ℕ) (ds : List ℕ) (r : Outcome Bool) (w : W)
      → opened w ≡ d ∷ ds
      → opened (read_regular os d r w).1 ≡ ds
  read_regular-closes d ds (ok true) w e =
      hand_over-closes d ds (os.fdopen d w).0 (os.fdopen d w).1 (contract.opened-fdopen d w ∙ e)
  read_regular-closes d ds (ok false) w e = close-closes d ds not_regular w e
  read_regular-closes d ds (raised x) w e = close-closes d ds x w e

  after_open-closes :
      (ds : List ℕ) (r : Outcome ℕ × W)
      → Opens ds r
      → opened ((lift r.0 >>= read_descriptor os) r.1).1 ≡ ds
  after_open-closes ds (ok d, w) e =
      read_regular-closes d ds (os.is_regular d w).0 (os.is_regular d w).1
        (contract.opened-is_regular d w ∙ e)
  after_open-closes ds (raised x, w) e = e

  read_snapshot_bytes-closes :
      (path : FilePath) (w : W) → opened (read_snapshot_bytes os path w).1 ≡ opened w
  unfolding read_snapshot_bytes
  read_snapshot_bytes-closes path w =
      after_open-closes (opened w) (open_snapshot_descriptor os path w)
        (open_snapshot_descriptor-Opens path w)

  -- Whatever `load_snapshot` returns or raises, the descriptors that are open afterwards are those
  -- that were open before: each one that it opened is closed.
  pub opened-load_snapshot :
      (platform : Platform) (parser : Parser) (path : FilePath) (w : W)
      → opened (load_snapshot os platform parser path w).1 ≡ opened w
  unfolding load_snapshot
  opened-load_snapshot platform parser path w =
      elim (Outcome-cases (read_snapshot_bytes os path w).0) [
        | inl (raw, e) ↦ rw e (read_snapshot_bytes-closes path w)
        | inr (x, e) ↦ elim (Bool-cases (is_read_failure x)) [
          | inl caught ↦ rw (e, caught) (read_snapshot_bytes-closes path w)
          | inr passed ↦ rw (e, passed) (read_snapshot_bytes-closes path w)
        ]
      ]
