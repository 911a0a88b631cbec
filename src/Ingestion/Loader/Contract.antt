-- ===== src/Ingestion/Loader/Contract.antt =====
-- What the loader relies on: how the calls of `os` change the descriptors that are open. A `close`
-- of an open descriptor returns.
use platinum_gold_backend.Prelude.{
  take, ℕ, Text, Bool, true, false, ◌||◌, ◌==◌, Option, List, [], ◌∷◌, ◌≡◌, if◌then◌else◌,
}
use platinum_gold_backend.Errors.{Exc, ok, raised}
use platinum_gold_backend.Ingestion.Loader.{Flags, Os}

abbrev pub mem : ℕ → List ℕ → Bool
mem d [] = false
mem d (c ∷ ds) = c == d || mem d ds

abbrev pub remove : ℕ → List ℕ → List ℕ
remove d [] = []
remove d (c ∷ ds) = let rest = remove d ds in if c == d then ds else c ∷ rest

pub record Descriptors {W : Type 0} (os : Os W) : Type 0 where
  pub opened : W → List ℕ
  -- a new descriptor is none of those that are open
  pub opened-open_at :
      (path : Text) (flags : Flags) (directory : Option ℕ) (w : W) (d : ℕ)
      → (os.open_at path flags directory w).0 ≡ ok d
      → (opened (os.open_at path flags directory w).1 ≡ d ∷ opened w) × (mem d (opened w) ≡ false)
  pub opened-open_raised :
      (path : Text) (flags : Flags) (directory : Option ℕ) (w : W) (e : Exc)
      → (os.open_at path flags directory w).0 ≡ raised e
      → opened (os.open_at path flags directory w).1 ≡ opened w
  pub opened-close :
      (d : ℕ) (w : W)
      → mem d (opened w) ≡ true
      → ((os.close d w).0 ≡ ok tt) × (opened (os.close d w).1 ≡ remove d (opened w))
  pub opened-close_file :
      (d : ℕ) (w : W)
      → mem d (opened w) ≡ true
      → ((os.close_file d w).0 ≡ ok tt) × (opened (os.close_file d w).1 ≡ remove d (opened w))
  pub opened-is_regular : (d : ℕ) (w : W) → opened (os.is_regular d w).1 ≡ opened w
  pub opened-fdopen : (d : ℕ) (w : W) → opened (os.fdopen d w).1 ≡ opened w
  pub opened-read_file : (d n : ℕ) (w : W) → opened (os.read_file d n w).1 ≡ opened w

-- `content w d` is what the file of the descriptor holds from its first byte on; a `read(n)` that
-- returns gives its first n bytes, or all of them if it has no more.
pub record Files {W : Type 0} (os : Os W) : Type 0 where
  pub content : W → ℕ → List ℕ
  pub read_file-ok :
      (d n : ℕ) (w : W) (bytes : List ℕ)
      → (os.read_file d n w).0 ≡ ok bytes
      → bytes ≡ take n (content w d)
