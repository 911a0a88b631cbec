-- ===== src/Items/Cache/Generation/Parsing.antt =====
-- `_parse_generation`: which pointers are accepted, and in which form they are returned.
use platinum_gold_backend.Prelude.{ℕ, ◌≤◌, Text, isascii, some, ◌≡◌, arith, Bool-cases, inl, inr}
use platinum_gold_backend.Prelude.Decimal.{
  show, read, read-show, isascii-show, isdigit-show, length-show,
}
use platinum_gold_backend.Items.Cache.Client.{max_generation, Reply, bytes, text}
use platinum_gold_backend.Items.Cache.Generation.{parse_text, parse_generation}

-- What an accepted pointer is: the decimal numeral, with no leading zero, of a number that
-- Redis can hold in a signed 64-bit integer.
pub record IsGeneration (g : Text) : Type 0 where
  pub number : ℕ
  pub within : number ≤ max_generation
  pub canonical : g ≡ show number

parse_text-IsGeneration : (t g : Text) → parse_text t ≡ some g → IsGeneration g
unfolding parse_text
parse_text-IsGeneration t g h = record {
  number = read 0 t;
  within = ground arith;
  canonical = ground arith;
}

-- A pointer that is accepted is returned as the canonical numeral of a signed 64-bit number.
pub parse_generation-IsGeneration :
    (reply : Reply) (g : Text) → parse_generation reply ≡ some g → IsGeneration g
unfolding parse_generation
parse_generation-IsGeneration (bytes b) g h = elim (Bool-cases (isascii b)) [
  | inl ascii ↦ parse_text-IsGeneration b g (rw ascii at h)
  | inr other ↦ ground arith
]
parse_generation-IsGeneration (text t) g h = parse_text-IsGeneration t g h

parse_text-show : (n : ℕ) → n ≤ max_generation → parse_text (show n) ≡ some (show n)
unfolding parse_text
parse_text-show n h =
    ground (arith, isascii-show n, isdigit-show n, length-show n 18 (omega arith), read-show n)

-- A numeral in range is accepted as it stands, as bytes and as text.
pub parse_generation-show :
    (n : ℕ)
    → n ≤ max_generation
    → (parse_generation (bytes (show n)) ≡ some (show n))
      × (parse_generation (text (show n)) ≡ some (show n))
unfolding parse_generation
parse_generation-show n h = (rw isascii-show (parse_text-show n h), parse_text-show n h)
