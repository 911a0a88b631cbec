-- ===== src/Prelude/Decimal.antt =====
-- Decimal numerals: `str(n)` and `int(s)` of Python, for natural numbers.
use Prim.Native.Nat.{ℕ, zero, suc, ◌+◌, ◌-◌, ◌*◌, ◌/◌, ◌%◌, ◌^◌, ◌≤◌, ◌<◌}
use mathlib.Core.Path.{◌≡◌, refl}
use mathlib.Core.Bool.{true}
use mathlib.Core.List.{[], ◌∷◌, ◌++◌}
use mathlib.Core.Logic.{inl, inr}
use native.Mathlib.Omega.{arith}
use native.Mathlib.Nat.{pow-suc}
use platinum_gold_backend.Prelude.Tests.{ltb, lt→ltb, if◌then◌else◌, Bool-cases}
use platinum_gold_backend.Prelude.Lists.{length, all, length-append, all-append}
use platinum_gold_backend.Prelude.Codes.{Text, is_digit, isdigit, isascii}
use platinum_gold_backend.Prelude.Int.{ℤ, pos, negsuc}

-- The digits of `n`, the lowest last; `f` bounds their number.
unfoldable pub digits_of : ℕ → ℕ → Text
digits_of zero n = []
digits_of (suc f) n =
    let front = digits_of f (n / 10) in
    if ltb n 10 then (b'0' + n) ∷ [] else front ++ (b'0' + n % 10) ∷ []

-- `str(n)`: a number below 10 ^ (n + 1) needs at most n + 1 digits.
unfoldable pub show : ℕ → Text
unfolding digits_of
show n = digits_of (suc n) n

-- The number that digits read, after a front part that read `acc`.
unfoldable pub read : ℕ → Text → ℕ
read acc [] = acc
read acc (c ∷ s) = read (acc * 10 + (c - b'0')) s

-- `str(n)` of a signed number
unfoldable pub show_int : ℤ → Text
show_int (pos n) = show n
show_int (negsuc n) = b'-' ∷ show (suc n)

show_tests : (show 0 ≡ b'0' ∷ []) × (show 120 ≡ b'1' ∷ b'2' ∷ b'0' ∷ [])
unfolding show
show_tests = (refl, refl)

pub read-append :
    (acc : ℕ) (s : Text) (c : ℕ) → read acc (s ++ c ∷ []) ≡ read acc s * 10 + (c - b'0')
unfolding read
read-append acc [] c = refl
read-append acc (d ∷ s) c = read-append (acc * 10 + (d - b'0')) s c

read-digits_of : (f n : ℕ) → n < f → read 0 (digits_of f n) ≡ n
unfolding digits_of read
read-digits_of zero n h = elim h [ ]
read-digits_of (suc f) n h = elim (Bool-cases (ltb n 10)) [
  | inl small ↦ rw small (omega arith)
  | inr large ↦
      rw large (rw read-append (rw (read-digits_of f (n / 10) (ground arith)) (omega arith)))
]

-- Reading what was printed gives the number back.
pub read-show : (n : ℕ) → read 0 (show n) ≡ n
unfolding show
read-show n = read-digits_of (suc n) n (omega arith)

digits_of-all : (f n : ℕ) → all is_digit (digits_of f n) ≡ true
unfolding digits_of
digits_of-all zero n = refl
digits_of-all (suc f) n = elim (Bool-cases (ltb n 10)) [
  | inl small ↦ rw small (ground arith)
  | inr large ↦
      rw large (rw all-append (rw (digits_of-all f (n / 10)) (ground (arith, last_digit n))))
]
  where
    last_digit : (m : ℕ) → is_digit (b'0' + m % 10) ≡ true
    last_digit m = ground arith

length-digits_of-pos : (f n : ℕ) → 1 ≤ length (digits_of (suc f) n)
unfolding digits_of
length-digits_of-pos f n = elim (Bool-cases (ltb n 10)) [
  | inl small ↦ rw small (omega arith)
  | inr large ↦ rw large (rw length-append (omega arith))
]

div-lt-pow : (n j : ℕ) → n < 10 ^ suc (suc j) → n / 10 < 10 ^ suc j
div-lt-pow n j h = omega (arith, pow-suc 10 (suc j))

length-digits_of : (f n k : ℕ) → n < 10 ^ suc k → length (digits_of f n) ≤ suc k
unfolding digits_of
length-digits_of zero n k h = omega arith
length-digits_of (suc f) n zero h = rw (lt→ltb n 10 (omega arith)) (omega arith)
length-digits_of (suc f) n (suc j) h = elim (Bool-cases (ltb n 10)) [
  | inl small ↦ rw small (omega arith)
  | inr large ↦
      rw large (rw length-append (omega (arith, length-digits_of f (n / 10) j (div-lt-pow n j h))))
]

-- A number below 10 ^ k has at most k digits.
pub length-show : (n k : ℕ) → n < 10 ^ suc k → length (show n) ≤ suc k
unfolding show
length-show n k h = length-digits_of (suc n) n k h

isdigit_of : (s : Text) → 1 ≤ length s → all is_digit s ≡ true → isdigit s ≡ true
isdigit_of [] h d = absurd (omega arith)
isdigit_of (c ∷ s) h d = d

pub isdigit-show : (n : ℕ) → isdigit (show n) ≡ true
unfolding show
isdigit-show n =
    isdigit_of (digits_of (suc n) n) (length-digits_of-pos n n) (digits_of-all (suc n) n)

isascii_of : (s : Text) → all is_digit s ≡ true → isascii s ≡ true
isascii_of [] d = refl
isascii_of (c ∷ s) d = ground (arith, isascii_of s)

pub all-show : (n : ℕ) → all is_digit (show n) ≡ true
unfolding show
all-show n = digits_of-all (suc n) n

pub isascii-show : (n : ℕ) → isascii (show n) ≡ true
isascii-show n = isascii_of (show n) (all-show n)
