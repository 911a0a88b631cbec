-- ===== src/Items/Cache/Keys.antt =====
-- The keys of the cache: a key determines its generation and its suffix.
use platinum_gold_backend.Prelude.{
  ℕ, zero, suc, Text, true, is_digit, all, [], ◌∷◌, ◌++◌, ◌≡◌, ◌≢◌, refl, ap, arith,
}
use platinum_gold_backend.Prelude.Decimal.{show, all-show, read-show, read}
use platinum_gold_backend.Items.Cache.Client.{cache_generation_key}
use platinum_gold_backend.Items.Cache.Generation.Parsing.{IsGeneration}
use platinum_gold_backend.Items.Cache.Redis.{key}

-- Digits before a ':' are read off uniquely.
split_at_colon :
    (g h s t : Text)
    → all is_digit g ≡ true
    → all is_digit h ≡ true
    → g ++ (b':' ∷ s) ≡ h ++ (b':' ∷ t)
    → (g ≡ h) × (s ≡ t)
split_at_colon [] [] s t dg dh e = (refl, cc)
split_at_colon [] (c ∷ h) s t dg dh e = absurd (ground arith)
split_at_colon (c ∷ g) [] s t dg dh e = absurd (ground arith)
split_at_colon (c ∷ g) (d ∷ h) s t dg dh e =
    let (a, b) = split_at_colon g h s t (ground arith) (ground arith) (cc) in (cc, b)

IsGeneration-digits : (g : Text) → IsGeneration g → all is_digit g ≡ true
IsGeneration-digits g v = rw v.canonical (all-show v.number)

-- Two valid generations and two suffixes give one key only if they are the same.
pub key-injective :
    (g h s t : Text) → IsGeneration g → IsGeneration h → key g s ≡ key h t → (g ≡ h) × (s ≡ t)
unfolding key
key-injective g h s t vg vh e =
    split_at_colon g h s t (IsGeneration-digits g vg) (IsGeneration-digits h vh) (cc)

abbrev char_or : ℕ → Text → ℕ
char_or n [] = 0
char_or zero (c ∷ s) = c
char_or (suc n) (c ∷ s) = char_or n s

-- No entry is stored under the key of the generation pointer.
pub key-ne-cache_generation_key : (g s : Text) → key g s ≢ cache_generation_key
unfolding key
key-ne-cache_generation_key g s e = omega (arith, ap (char_or 6) e)

pub show-injective : (n m : ℕ) → show n ≡ show m → n ≡ m
show-injective n m e = cc (read-show n, read-show m, ap (read 0) e)
