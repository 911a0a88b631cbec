-- ===== src/Core/Config/DatabaseUrl/CacheSize.antt =====
-- The test of the size of the prepared statement cache, which the source does on the digits.
use platinum_gold_backend.Prelude.{
  Text, Bool, leb, ◌&&◌, isascii, isdigit, length, [], ◌∷◌, ◌≡◌, refl, arith,
}
use platinum_gold_backend.Prelude.Decimal.{read}
use platinum_gold_backend.Core.Config.DatabaseUrl.{cache_size_ok}

-- the test by the value of the numeral
abbrev pub is_small_numeral : Text → Bool
is_small_numeral v = leb (length v) 4 && (isascii v && (isdigit v && leb (read 0 v) 1000))

-- A value is accepted exactly if it is an ASCII numeral of at most four digits, leading zeros
-- included, whose number is at most 1000.
pub cache_size_ok-is_small_numeral : (v : Text) → cache_size_ok v ≡ is_small_numeral v
unfolding cache_size_ok read
cache_size_ok-is_small_numeral [] = refl
cache_size_ok-is_small_numeral (a ∷ []) = ground arith
cache_size_ok-is_small_numeral (a ∷ b ∷ []) = ground arith
cache_size_ok-is_small_numeral (a ∷ b ∷ c ∷ []) = ground arith
cache_size_ok-is_small_numeral (a ∷ b ∷ c ∷ d ∷ []) = ground arith
cache_size_ok-is_small_numeral (a ∷ b ∷ c ∷ d ∷ e ∷ s) = ground arith
