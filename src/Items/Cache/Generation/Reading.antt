-- ===== src/Items/Cache/Generation/Reading.antt =====
-- `_generation` answers only with a valid pointer.
use platinum_gold_backend.Prelude.{Text, ◌≡◌, refl, ℤ, pos, negsuc, Option, none, some, arith}
use platinum_gold_backend.Prelude.Decimal.{show_int, read-show}
use platinum_gold_backend.Exec.Returns.{
  Returns, Returns-pure, Returns-effect, Returns-raise, Returns-if, Returns-then,
}
use platinum_gold_backend.Errors.{ok}
use platinum_gold_backend.Core.Log.{Logger}
use platinum_gold_backend.Items.Cache.Client.{Reply, text, RedisItemCache}
use platinum_gold_backend.Items.Cache.Generation.{
  parse_text, parse_generation, is_blank, read_generation, create_generation, generation, checked,
  checked_option, store_candidate, reread, from_reply,
}
use platinum_gold_backend.Items.Cache.Generation.Parsing.{
  IsGeneration, parse_generation-IsGeneration,
}

-- nothing, or a valid pointer
abbrev pub IsPointer : Option Text → Type 0
IsPointer none = Unit
IsPointer (some g) = IsGeneration g

-- The numeral of an accepted candidate is the candidate itself.
show_int-IsGeneration :
    (n : ℤ) (g : Text) → parse_generation (text (show_int n)) ≡ some g → IsGeneration (show_int n)
unfolding parse_generation parse_text show_int
show_int-IsGeneration (pos n) g h = record {
  number = n;
  within = ground (arith, read-show n);
  canonical = refl;
}
show_int-IsGeneration (negsuc n) g h = ground arith

module _ {W : Type 0} (logger : Logger W) (cache : RedisItemCache W) where
  checked-IsPointer : (reply : Reply) → Returns IsPointer (checked logger cache reply)
  checked-IsPointer reply = go (parse_generation reply) refl
    where
      go :
          (o : Option Text)
          → parse_generation reply ≡ o
          → Returns IsPointer (checked_option logger cache o)
      go none e = Returns-effect _ none tt
      go (some g) e = Returns-pure (some g) (parse_generation-IsGeneration reply g e)

  reread-IsPointer : (o : Option Reply) → Returns IsPointer (reread logger cache o)
  reread-IsPointer none = Returns-pure none tt
  reread-IsPointer (some reply) =
      Returns-if (is_blank reply) _ _ (λ e. Returns-pure none tt) (λ e. checked-IsPointer reply)

  store_candidate-IsPointer :
      (n : ℤ) (o : Option Text)
      → parse_generation (text (show_int n)) ≡ o
      → Returns IsPointer (store_candidate logger cache (show_int n) o)
  store_candidate-IsPointer n none e = Returns-raise _
  store_candidate-IsPointer n (some g) e = Returns-then _ _ λ stored.
      Returns-if stored _ _ (λ won. Returns-pure (some (show_int n)) (show_int-IsGeneration n g e))
        (λ lost. Returns-then (read_generation logger cache) _ reread-IsPointer)

  create_generation-IsPointer : Returns IsPointer (create_generation logger cache)
  unfolding create_generation
  create_generation-IsPointer =
      Returns-then cache.generation_factory _ λ n. store_candidate-IsPointer n _ refl

  from_reply-IsPointer : (o : Option Reply) → Returns IsPointer (from_reply logger cache o)
  from_reply-IsPointer none = Returns-pure none tt
  from_reply-IsPointer (some reply) =
      Returns-if (is_blank reply) _ _ (λ e. create_generation-IsPointer)
        (λ e. checked-IsPointer reply)

  generation-IsPointer : Returns IsPointer (generation logger cache)
  unfolding generation
  generation-IsPointer = Returns-then (read_generation logger cache) _ from_reply-IsPointer

  -- Whatever Redis and the generation factory answer, a generation that `_generation` returns is
  -- the canonical numeral of a number that fits a signed 64-bit integer.
  pub generation-IsGeneration :
      (w : W) (g : Text) → (generation logger cache w).0 ≡ ok (some g) → IsGeneration g
  generation-IsGeneration w g h = generation-IsPointer.at w (some g) h
