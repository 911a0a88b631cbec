-- ===== src/Ingestion/Repository/Batches.antt =====
-- The batches are the items in order, none of them empty or too long.
use platinum_gold_backend.Prelude.{
  ℕ, zero, suc, ◌+◌, ◌*◌, ◌≤◌, length, take, drop, length-take, length-drop, take-append-drop,
  flatten, All, List, [], ◌∷◌, ◌++◌, ◌≡◌, refl, ap, ◌∙◌, arith,
}
use platinum_gold_backend.Ingestion.Repository.{item_batch_size, batches, rounds_of}

abbrev pub IsBatch {ℓ} : {A : Type ℓ} → List A → Type 0
IsBatch xs = (1 ≤ length xs) × (length xs ≤ item_batch_size)

flatten-batches {ℓ} :
    {A : Type ℓ} (k : ℕ) (xs : List A)
    → length xs ≤ k * item_batch_size
    → flatten (batches k xs) ≡ xs
unfolding batches
flatten-batches zero [] h = refl
flatten-batches zero (x ∷ xs) h = absurd (omega arith)
flatten-batches (suc k) xs h =
    ap (λ rest. take item_batch_size xs ++ rest)
      (flatten-batches k (drop item_batch_size xs) (omega (arith, length-drop item_batch_size xs)))
    ∙ take-append-drop item_batch_size xs

All-batches {ℓ} :
    {A : Type ℓ} (k : ℕ) (xs : List A)
    → k * item_batch_size ≤ length xs + 999
    → All IsBatch (batches k xs)
unfolding batches
All-batches zero xs h = tt
All-batches (suc k) xs h = (
  (omega (arith, length-take item_batch_size xs), omega (arith, length-take item_batch_size xs)),
  All-batches k (drop item_batch_size xs) (omega (arith, length-drop item_batch_size xs)),
)

-- The batches of `range(0, len(items), 1000)` are the items, each once and in order, and each
-- batch has 1 to 1000 of them.
pub batches-flatten {ℓ} :
    {A : Type ℓ} (items : List A)
    → (flatten (batches (rounds_of (length items)) items) ≡ items)
      × All IsBatch (batches (rounds_of (length items)) items)
unfolding rounds_of
batches-flatten items = (flatten-batches _ items (omega arith), All-batches _ items (omega arith))
