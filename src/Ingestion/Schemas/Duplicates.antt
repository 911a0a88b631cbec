-- ===== src/Ingestion/Schemas/Duplicates.antt =====
-- `len(game_ids) != len(set(game_ids))` is a test for a repeated number.
use platinum_gold_backend.Prelude.{
  suc, ◌≤◌, ℤ, eqℤ, eqℤ-eq, true, false, ◌||◌, length, List, [], ◌∷◌, ◌≡◌, refl, arith, Bool-cases,
  inl, inr, ap,
}
use platinum_gold_backend.Ingestion.Schemas.{mem_int, set_of}

-- No number stands twice.
abbrev pub Distinct : List ℤ → Type 0
Distinct [] = Unit
Distinct (n ∷ ns) = (mem_int n ns ≡ false) × Distinct ns

known : (k j : ℤ) (l : List ℤ) → mem_int j l ≡ true → mem_int k l ≡ (eqℤ k j || mem_int k l)
known k j l h = elim (Bool-cases (eqℤ k j)) [
  | inl same ↦ rw same (rw (eqℤ-eq k j same) h)
  | inr other ↦ rw other
]

mem_int-set_of : (m : ℤ) (ns : List ℤ) → mem_int m (set_of ns) ≡ mem_int m ns
unfolding set_of
mem_int-set_of m [] = refl
mem_int-set_of m (n ∷ ns) = elim (Bool-cases (mem_int n (set_of ns))) [
  | inl old ↦ rw old (rw (mem_int-set_of m ns) (known m n ns (rw (← mem_int-set_of n ns) old)))
  | inr new ↦ rw new (rw (mem_int-set_of m ns))
]

length-set_of : (ns : List ℤ) → length (set_of ns) ≤ length ns
unfolding set_of
length-set_of [] = omega arith
length-set_of (n ∷ ns) = ground (arith, length-set_of ns)

pub Distinct-of_length : (ns : List ℤ) → length ns ≡ length (set_of ns) → Distinct ns
unfolding set_of
Distinct-of_length [] h = tt
Distinct-of_length (n ∷ ns) h = elim (Bool-cases (mem_int n (set_of ns))) [
  | inl old ↦ absurd (omega (arith, length-set_of ns, rw old at h))
  | inr new ↦ (rw (← mem_int-set_of n ns) new, Distinct-of_length ns (omega (arith, rw new at h)))
]

pub length_of_Distinct : (ns : List ℤ) → Distinct ns → length ns ≡ length (set_of ns)
unfolding set_of
length_of_Distinct [] h = refl
length_of_Distinct (n ∷ ns) (new, rest) =
    rw (mem_int-set_of n ns) (rw new (ap suc (length_of_Distinct ns rest)))
