-- ===== src/Items/Repository/Sql/Filters.antt =====
-- What `apply_filters` keeps: the escaped search text is found literally, up to case.
use platinum_gold_backend.Prelude.{
  ℕ, Text, codes, text_eq, ℤ, eqℤ, Bool, true, false, ◌&&◌, ◌||◌, ◌==◌, ==_iff, all, Option, none,
  some, List, [], ◌∷◌, ◌++◌, append_assoc, ◌≡◌, refl, sym, ◌∙◌, ap, Bool-cases, inl, inr,
  if◌then◌else◌, all-append,
}
use platinum_gold_backend.Items.Models.{Item}
use platinum_gold_backend.Items.Repository.Sql.{
  replace, escaped, search_conditions, condition_of, apply_filters, Condition, quality_is,
  item_type_is, version_is,
}
use platinum_gold_backend.Items.Repository.Sql.Contract.{
  Token, any_string, literal, prepend, tokens, any_suffix, matches, ilike, equals, holds,
}

replace-append : (c : ℕ) (r s t : Text) → replace c r (s ++ t) ≡ replace c r s ++ replace c r t
replace-append c r [] t = refl
replace-append c r (d ∷ s) t = elim (Bool-cases (d == c)) [
  | inl same ↦ rw same (rw (replace-append c r s t) (sym (append_assoc r _ _)))
  | inr other ↦ rw other (ap (λ l. d ∷ l) (replace-append c r s t))
]

-- What one character becomes.
abbrev escaped_char : ℕ → Text
escaped_char c =
    if c == b'\\'
    then codes "\\\\"
    else if c == b'%'
    then codes "\\%"
    else if c == b'_'
    then codes "\\_"
    else c ∷ []

escaped-cons : (c : ℕ) (s : Text) → escaped (c ∷ s) ≡ escaped_char c ++ escaped s
unfolding escaped
escaped-cons c s = elim (Bool-cases (c == b'\\')) [
  | inl e ↦ rw e
  | inr e ↦ elim (Bool-cases (c == b'%')) [
    | inl f ↦ rw (e, f)
    | inr f ↦ elim (Bool-cases (c == b'_')) [ inl g ↦ rw (e, f, g) | inr g ↦ rw (e, f, g) ]
  ]
]

-- An escaped character is read as itself.
tokens-escaped_char :
    (c : ℕ) (p : Text)
    → tokens b'\\' false (escaped_char c ++ p) ≡ prepend (literal c) (tokens b'\\' false p)
tokens-escaped_char c p = elim (Bool-cases (c == b'\\')) [
  | inl e ↦ rw e (rw ((==_iff c b'\\').0 e))
  | inr e ↦ elim (Bool-cases (c == b'%')) [
    | inl f ↦ rw (e, f) (rw ((==_iff c b'%').0 f))
    | inr f ↦ elim (Bool-cases (c == b'_')) [
      | inl g ↦ rw (e, f, g) (rw ((==_iff c b'_').0 g))
      | inr g ↦ rw (e, f, g) (rw (e, f, g))
    ]
  ]
]

abbrev literals : Text → List Token → List Token
literals [] ts = ts
literals (c ∷ s) ts = literal c ∷ literals s ts

tokens-escaped :
    (s rest : Text) (ts : List Token)
    → tokens b'\\' false rest ≡ some ts
    → tokens b'\\' false (escaped s ++ rest) ≡ some (literals s ts)
tokens-escaped [] rest ts h = unfold escaped in h
tokens-escaped (c ∷ s) rest ts h = rw (escaped-cons c s) (
    rw (append_assoc (escaped_char c) (escaped s) rest)
      (tokens-escaped_char c _ ∙ ap (prepend (literal c)) (tokens-escaped s rest ts h)))

-- `s` stands at the start of the text, up to case.
module _ (fold : ℕ → ℕ) where
  abbrev pub starts_with : Text → Text → Bool
  starts_with [] t = true
  starts_with (d ∷ s) [] = false
  starts_with (d ∷ s) (c ∷ t) = (fold c == fold d) && starts_with s t

  -- `s` stands somewhere in the text, up to case.
  abbrev pub contains : Text → Text → Bool
  contains s t = any_suffix (starts_with s) t

  matches_rest : (t : Text) → matches fold (any_string ∷ []) t ≡ true
  matches_rest [] = refl
  matches_rest (c ∷ t) = matches_rest t

  matches-literals : (s t : Text) → matches fold (literals s (any_string ∷ [])) t ≡ starts_with s t
  matches-literals [] t = matches_rest t
  matches-literals (d ∷ s) [] = refl
  matches-literals (d ∷ s) (c ∷ t) = ap (λ b. (fold c == fold d) && b) (matches-literals s t)

  any_suffix_ext :
      (f g : Text → Bool) (t : Text) → ((u : Text) → f u ≡ g u) → any_suffix f t ≡ any_suffix g t
  any_suffix_ext f g [] h = h []
  any_suffix_ext f g (c ∷ t) h = rw (h (c ∷ t)) (ap (λ b. g (c ∷ t) || b) (any_suffix_ext f g t h))

  -- The pattern that `apply_filters` builds of a search text matches exactly the texts in which
  -- the search text stands, its `%`, `_` and backslashes taken literally, up to case.
  pub ilike-escaped :
      (search t : Text)
      → ilike fold (codes "%" ++ (escaped search ++ codes "%")) b'\\' t ≡ contains search t
  ilike-escaped search t =
      rw (tokens-escaped search (codes "%") (any_string ∷ []) refl)
        (any_suffix_ext _ _ t (matches-literals search))

  -- What each parameter asks of an item; one that is not given asks nothing.
  abbrev pub search_fits : Option Text → Item → Bool
  search_fits none item = true
  search_fits (some search) item = contains search item.name

  abbrev pub fits : {A : Type 0} → (A → A → Bool) → Option A → Option A → Bool
  fits eq none a = true
  fits eq (some b) a = equals fold eq a b

  abbrev pub kept : Option Text → Option ℤ → Option Text → Option Text → Item → Bool
  kept search quality item_type version item =
      search_fits search item
      && (fits eqℤ quality item.quality
          && (fits text_eq item_type item.item_type
              && fits text_eq version item.introduced_in_version))

  and_true : (b : Bool) → (b && true) ≡ b
  and_true true = refl
  and_true false = refl

  search-fits :
      (item : Item) (search : Option Text)
      → all (holds fold item) (search_conditions search) ≡ search_fits search item
  search-fits item none = refl
  search-fits item (some search) = and_true _ ∙ ilike-escaped search item.name

  condition-fits :
      {A : Type 0} (eq : A → A → Bool) (f : A → Condition) (item : Item) (column : Option A)
      (asked : Option A)
      → ((a : A) → holds fold item (f a) ≡ equals fold eq column a)
      → all (holds fold item) (condition_of f asked) ≡ fits eq asked column
  condition-fits eq f item column none h = refl
  condition-fits eq f item column (some a) h = and_true _ ∙ h a

  -- An item meets the conditions of `apply_filters` exactly if it meets each parameter that is
  -- given: the search text stands in its name up to case, and its quality, type and version are
  -- not NULL and equal.
  pub apply_filters-kept :
      (search : Option Text) (quality : Option ℤ) (item_type version : Option Text) (item : Item)
      → all (holds fold item) (apply_filters search quality item_type version)
        ≡ kept search quality item_type version item
  unfolding apply_filters
  apply_filters-kept search quality item_type version item =
      rw (all-append (holds fold item) (search_conditions search) _) (
        rw (all-append (holds fold item) (condition_of quality_is quality) _) (
          rw (all-append (holds fold item) (condition_of item_type_is item_type) _) (
            rw (search-fits item search) (
              rw (condition-fits eqℤ quality_is item item.quality quality (λ a. refl)) (
                rw (condition-fits text_eq item_type_is item item.item_type item_type (λ a. refl)) (
                  rw (
                    condition-fits text_eq version_is item item.introduced_in_version version
                      (λ a. refl))))))))
