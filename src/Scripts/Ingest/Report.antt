-- ===== src/Scripts/Ingest/Report.antt =====
-- scripts/ingest.py: the text that reports a validation error, and how long it can be.
use platinum_gold_backend.Prelude.{
  ℕ, ◌+◌, ◌*◌, ◌≤◌, Text, codes, ltb, length, take, List, [], ◌∷◌, ◌++◌, map, All, Bool-cases, inl,
  inr, length-append, length-take, All-append, length-map, arith, if◌then◌else◌,
}
use platinum_gold_backend.Errors.{Detail}

abbrev pub max_validation_errors : ℕ
max_validation_errors = 20

abbrev pub max_validation_text : ℕ
max_validation_text = 160

-- `separator.join(parts)`
unfoldable pub join : Text → List Text → Text
join separator [] = []
join separator (part ∷ []) = part
join separator (part ∷ next ∷ rest) = part ++ (separator ++ join separator (next ∷ rest))

length-join :
    (separator : Text) (k : ℕ) (parts : List Text)
    → All (λ part. length part ≤ k) parts
    → length (join separator parts) ≤ length parts * (k + length separator)
unfolding join
length-join separator k [] h = omega arith
length-join separator k (part ∷ []) h = omega (arith, h)
length-join separator k (part ∷ next ∷ rest) (h, hs) =
    rw (length-append part (separator ++ join separator (next ∷ rest))) (
      rw (length-append separator (join separator (next ∷ rest)))
        (grind (arith, length-join separator k (next ∷ rest) hs)))

module _ (unicode_escape : Text → Text) where
  -- `_safe_validation_text`
  unfoldable pub safe_validation_text : Text → Text
  safe_validation_text value =
      let escaped = unicode_escape value in
      if ltb max_validation_text (length escaped)
      then take max_validation_text escaped ++ codes "..."
      else escaped

  unfoldable pub message_of : Detail → Text
  message_of detail =
      safe_validation_text (join (codes ".") detail.loc)
      ++ (codes ": " ++ safe_validation_text detail.msg)

  abbrev pub omission : List Detail → List Text
  omission details =
      if ltb max_validation_errors (length details)
      then codes "additional validation errors omitted" ∷ []
      else []

  unfoldable pub format_validation_error : List Detail → Text
  format_validation_error details =
      join (codes "; ") (map message_of (take max_validation_errors details) ++ omission details)

  length-safe_validation_text : (value : Text) → length (safe_validation_text value) ≤ 163
  unfolding safe_validation_text
  length-safe_validation_text value =
      elim (Bool-cases (ltb max_validation_text (length (unicode_escape value)))) [
        | inl long ↦ rw long (
            rw (length-append (take 160 (unicode_escape value)) (codes "..."))
              (rw (length-take 160 (unicode_escape value)) (omega arith)))
        | inr short ↦ rw short (ground arith)
      ]

  length-message_of : (detail : Detail) → length (message_of detail) ≤ 328
  unfolding message_of
  length-message_of detail =
      let location = safe_validation_text (join (codes ".") detail.loc) in
      let text = safe_validation_text detail.msg in
      rw (length-append location (codes ": " ++ text)) (
        omega (
          arith,
          length-safe_validation_text (join (codes ".") detail.loc),
          length-safe_validation_text detail.msg,
        ))

  messages-short : (details : List Detail) → All (λ m. length m ≤ 328) (map message_of details)
  messages-short [] = tt
  messages-short (detail ∷ details) = (length-message_of detail, messages-short details)

  omission-short : (details : List Detail) → All (λ m. length m ≤ 328) (omission details)
  omission-short details = elim (Bool-cases (ltb max_validation_errors (length details))) [
    | inl long ↦ rw long (omega arith, tt)
    | inr short ↦ rw short tt
  ]

  length-omission : (details : List Detail) → length (omission details) ≤ 1
  length-omission details = elim (Bool-cases (ltb max_validation_errors (length details))) [
    | inl long ↦ rw long (omega arith)
    | inr short ↦ rw short (omega arith)
  ]

  -- Whatever a snapshot makes pydantic report, the text is at most 6930 characters long.
  pub length-format_validation_error :
      (details : List Detail) → length (format_validation_error details) ≤ 6930
  unfolding format_validation_error
  length-format_validation_error details =
      let shown = take max_validation_errors details in
      let messages = map message_of shown in
      let parts = messages ++ omission details in
      let short =
        All-append (λ m. length m ≤ 328) messages (omission details) (messages-short shown)
          (omission-short details) in
      omega (
        arith,
        length-join (codes "; ") 328 parts short,
        length-append messages (omission details),
        length-map message_of shown,
        length-take 20 details,
        length-omission details,
      )
