-- ===== src/Core/Logging/Redaction.antt =====
-- No API key is left in a path that was redacted.
use platinum_gold_backend.Prelude.{
  ℕ, Text, Bool, true, false, ◌||◌, ◌==◌, [], ◌∷◌, ◌++◌, ◌≡◌, refl, ◌∙◌, arith, Bool-cases, inl,
  inr,
}
use platinum_gold_backend.Core.Logging.{is_key_character, key_starts, redacted, redact_from, redact}

-- `API_KEY_PATTERN.search(s)` finds something
abbrev pub has_api_key : Text → Bool
has_api_key [] = false
has_api_key (c ∷ s) = key_starts (c ∷ s) || has_api_key s

key_starts-other : (c : ℕ) (s : Text) → (c == b'a') ≡ false → key_starts (c ∷ s) ≡ false
key_starts-other c [] h = refl
key_starts-other c (k ∷ []) h = refl
key_starts-other c (k ∷ u ∷ []) h = refl
key_starts-other c (k ∷ u ∷ d ∷ s) h = rw h

-- What follows a character that is no start of a key does not become one.
key_starts-redact_from :
    (c : ℕ) (s : Text) → key_starts (c ∷ s) ≡ false → key_starts (c ∷ redact_from false s) ≡ false
unfolding redact_from
key_starts-redact_from c [] h = refl
key_starts-redact_from c (k ∷ []) h = refl
key_starts-redact_from c (k ∷ u ∷ []) h = refl
key_starts-redact_from c (k ∷ u ∷ d ∷ s) h = ground arith

has_api_key-redacted : (s : Text) → has_api_key (redacted ++ s) ≡ has_api_key s
has_api_key-redacted s =
    rw (key_starts-other b'E' (b'D' ∷ b']' ∷ s) refl)
      (rw (key_starts-other b'D' (b']' ∷ s) refl) (rw (key_starts-other b']' s refl)))

has_api_key-redact_from : (b : Bool) (s : Text) → has_api_key (redact_from b s) ≡ false
unfolding redact_from
has_api_key-redact_from true [] = refl
has_api_key-redact_from false [] = refl
has_api_key-redact_from true (c ∷ s) = elim (Bool-cases (is_key_character c)) [
  | inl key ↦ rw key (has_api_key-redact_from true s)
  | inr other ↦ rw other (
      rw (key_starts-other c (redact_from false s) (ground arith))
        (has_api_key-redact_from false s))
]
has_api_key-redact_from false (c ∷ s) = elim (Bool-cases (key_starts (c ∷ s))) [
  | inl key ↦ rw key (has_api_key-redacted (redact_from true s) ∙ has_api_key-redact_from true s)
  | inr other ↦ rw other (rw (key_starts-redact_from c s other) (has_api_key-redact_from false s))
]

-- In the path that is logged, the pattern of an API key is found nowhere.
pub has_api_key-redact : (path : Text) → has_api_key (redact path) ≡ false
unfolding redact
has_api_key-redact path = has_api_key-redact_from false path
