-- ===== src/Core/Logging.antt =====
-- app/core/logging.py: request identifiers, the redaction of API keys, and the fields of a log
-- line. `RequestLoggingMiddleware` is in Middleware.
pub mod Middleware
pub mod Redaction
mod Tests
use platinum_gold_backend.Prelude.{
  ℕ, Text, String, codes, Bool, true, false, leb, ◌&&◌, ◌||◌, ◌==◌, text_eq, all, length, Option,
  none, some, List, [], ◌∷◌, ◌++◌, if◌then◌else◌,
}
use platinum_gold_backend.Errors.{Exc, is_exception, Outcome, ok, raised}
use platinum_gold_backend.Exec.{Exec}
use platinum_gold_backend.Core.Log.{Field, text, number, absent, LogRecord}

-- [A-Za-z0-9]
abbrev pub is_alphanumeric : ℕ → Bool
is_alphanumeric c =
    (leb b'A' c && leb c b'Z') || ((leb b'a' c && leb c b'z') || (leb b'0' c && leb c b'9'))

-- [A-Za-z0-9._-]
abbrev pub is_id_character : ℕ → Bool
is_id_character c = is_alphanumeric c || (c == b'.' || (c == b'_' || c == b'-'))

-- [A-Za-z0-9_-]
abbrev pub is_key_character : ℕ → Bool
is_key_character c = is_alphanumeric c || (c == b'_' || c == b'-')

-- `REQUEST_ID_PATTERN.fullmatch(candidate)`
unfoldable pub is_request_id : Text → Bool
is_request_id [] = false
is_request_id (c ∷ s) = is_alphanumeric c && (leb (length s) 63 && all is_id_character s)

abbrev pub redacted : Text
redacted = codes "ak_[REDACTED]"

-- `ak_` and a key character stand here
abbrev pub key_starts : Text → Bool
key_starts (a ∷ k ∷ u ∷ c ∷ s) = (a == b'a') && ((k == b'k') && ((u == b'_') && is_key_character c))
key_starts _ = false

-- `API_KEY_PATTERN.sub("ak_[REDACTED]", …)`: from left to right, each match as long as it can be.
-- The flag says that a match is being passed over.
unfoldable pub redact_from : Bool → Text → Text
redact_from within [] = []
redact_from true (c ∷ s) =
    let rest = redact_from (is_key_character c) s in if is_key_character c then rest else c ∷ rest
redact_from false (c ∷ s) =
    let rest = redact_from (key_starts (c ∷ s)) s in
    if key_starts (c ∷ s) then redacted ++ rest else c ∷ rest

unfoldable pub redact : Text → Text
redact path = redact_from false path

-- The fields that a log line takes over from a record, in order.
abbrev pub log_fields : List Text
log_fields =
    codes "request_id"
    ∷ codes "method"
    ∷ codes "path"
    ∷ codes "status"
    ∷ codes "duration_ms"
    ∷ codes "dependency"
    ∷ codes "cache_resource"
    ∷ codes "cache_operation"
    ∷ codes "exception_type"
    ∷ codes "exception_file"
    ∷ codes "exception_function"
    ∷ codes "exception_line"
    ∷ []

-- `getattr(record, field, None)` of a field of `extra`
abbrev pub attribute : Text → List (Text × Field) → Option Field
attribute name [] = none
attribute name ((key, value) ∷ rest) =
    let other = attribute name rest in if text_eq key name then some value else other

abbrev pub present : Text → Option Field → List (Text × Field)
present name none = []
present name (some absent) = []
present name (some value) = (name, value) ∷ []

abbrev pub taken_over : List Text → List (Text × Field) → List (Text × Field)
taken_over [] extra = []
taken_over (name ∷ names) extra = present name (attribute name extra) ++ taken_over names extra

-- `JsonFormatter.format` up to `json.dumps`; the timestamp and the level are logging's.
unfoldable pub format : Text → Text → LogRecord → List (Text × Field)
format timestamp level entry =
    (codes "timestamp", text timestamp)
    ∷ (codes "level", text level)
    ∷ (codes "event", text entry.event)
    ∷ taken_over log_fields entry.extra
