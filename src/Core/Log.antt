-- ===== src/Core/Log.antt =====
-- Python's `logging`, as far as the program hands records to it: an event with its `extra` fields.
use platinum_gold_backend.Prelude.{ℕ, Text, List}

pub data Field : Type 0 where
  text : Text → Field
  number : ℕ → Field
  -- None
  absent : Field

pub record LogRecord : Type 0 where
  pub event : Text
  pub extra : List (Text × Field)

-- A logger: a call of it never raises, and changes the world only by what the handler writes.
pub record Logger (W : Type 0) : Type 0 where
  pub warning : LogRecord → W → W
