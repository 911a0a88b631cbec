-- ===== src/Core/Config/Ports.antt =====
-- What the two URL validators share: the bounds of a port, and a value that is returned unchanged.
use platinum_gold_backend.Prelude.{
  ℕ, ◌≤◌, Text, Bool, true, false, Option, none, some, ◌≡◌, refl, arith, if◌then◌else◌,
}
use platinum_gold_backend.Core.Config.{port_refused}

abbrev pub IsPort : Option ℕ → Type 0
IsPort none = Unit
IsPort (some port) = (1 ≤ port) × (port ≤ 65535)

pub port_refused-IsPort : (port : Option ℕ) → port_refused port ≡ false → IsPort port
port_refused-IsPort none h = tt
port_refused-IsPort (some port) h = ground arith

-- A value that is not refused.
pub kept_value :
    (b : Bool) (value u : Text)
    → (if b then none else some value) ≡ some u
    → (b ≡ false) × (value ≡ u)
kept_value true value u h = absurd (ground arith)
kept_value false value u h = (refl, of_some h)
  where
    of_some : {a b : Text} → some a ≡ some b → a ≡ b
    of_some x = cc
