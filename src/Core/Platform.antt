-- ===== src/Core/Platform.antt =====
-- What the program takes from Python's Unicode tables, from `urllib.parse` and from pydantic's
-- string handling, as parameters.
use platinum_gold_backend.Prelude.{ℕ, Text, Bool, Option, List}

-- The result of `urlsplit`. `port` is a property that may raise ValueError: then it is `none`.
pub record SplitUrl : Type 0 where
  pub scheme : Text
  pub netloc : Text
  pub path : Text
  pub query : Text
  pub fragment : Text
  pub username : Option Text
  pub password : Option Text
  pub hostname : Option Text
  pub port : Option (Option ℕ)

pub record Platform : Type 0 where
  -- `c.isspace()` of one character, `s.lower()`, and the stripping of a constrained string
  pub isspace : ℕ → Bool
  pub lower : Text → Text
  pub strip : Text → Text
  -- `urlsplit(s)`: `none` where it raises ValueError
  pub urlsplit : Text → Option SplitUrl
  -- `unquote(s)`, and `parse_qs(query, keep_blank_values=True)` in the order of its keys
  pub unquote : Text → Text
  pub parse_qs : Text → Option (List (Text × List Text))
