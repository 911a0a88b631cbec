-- ===== src/Prelude/Codes.antt =====
-- Python's `str` as the list of its code points. A literal is written `codes "..."`.
use Prim.Native.Nat.{ℕ}
use Prim.Native.Char.{code}
use Prim.Native.String.{String}
use mathlib.Core.Path.{◌≡◌, refl, ap₂}
use mathlib.Core.Logic.{◌↔◌}
use mathlib.Core.Bool.{Bool, true, false, ◌&&◌, ◌||◌}
use mathlib.Core.List.{List, [], ◌∷◌}
use native.Mathlib.Omega.{arith}
use platinum_gold_backend.Prelude.Tests.{◌==◌, leb, if◌then◌else◌}
use platinum_gold_backend.Prelude.Lists.{all}

abbrev pub Text : Type 0
Text = List ℕ

abbrev pub codes : String → Text
codes String.[] = []
codes (String.◌∷◌ c s) = code c ∷ codes s

-- `s == t`
unfoldable pub text_eq : Text → Text → Bool
text_eq [] [] = true
text_eq [] (d ∷ t) = false
text_eq (c ∷ s) [] = false
text_eq (c ∷ s) (d ∷ t) = c == d && text_eq s t

pub text_eq_refl : (s : Text) → text_eq s s ≡ true
unfolding text_eq
text_eq_refl [] = refl
text_eq_refl (c ∷ s) = ground (arith, text_eq_refl s)

pub text_eq-eq : (s t : Text) → text_eq s t ≡ true → s ≡ t
unfolding text_eq
text_eq-eq [] [] h = refl
text_eq-eq [] (d ∷ t) h = ground arith
text_eq-eq (c ∷ s) [] h = ground arith
text_eq-eq (c ∷ s) (d ∷ t) h = ap₂ ◌∷◌ (ground arith) (text_eq-eq s t (ground arith))

pub text_eq_of_eq : (s t : Text) → s ≡ t → text_eq s t ≡ true
text_eq_of_eq s t e = rw e (text_eq_refl t)

pub text_eq_iff : (s t : Text) → (text_eq s t ≡ true) ↔ (s ≡ t)
text_eq_iff s t = (text_eq-eq s t, text_eq_of_eq s t)

-- `c in s`, for one character
abbrev pub has_char : ℕ → Text → Bool
has_char c [] = false
has_char c (d ∷ s) = d == c || has_char c s

-- `t in ts`, for a collection of strings
abbrev pub mem_text : Text → List Text → Bool
mem_text t [] = false
mem_text t (u ∷ us) = text_eq t u || mem_text t us

-- '0' to '9'
abbrev pub is_digit : ℕ → Bool
is_digit c = leb b'0' c && leb c b'9'

-- `s.isascii()`
abbrev pub isascii : Text → Bool
isascii s = all (λ c. leb c 127) s

-- `s.isdigit()` of a string that is ASCII: not empty, and '0' to '9' throughout
abbrev pub isdigit : Text → Bool
isdigit [] = false
isdigit (c ∷ s) = all is_digit (c ∷ s)

-- `ord(c) < 32 or ord(c) == 127`
abbrev pub is_control : ℕ → Bool
is_control c = leb c 31 || c == 127

-- The number of bytes of `s.encode("utf-8")`.
abbrev pub utf8_width : ℕ → ℕ
utf8_width c = if leb c 0x7f then 1 else if leb c 0x7ff then 2 else if leb c 0xffff then 3 else 4
