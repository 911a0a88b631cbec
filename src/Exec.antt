-- ===== src/Exec.antt =====
-- Methods that read and change the world (Redis, PostgreSQL, the log) and may raise. What was
-- done before a raise stays done, so the world comes back beside an exception too.
pub mod Returns
use platinum_gold_backend.Prelude.{
  arith, Bool-cases, sym, ◌∙◌, Bool, true, false, ◌≡◌, refl, ap, if◌then◌else◌, ◌⊎◌, inl, inr,
}
use mathlib.Core.Path.{fun_ext}
use platinum_gold_backend.Errors.{Exc, Outcome, ok, raised}

abbrev pub Exec {ℓ} : Type ℓ → Type ℓ → Type ℓ
Exec W A = W → Outcome A × W

module _ {ℓ} {W A : Type ℓ} where
  abbrev pub pure : A → Exec W A
  pure a w = (ok a, w)

  abbrev pub raise : Exc → Exec W A
  raise e w = (raised e, w)

  -- an effect that always succeeds, such as a call of a logger
  abbrev pub effect : (W → W) → A → Exec W A
  effect f a w = (ok a, f w)

  abbrev pub lift : Outcome A → Exec W A
  lift r w = (r, w)

  abbrev recover : (Exc → Bool) → (Exc → Exec W A) → Outcome A → Exec W A
  recover test handler (ok a) w = (ok a, w)
  recover test handler (raised e) w = if test e then handler e w else (raised e, w)

  -- `try: m` with one `except` clause; what the clause does not name is raised on
  abbrev pub try_except : Exec W A → (Exc → Bool) → (Exc → Exec W A) → Exec W A
  try_except m test handler w = recover test handler (m w).0 (m w).1

  abbrev finish : Outcome A → Outcome (Unit {ℓ}) × W → Outcome A × W
  finish r (ok done, w) = (r, w)
  finish r (raised e, w) = (raised e, w)

  -- `try: m finally: cleanup`; what the cleanup raises takes the place of the outcome of `m`
  abbrev pub try_finally : Exec W A → Exec W (Unit {ℓ}) → Exec W A
  try_finally m cleanup w = finish (m w).0 (cleanup (m w).1)

module _ {ℓ} {W A B : Type ℓ} where
  abbrev continue : Outcome A → (A → Exec W B) → Exec W B
  continue (ok a) f w = f a w
  continue (raised e) f w = (raised e, w)

  infixl 10 ◌>>=◌ ◌>>◌
  abbrev pub ◌>>=◌ : Exec W A → (A → Exec W B) → Exec W B
  ◌>>=◌ m f w = continue (m w).0 f (m w).1

  abbrev pub ◌>>◌ : Exec W A → Exec W B → Exec W B
  m >> n = m >>= λ _. n

-- A successful sequence: the first part returned, and the rest went on from there.
pub >>=-eq-ok {ℓ} :
    {W A B : Type ℓ} (m : Exec W A) (f : A → Exec W B) (w : W) {b : B}
    → ((m >>= f) w).0 ≡ ok b
    → (a : A) × ((m w).0 ≡ ok a) × ((f a (m w).1).0 ≡ ok b)
>>=-eq-ok {A = A} {B = B} m f w {b = b} h = go (m w).0 refl h
  where
    go :
        (r : Outcome A)
        → (m w).0 ≡ r
        → (continue r f (m w).1).0 ≡ ok b
        → (a : A) × ((m w).0 ≡ ok a) × ((f a (m w).1).0 ≡ ok b)
    go (ok a) e g = (a, e, g)
    go (raised x) e g = cc

pub Outcome-cases {ℓ} :
    {A : Type ℓ} (r : Outcome A) → ((a : A) × (r ≡ ok a)) ⊎ ((e : Exc) × (r ≡ raised e))
Outcome-cases (ok a) = inl (a, refl)
Outcome-cases (raised e) = inr (e, refl)

-- A first part whose result is known.
pub >>=-step {ℓ} :
    {W A B : Type ℓ} (m : Exec W A) (f : A → Exec W B) (w : W) {a : A} {w' : W}
    → m w ≡ (ok a, w')
    → (m >>= f) w ≡ f a w'
>>=-step m f w e = rw e

pub >>=-ok {ℓ} :
    {W A B : Type ℓ} (m : Exec W A) (f : A → Exec W B) (w : W) {a : A} {b : B}
    → (m w).0 ≡ ok a
    → (f a (m w).1).0 ≡ ok b
    → ((m >>= f) w).0 ≡ ok b
>>=-ok m f w e h = rw e h

-- A last part that turns what the first parts return into `b`, in whatever world it is run.
pub >>-bind-ok {ℓ} :
    {W A B C : Type ℓ} (p : Exec W C) (q : Exec W A) (k : A → Exec W B) (w : W) {a : A} {b : B}
    → ((p >> q) w).0 ≡ ok a
    → ((w' : W) → (k a w').0 ≡ ok b)
    → ((p >> (q >>= k)) w).0 ≡ ok b
>>-bind-ok p q k w h g =
    let (c, e, rest) = >>=-eq-ok p (λ _. q) w h in
    >>=-ok p (λ _. q >>= k) w e (>>=-ok q k (p w).1 rest (g _))

-- Two last parts that agree everywhere.
pub >>=-ext {ℓ} :
    {W A B : Type ℓ} (m : Exec W A) (f g : A → Exec W B) (w : W)
    → ((a : A) (v : W) → f a v ≡ g a v)
    → (m >>= f) w ≡ (m >>= g) w
>>=-ext m f g w h = ap (λ k. (m >>= k) w) (fun_ext λ a. fun_ext λ v. h a v)

-- A handler that raises returns nothing.
pub try_except-eq-ok {ℓ} :
    {W A : Type ℓ} (m : Exec W A) (test : Exc → Bool) (answer : Exc → Exc) (w : W) (a : A)
    → (try_except m test (λ e. raise (answer e)) w).0 ≡ ok a
    → (m w).0 ≡ ok a
try_except-eq-ok m test answer w a h = elim (Outcome-cases (m w).0) [
  | inl (b, e) ↦ e ∙ (rw e at h)
  | inr (x, e) ↦ elim (Bool-cases (test x)) [
    | inl caught ↦ absurd (ground arith)
    | inr passed ↦ absurd (ground arith)
  ]
]

finish-end {ℓ} : {W A : Type ℓ} (r : Outcome A) (c : Outcome (Unit {ℓ}) × W) → (finish r c).1 ≡ c.1
finish-end r (ok done, v) = refl
finish-end r (raised e, v) = refl

finish-eq-ok {ℓ} :
    {W A : Type ℓ} {a : A} (r : Outcome A) (c : Outcome (Unit {ℓ}) × W)
    → (finish r c).0 ≡ ok a
    → r ≡ ok a
finish-eq-ok r (ok done, v) g = g
finish-eq-ok r (raised e, v) g = cc

-- The cleanup comes last.
pub try_finally-end {ℓ} :
    {W A : Type ℓ} (m : Exec W A) (cleanup : Exec W (Unit {ℓ})) (w : W)
    → (try_finally m cleanup w).1 ≡ (cleanup (m w).1).1
try_finally-end m cleanup w = finish-end (m w).0 (cleanup (m w).1)

-- What a cleanup lets pass was returned by the body.
pub try_finally-eq-ok {ℓ} :
    {W A : Type ℓ} (m : Exec W A) (cleanup : Exec W (Unit {ℓ})) (w : W) (a : A)
    → (try_finally m cleanup w).0 ≡ ok a
    → (m w).0 ≡ ok a
try_finally-eq-ok m cleanup w a h = finish-eq-ok (m w).0 (cleanup (m w).1) h

-- A handled call that returned: the call returned, or raised what the clause names.
pub try_except-cases {ℓ} :
    {W A : Type ℓ} (m : Exec W A) (test : Exc → Bool) (handler : Exc → Exec W A) (w : W) (a : A)
    → (try_except m test handler w).0 ≡ ok a
    → ((m w).0 ≡ ok a)
      ⊎ ((e : Exc) × ((m w).0 ≡ raised e) × (test e ≡ true) × ((handler e (m w).1).0 ≡ ok a))
try_except-cases m test handler w a h = elim (Outcome-cases (m w).0) [
  | inl (b, e) ↦ inl (e ∙ (rw e at h))
  | inr (x, e) ↦ elim (Bool-cases (test x)) [
    | inl caught ↦ inr (x, e, caught, rw (e, caught) at h)
    | inr passed ↦ absurd (ground arith)
  ]
]
