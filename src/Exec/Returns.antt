-- ===== src/Exec/Returns.antt =====
-- What a call guarantees of the value that it returns, one rule for each way to build a call.
-- Nothing is said of a call that raises.
use platinum_gold_backend.Prelude.{Bool, true, false, ◌≡◌, refl, if◌then◌else◌}
use platinum_gold_backend.Errors.{Exc, Outcome, ok, raised}
use platinum_gold_backend.Exec.{Exec, pure, raise, effect, ◌>>=◌, continue}

pub record Returns {ℓ} {W A : Type ℓ} (P : A → Type ℓ) (m : Exec W A) : Type ℓ where
  pub at : (w : W) (a : A) → (m w).0 ≡ ok a → P a

pub ok-injective {ℓ} : {A : Type ℓ} {a b : A} → ok a ≡ ok b → a ≡ b
ok-injective h = cc

module _ {ℓ} {W A : Type ℓ} {P : A → Type ℓ} where
  pub Returns-pure : (a : A) → P a → Returns P (pure {W = W} a)
  Returns-pure a p = record { at = λ w b h. rw (← ok-injective h) p }

  pub Returns-effect : (f : W → W) (a : A) → P a → Returns P (effect f a)
  Returns-effect f a p = record { at = λ w b h. rw (← ok-injective h) p }

  pub Returns-raise : (e : Exc) → Returns P (raise {W = W} {A = A} e)
  Returns-raise e = record { at = λ w b h. cc }

  pub Returns-if :
      (b : Bool) (m n : Exec W A)
      → (b ≡ true → Returns P m)
      → (b ≡ false → Returns P n)
      → Returns P (if b then m else n)
  Returns-if true m n km kn = km refl
  Returns-if false m n km kn = kn refl

module _ {ℓ} {W A B : Type ℓ} {P : B → Type ℓ} where
  continue-Returns :
      (r : Outcome A) (f : A → Exec W B)
      → ((a : A) → r ≡ ok a → Returns P (f a))
      → (w : W) (b : B) → (continue r f w).0 ≡ ok b
      → P b
  continue-Returns (ok a) f kf w b h = (kf a refl).at w b h
  continue-Returns (raised e) f kf w b h = cc

  pub Returns-bind :
      {Q : A → Type ℓ} (m : Exec W A) (f : A → Exec W B)
      → Returns Q m
      → ((a : A) → Q a → Returns P (f a))
      → Returns P (m >>= f)
  Returns-bind m f km kf = record {
    at = λ w b h. continue-Returns (m w).0 f (λ a e. kf a (km.at w a e)) (m w).1 b h;
  }

  -- nothing is known of the first part
  pub Returns-then :
      (m : Exec W A) (f : A → Exec W B) → ((a : A) → Returns P (f a)) → Returns P (m >>= f)
  Returns-then m f kf = record {
    at = λ w b h. continue-Returns (m w).0 f (λ a e. kf a) (m w).1 b h;
  }
