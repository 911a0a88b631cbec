-- ===== src/Auth/Responses.antt =====
-- How a request is refused.
use platinum_gold_backend.Prelude.{
  ℕ, Text, Bool, true, false, ◌||◌, ◌==◌, all, mem_text, is_empty, Option, none, some, List, ◌≡◌,
  refl, ◌∙◌, arith, Bool-cases, ◌⊎◌, inl, inr,
}
use platinum_gold_backend.Errors.{
  Exc, invalid_api_key, auth_unavailable, clerk_base_error, is_exception, Outcome, ok, raised,
}
use platinum_gold_backend.Exec.{Exec, raise, try_except, Outcome-cases}
use platinum_gold_backend.Value.{Value, null, bool, int, float, str, arr, obj}
use platinum_gold_backend.Core.Exceptions.{Response, http_exception_handler}
use platinum_gold_backend.Auth.{
  ApiPrincipal, VerifiedKey, scopes_of, with_subject, principal_of, verification_failure,
  invalid_status, ApiKeyVerifier, clerk_verify, is_auth_error, auth_answer, get_api_key_verifier,
  get_principal, clerk, require_scopes, authorize,
}

abbrev pub refusing_status : Outcome Response → Bool
refusing_status (ok response) =
    response.status_code == 401 || response.status_code == 403 || response.status_code == 503
refusing_status (raised e) = false

-- The exception is answered with 401, 403 or 503, or it is no Exception.
abbrev pub IsRefusal : Exc → Type 0
IsRefusal e = (refusing_status (http_exception_handler e) ≡ true) ⊎ (is_exception e ≡ false)

-- what the two `except` clauses of `get_principal` name, or no Exception
abbrev IsAuthFailure : Exc → Type 0
IsAuthFailure e = (is_auth_error e ≡ true) ⊎ (is_exception e ≡ false)

-- every exception of the outcome has the property
abbrev Raises : {A : Type 0} → (Exc → Type 0) → Outcome A → Type 0
Raises P (ok a) = Unit
Raises P (raised e) = P e

verification_failure-is_auth_error : (e : Exc) → is_auth_error (verification_failure e) ≡ true
unfolding verification_failure
verification_failure-is_auth_error (clerk_base_error n) = elim (Bool-cases (invalid_status n)) [
  | inl i ↦ rw i
  | inr i ↦ rw i
]
verification_failure-is_auth_error e = refl

with_subject-Raises :
    (o : Option Value) (scopes : List Text) → Raises IsAuthFailure (with_subject o scopes)
with_subject-Raises none scopes = inl refl
with_subject-Raises (some (str s)) scopes = elim (Bool-cases (is_empty s)) [
  | inl e ↦ rw e (inl refl)
  | inr e ↦ rw e tt
]
with_subject-Raises (some null) scopes = inl refl
with_subject-Raises (some (bool b)) scopes = inl refl
with_subject-Raises (some (int n)) scopes = inl refl
with_subject-Raises (some float) scopes = inl refl
with_subject-Raises (some (arr x)) scopes = inl refl
with_subject-Raises (some (obj x)) scopes = inl refl

principal_of-Raises : (result : VerifiedKey) → Raises IsAuthFailure (principal_of result)
unfolding principal_of
principal_of-Raises result = elim (Bool-cases (result.expired || result.revoked)) [
  | inl e ↦ rw e (inl refl)
  | inr e ↦ rw e (with_subject-Raises result.subject (scopes_of result.scopes))
]

auth_answer-IsRefusal : (e : Exc) → is_auth_error e ≡ true → IsRefusal (auth_answer e)
unfolding http_exception_handler
auth_answer-IsRefusal invalid_api_key h = inl refl
auth_answer-IsRefusal auth_unavailable h = inl refl
auth_answer-IsRefusal e h = absurd (ground arith)

not_named : (e : Exc) → is_auth_error e ≡ false → IsAuthFailure e → IsRefusal e
not_named e other (inl named) = absurd (ground arith)
not_named e other (inr passed) = inr passed

module _ {W : Type 0} (verify_api_key : Text → ℕ → Exec W VerifiedKey) (timeout_ms : ℕ)
    (required : List Text) where
  clerk_verify-Raises :
      (secret : Text) (w : W)
      → Raises IsAuthFailure (clerk_verify verify_api_key timeout_ms secret w).0
  unfolding clerk_verify
  clerk_verify-Raises secret w = elim (Outcome-cases (verify_api_key secret timeout_ms w).0) [
    | inl (result, e) ↦ rw e (principal_of-Raises result)
    | inr (x, e) ↦ elim (Bool-cases (is_exception x)) [
      | inl caught ↦ rw (e, caught) (inl (verification_failure-is_auth_error x))
      | inr passed ↦ rw (e, passed) (inr passed)
    ]
  ]

  get_principal-Raises :
      (api_key : Option Text) (w : W)
      → Raises IsRefusal (get_principal api_key (clerk verify_api_key timeout_ms) w).0
  unfolding get_principal http_exception_handler
  get_principal-Raises none w = inl refl
  get_principal-Raises (some secret) w = elim (Bool-cases (is_empty secret)) [
    | inl e ↦ rw e (inl refl)
    | inr e ↦
        rw e (
          translated (clerk_verify verify_api_key timeout_ms secret) (clerk_verify-Raises secret w))
  ]
    where
      translated :
          (m : Exec W ApiPrincipal)
          → Raises IsAuthFailure (m w).0
          → Raises IsRefusal (try_except m is_auth_error (λ e. raise (auth_answer e)) w).0
      translated m h = elim (Outcome-cases (m w).0) [
        | inl (p, e) ↦ rw e tt
        | inr (x, e) ↦ elim (Bool-cases (is_auth_error x)) [
          | inl named ↦ rw (e, named) (auth_answer-IsRefusal x named)
          | inr other ↦ rw (e, other) (not_named x other (rw e at h))
        ]
      ]

  require_scopes-Raises :
      (p : ApiPrincipal) (w : W) → Raises IsRefusal (require_scopes required p w).0
  unfolding require_scopes http_exception_handler
  require_scopes-Raises p w = elim (Bool-cases (all (λ scope. mem_text scope p.scopes) required)) [
    | inl e ↦ rw e tt
    | inr e ↦ rw e (inl refl)
  ]

  -- A request that is not let in is answered with 401, 403 or 503, whatever Clerk's client
  -- returns or raises; only what is no Exception, such as a cancellation, is raised on.
  pub authorize-IsRefusal :
      (api_key : Option Text) (w : W) (e : Exc)
      → (authorize required (some (clerk verify_api_key timeout_ms)) api_key w).0 ≡ raised e
      → IsRefusal e
  unfolding authorize get_api_key_verifier
  authorize-IsRefusal api_key w e h = elim (Outcome-cases (get_principal api_key verifier w).0) [
    | inl (p, f) ↦
        refused (require_scopes required p (get_principal api_key verifier w).1).0
          (require_scopes-Raises p _) (rw f at h)
    | inr (x, f) ↦
        refused (get_principal api_key verifier w).0 (get_principal-Raises api_key w)
          (f ∙ (rw f at h))
  ]
    where
      verifier : ApiKeyVerifier W
      verifier = clerk verify_api_key timeout_ms

      refused : (r : Outcome ApiPrincipal) → Raises IsRefusal r → r ≡ raised e → IsRefusal e
      refused r good is = rw is at good
