-- ===== src/Auth.antt =====
-- app/auth: the verification of an API key by Clerk, principals and their scopes.
mod Tests
pub mod Samples
pub mod Responses
pub mod Access
use platinum_gold_backend.Prelude.{
  ℕ, Text, codes, Bool, true, false, ◌||◌, ◌==◌, all, mem_text, is_empty, Option, none, some, List,
  [], ◌∷◌, if◌then◌else◌,
}
use platinum_gold_backend.Errors.{
  Exc, app_error, invalid_api_key, auth_unavailable, clerk_base_error, is_exception,
  service_unavailable, Outcome, ok, raised,
}
use platinum_gold_backend.Exec.{Exec, pure, raise, lift, try_except, ◌>>=◌}
use platinum_gold_backend.Value.{Value, str, arr, elems}

-- app/auth/principal.py. The frozenset of scopes is a list that is only asked for its members.
pub record ApiPrincipal : Type 0 where
  pub user_id : Text
  pub scopes : List Text

-- What the SDK returns, through `getattr`: the truth of the two flags, and two objects of any
-- type, given by the JSON values; `none` is a missing attribute.
pub record VerifiedKey : Type 0 where
  pub expired : Bool
  pub revoked : Bool
  pub subject : Option Value
  pub scopes : Option Value

-- _INVALID_STATUSES
abbrev pub invalid_status : ℕ → Bool
invalid_status status_code = status_code == 400 || status_code == 404

-- except ClerkBaseError, then except Exception
unfoldable pub verification_failure : Exc → Exc
verification_failure (clerk_base_error status_code) =
    if invalid_status status_code then invalid_api_key else auth_unavailable
verification_failure e = auth_unavailable

abbrev pub strings_of : List Value → List Text
strings_of [] = []
strings_of (str s ∷ vs) = s ∷ strings_of vs
strings_of (_ ∷ vs) = strings_of vs

unfoldable pub scopes_of : Option Value → List Text
scopes_of (some (arr vs)) = strings_of (elems vs)
scopes_of _ = []

abbrev pub with_subject : Option Value → List Text → Outcome ApiPrincipal
with_subject (some (str subject)) scopes =
    if is_empty subject
    then raised invalid_api_key
    else ok (record { user_id = subject; scopes = scopes })
with_subject _ scopes = raised invalid_api_key

-- the part of `verify` that reads the result
unfoldable pub principal_of : VerifiedKey → Outcome ApiPrincipal
principal_of result =
    if result.expired || result.revoked
    then raised invalid_api_key
    else with_subject result.subject (scopes_of result.scopes)

-- The protocol `ApiKeyVerifier`.
pub record ApiKeyVerifier (W : Type 0) : Type 0 where
  pub verify : Text → Exec W ApiPrincipal

-- The SDK's `verify_api_key` is a parameter; it takes the secret and the timeout.
unfoldable pub clerk_verify :
    {W : Type 0} → (Text → ℕ → Exec W VerifiedKey) → ℕ → Text → Exec W ApiPrincipal
clerk_verify verify_api_key timeout_ms secret = do
  result ←
      try_except (verify_api_key secret timeout_ms) is_exception
        (λ e. raise (verification_failure e))
  lift (principal_of result)

-- `ClerkApiKeyVerifier`
abbrev pub clerk : {W : Type 0} → (Text → ℕ → Exec W VerifiedKey) → ℕ → ApiKeyVerifier W
clerk verify_api_key timeout_ms = record { verify = clerk_verify verify_api_key timeout_ms }

-- `UnavailableApiKeyVerifier`
abbrev pub unavailable_verifier : {W : Type 0} → ApiKeyVerifier W
unavailable_verifier = record { verify = λ secret. raise auth_unavailable }

-- `bind_api_key_verifier`: Clerk is used only if there is a secret. `enter` makes its client and
-- returns its `verify_api_key`.
unfoldable pub bind_api_key_verifier :
    {W : Type 0}
    → (Text → ℕ → Exec W (Text → ℕ → Exec W VerifiedKey))
    → Option Text
    → ℕ
    → Exec W (ApiKeyVerifier W)
bind_api_key_verifier enter none timeout_ms = pure unavailable_verifier
bind_api_key_verifier enter (some secret) timeout_ms =
    if is_empty secret
    then pure unavailable_verifier
    else (do verify_api_key ← enter secret timeout_ms; pure (clerk verify_api_key timeout_ms))

abbrev pub api_key_required : Exc
api_key_required = app_error 401 (codes "API_KEY_REQUIRED") (codes "API key required")

abbrev pub api_key_invalid : Exc
api_key_invalid = app_error 401 (codes "INVALID_API_KEY") (codes "Invalid API key")

abbrev pub insufficient_permissions : Exc
insufficient_permissions =
    app_error 403 (codes "INSUFFICIENT_PERMISSIONS") (codes "Insufficient permissions")

-- the two `except` clauses of `get_principal`
abbrev pub is_auth_error : Exc → Bool
is_auth_error invalid_api_key = true
is_auth_error auth_unavailable = true
is_auth_error _ = false

abbrev pub auth_answer : Exc → Exc
auth_answer invalid_api_key = api_key_invalid
auth_answer _ = service_unavailable

module _ {W : Type 0} where
  unfoldable pub get_api_key_verifier : Option (ApiKeyVerifier W) → Exec W (ApiKeyVerifier W)
  get_api_key_verifier none = raise service_unavailable
  get_api_key_verifier (some verifier) = pure verifier

  unfoldable pub get_principal : Option Text → ApiKeyVerifier W → Exec W ApiPrincipal
  get_principal none verifier = raise api_key_required
  get_principal (some api_key) verifier =
      if is_empty api_key
      then raise api_key_required
      else try_except (verifier.verify api_key) is_auth_error (λ e. raise (auth_answer e))

  -- `set(required) <= principal.scopes`
  unfoldable pub require_scopes : List Text → ApiPrincipal → Exec W ApiPrincipal
  require_scopes required principal =
      if all (λ scope. mem_text scope principal.scopes) required
      then pure principal
      else raise insufficient_permissions

  -- The dependencies of a route in the order in which they are resolved.
  unfoldable pub authorize :
      List Text → Option (ApiKeyVerifier W) → Option Text → Exec W ApiPrincipal
  authorize required state api_key = do
    verifier ← get_api_key_verifier state
    principal ← get_principal api_key verifier
    require_scopes required principal
