-- ===== src/Auth/Tests.antt =====
-- Requests with keys that a fake Clerk knows, and the theorems at these requests.
use platinum_gold_backend.Prelude.{
  Text, codes, text_eq, Option, some, List, [], ◌∷◌, ◌≡◌, ◌↔◌, refl,
}
use platinum_gold_backend.Errors.{is_exception, Outcome, ok, raised}
use platinum_gold_backend.Auth.{
  ApiPrincipal, verification_failure, scopes_of, principal_of, clerk, clerk_verify, api_key_invalid,
  get_api_key_verifier, get_principal, require_scopes, authorize,
}
use platinum_gold_backend.Auth.Access.{IsGranted, authorize-IsGranted_iff}
use platinum_gold_backend.Auth.Responses.{IsRefusal, authorize-IsRefusal}
use platinum_gold_backend.Auth.Samples.{verify_api_key}

abbrev required : List Text
required = codes "api:access" ∷ []

abbrev user : ApiPrincipal
user = record { user_id = codes "user_1"; scopes = codes "api:access" ∷ codes "other" ∷ [] }

abbrev answer : Option Text → Outcome ApiPrincipal
answer api_key = (authorize required (some (clerk verify_api_key 2000)) api_key tt).0

running : Unit {0}
unfolding is_exception authorize get_api_key_verifier get_principal clerk_verify
    verification_failure principal_of scopes_of require_scopes text_eq
running = tt

lets_in : answer (some (codes "ak_1")) ≡ ok user
unfolding running
lets_in = refl

refuses : answer (some (codes "ak_2")) ≡ raised api_key_invalid
unfolding running
refuses = refl

authorize-IsGranted_iff_example :
    (answer (some (codes "ak_1")) ≡ ok user)
    ↔ IsGranted verify_api_key 2000 required (some (codes "ak_1")) tt user
authorize-IsGranted_iff_example =
    authorize-IsGranted_iff verify_api_key 2000 required (some (codes "ak_1")) tt user

authorize-IsRefusal_example : IsRefusal api_key_invalid
authorize-IsRefusal_example =
    authorize-IsRefusal verify_api_key 2000 required (some (codes "ak_2")) tt api_key_invalid
      refuses
