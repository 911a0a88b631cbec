-- ===== src/Auth/Access.antt =====
-- Who is let in: exactly the holder of a key that Clerk verifies, with every scope required.
use platinum_gold_backend.Prelude.{
  ℕ, Text, true, false, ◌||◌, all, mem_text, is_empty, Option, none, some, List, ◌≡◌, ◌↔◌, refl,
  sym, ap, arith, Bool-cases, inl, inr,
}
use platinum_gold_backend.Errors.{Exc, ok, raised, is_exception}
use platinum_gold_backend.Exec.{Exec, raise, lift, try_except, >>=-eq-ok, try_except-eq-ok}
use platinum_gold_backend.Value.{Value, str}
use platinum_gold_backend.Auth.{
  ApiPrincipal, VerifiedKey, scopes_of, with_subject, principal_of, clerk, clerk_verify,
  verification_failure, is_auth_error, auth_answer, get_api_key_verifier, get_principal,
  require_scopes, authorize,
}

-- Clerk's result stands for the principal.
pub record IsPrincipalOf (result : VerifiedKey) (p : ApiPrincipal) : Type 0 where
  pub not_expired : result.expired ≡ false
  pub not_revoked : result.revoked ≡ false
  pub subject : result.subject ≡ some (str p.user_id)
  pub named : is_empty p.user_id ≡ false
  pub scopes : p.scopes ≡ scopes_of result.scopes

with_subject-ok :
    (o : Option Value) (scopes : List Text) (p : ApiPrincipal)
    → with_subject o scopes ≡ ok p
    → (o ≡ some (str p.user_id)) × (is_empty p.user_id ≡ false) × (p.scopes ≡ scopes)
with_subject-ok none scopes p h = cc
with_subject-ok (some (str s)) scopes p h = elim (Bool-cases (is_empty s)) [
  | inl e ↦ absurd (ground arith)
  | inr e ↦ ground arith
]
with_subject-ok (some v) scopes p h = absurd (ground arith)

pub principal_of-IsPrincipalOf :
    (result : VerifiedKey) (p : ApiPrincipal) → principal_of result ≡ ok p → IsPrincipalOf result p
unfolding principal_of
principal_of-IsPrincipalOf result p h = elim (Bool-cases (result.expired || result.revoked)) [
  | inl dead ↦ absurd (ground arith)
  | inr live ↦
      let (subject, named, scopes) =
        with_subject-ok result.subject (scopes_of result.scopes) p (rw live at h) in
      record {
        not_expired = ground arith;
        not_revoked = ground arith;
        subject = subject;
        named = named;
        scopes = scopes;
      }
]

principal_of-ok :
    (result : VerifiedKey) (p : ApiPrincipal) → IsPrincipalOf result p → principal_of result ≡ ok p
unfolding principal_of
principal_of-ok result p h =
    rw (h.not_expired, h.not_revoked)
      (rw h.subject
        (rw h.named (ap (λ s. ok (record { user_id = p.user_id; scopes = s })) (sym h.scopes))))

module _ {W : Type 0} (verify_api_key : Text → ℕ → Exec W VerifiedKey) (timeout_ms : ℕ)
    (required : List Text) where
  -- The key is given, Clerk verifies it, and the principal has what is required.
  pub record IsGranted (api_key : Option Text) (w : W) (p : ApiPrincipal) : Type 0 where
    pub secret : Text
    pub result : VerifiedKey
    pub given : api_key ≡ some secret
    pub nonempty : is_empty secret ≡ false
    pub verified : (verify_api_key secret timeout_ms w).0 ≡ ok result
    pub principal : IsPrincipalOf result p
    pub permitted : all (λ scope. mem_text scope p.scopes) required ≡ true

  clerk_verify-eq-ok :
      (secret : Text) (w : W) (p : ApiPrincipal)
      → (clerk_verify verify_api_key timeout_ms secret w).0 ≡ ok p
      → (result : VerifiedKey) × ((verify_api_key secret timeout_ms w).0 ≡ ok result)
        × IsPrincipalOf result p
  unfolding clerk_verify
  clerk_verify-eq-ok secret w p h =
      let call : Exec W VerifiedKey =
        try_except (verify_api_key secret timeout_ms) is_exception
          (λ e. raise (verification_failure e)) in
      let (result, e, rest) = >>=-eq-ok call (λ r. lift (principal_of r)) w h in
      (
        result,
        try_except-eq-ok (verify_api_key secret timeout_ms) is_exception verification_failure w
            result e,
        principal_of-IsPrincipalOf result p rest,
      )

  key_of_principal :
      (api_key : Option Text) (w : W) (p : ApiPrincipal)
      → (get_principal api_key (clerk verify_api_key timeout_ms) w).0 ≡ ok p
      → all (λ scope. mem_text scope p.scopes) required ≡ true
      → IsGranted api_key w p
  unfolding get_principal
  key_of_principal none w p h permitted = cc
  key_of_principal (some secret) w p h permitted = elim (Bool-cases (is_empty secret)) [
    | inl e ↦ absurd (ground arith)
    | inr e ↦
        let (result, verified, principal) = clerk_verify-eq-ok secret w p (
          try_except-eq-ok (clerk_verify verify_api_key timeout_ms secret) is_auth_error auth_answer
            w p (rw e at h)) in
        record {
          secret = secret;
          result = result;
          given = refl;
          nonempty = e;
          verified = verified;
          principal = principal;
          permitted = permitted;
        }
  ]

  require_scopes-eq-ok :
      (q p : ApiPrincipal) (w : W)
      → (require_scopes required q w).0 ≡ ok p
      → (q ≡ p) × (all (λ scope. mem_text scope q.scopes) required ≡ true)
  unfolding require_scopes
  require_scopes-eq-ok q p w h =
      elim (Bool-cases (all (λ scope. mem_text scope q.scopes) required)) [
        | inl e ↦ (of_ok (rw e at h), e)
        | inr e ↦ absurd (ok-ne-raised (sym (rw e at h)))
      ]
    where
      of_ok : {a b : ApiPrincipal} → ok a ≡ ok b → a ≡ b
      of_ok x = cc

      ok-ne-raised : {x : Exc} {a : ApiPrincipal} → ok a ≡ raised x → ⊥
      ok-ne-raised x = cc

  granted :
      (api_key : Option Text) (w : W) (p : ApiPrincipal)
      → (authorize required (some (clerk verify_api_key timeout_ms)) api_key w).0 ≡ ok p
      → IsGranted api_key w p
  unfolding authorize get_api_key_verifier
  granted api_key w p h =
      let (q, e, rest) =
        >>=-eq-ok (get_principal api_key (clerk verify_api_key timeout_ms))
          (require_scopes required) w h in
      let (same, permitted) = require_scopes-eq-ok q p _ rest in
      key_of_principal api_key w p (rw (← same) e) (rw (← same) permitted)

  lets_in :
      (api_key : Option Text) (w : W) (p : ApiPrincipal)
      → IsGranted api_key w p
      → (authorize required (some (clerk verify_api_key timeout_ms)) api_key w).0 ≡ ok p
  unfolding authorize get_api_key_verifier get_principal clerk_verify require_scopes
  lets_in api_key w p g =
      rw g.given (
        rw g.nonempty
          (rw g.verified (rw (principal_of-ok g.result p g.principal) (rw g.permitted))))

  -- A request is let in as the principal p exactly if it gives a non-empty key that Clerk verifies
  -- as not expired, not revoked and of the non-empty subject p, and p has every required scope.
  pub authorize-IsGranted_iff :
      (api_key : Option Text) (w : W) (p : ApiPrincipal)
      → ((authorize required (some (clerk verify_api_key timeout_ms)) api_key w).0 ≡ ok p)
        ↔ IsGranted api_key w p
  authorize-IsGranted_iff api_key w p = (granted api_key w p, lets_in api_key w p)
