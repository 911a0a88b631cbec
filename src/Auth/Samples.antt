-- ===== src/Auth/Samples.antt =====
-- A Clerk that knows one key.
use platinum_gold_backend.Prelude.{ℕ, Text, codes, false, text_eq, some, if◌then◌else◌}
use platinum_gold_backend.Errors.{clerk_base_error, ok, raised}
use platinum_gold_backend.Exec.{Exec}
use platinum_gold_backend.Value.{str, arr, cons, nil}
use platinum_gold_backend.Auth.{VerifiedKey}

abbrev pub known_key : VerifiedKey
known_key = record {
  expired = false;
  revoked = false;
  subject = some (str (codes "user_1"));
  scopes = some (arr (cons (str (codes "api:access")) (cons (str (codes "other")) nil)));
}

abbrev pub verify_api_key : {W : Type 0} → Text → ℕ → Exec W VerifiedKey
verify_api_key secret timeout_ms w =
    (if text_eq secret (codes "ak_1") then ok known_key else raised (clerk_base_error 404), w)
