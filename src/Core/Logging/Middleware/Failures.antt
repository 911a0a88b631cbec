-- ===== src/Core/Logging/Middleware/Failures.antt =====
-- The answer to a request that the application fails on.
use platinum_gold_backend.Prelude.{
  Bool, [], ◌∷◌, if◌then◌else◌, ℕ, ◌-◌, Text, codes, true, false, List, ◌≡◌,
}
use platinum_gold_backend.Errors.{Exc, is_exception, Outcome, ok, raised}
use platinum_gold_backend.Exec.{Exec}
use platinum_gold_backend.Core.Exceptions.{Response}
use platinum_gold_backend.Core.Log.{text, number}
use platinum_gold_backend.Core.Logging.{redact}
use platinum_gold_backend.Core.Logging.Middleware.{
  frame_fields, Message, response_start, other, Scope, App, done, fail, send_then, Runtime, Locals,
  send_with_request_id, run,
}

-- `await send(message)` and what follows it
abbrev pub after : {W : Type 0} → App W → Outcome (Unit {0}) → App W
after rest (ok sent) = rest
after rest (raised e) = fail e

-- `JSONResponse.__call__` of Starlette: a start with the status, then the body.
pub record Renders {W : Type 0} (runtime : Runtime W) : Type 0 where
  pub headers : Response → List (Text × Text)
  pub body : Response → Text
  pub json_response-start :
      (r : Response)
      → runtime.json_response r
        ≡ send_then
            (response_start r.status_code (headers r))
            (after (send_then (other (codes "http.response.body") (body r)) (after done)))

module _ {W : Type 0} (runtime : Runtime W) (renders : Renders runtime)
    (deliver : Message → W → W) where
  -- a server that takes every message
  abbrev pub accepts : Message → Exec W (Unit {0})
  accepts m w = (ok tt, deliver m w)

  -- the entry of an unhandled error, and the last entry of a request
  abbrev pub failed : Text → Exc → W → W
  failed request_id e w =
      runtime.log_error
        (record {
          event = codes "unhandled_request_error";
          extra =
              (codes "request_id", text request_id)
              ∷ (codes "exception_type", text (runtime.name_of e))
              ∷ frame_fields (runtime.last_frame e);
        })
        w

  abbrev pub completed : Text → Scope → ℕ → ℕ → W → W
  completed request_id scope started_at status w =
      let (now, w') = runtime.perf_counter w in
      runtime.log_info
        (record {
          event = codes "request_completed";
          extra =
              (codes "request_id", text request_id)
              ∷ (codes "method", text scope.method)
              ∷ (codes "path", text (redact scope.path))
              ∷ (codes "status", number status)
              ∷ (codes "duration_ms", number (now - started_at))
              ∷ [];
        })
        w'

  abbrev pub error_response : Response
  error_response = record {
    status_code = 500;
    error = record { code = codes "INTERNAL_ERROR"; message = codes "An internal error occurred" };
    headers = [];
  }

  -- the two messages of the error response, the first with the identifier
  abbrev pub replied : Text → Exc → W → W
  replied request_id e w =
      let headers =
        runtime.set_header (codes "X-Request-ID") request_id (renders.headers error_response) in
      deliver (other (codes "http.response.body") (renders.body error_response))
        (deliver (response_start 500 headers) (failed request_id e w))

  -- What a request comes to, after what the application has done.
  abbrev pub handled : Bool → Text → Scope → ℕ → Exc → Locals → W → Outcome (Unit {0}) × W
  handled true request_id scope started_at e l w =
      if l.response_started
      then (raised e, completed request_id scope started_at l.status (failed request_id e w))
      else (ok tt, completed request_id scope started_at 500 (replied request_id e w))
  handled false request_id scope started_at e l w =
      (raised e, completed request_id scope started_at l.status w)

  abbrev pub answered :
      Text → Scope → ℕ → Outcome (Unit {0}) × (Locals × W) → Outcome (Unit {0}) × W
  answered request_id scope started_at (ok _, (l, w)) =
      (ok tt, completed request_id scope started_at l.status w)
  answered request_id scope started_at (raised e, (l, w)) =
      handled (is_exception e) request_id scope started_at e l w

  -- what the application does, from the variables' first values
  abbrev pub ran : (Scope → App W) → Scope → Text → W → Outcome (Unit {0}) × (Locals × W)
  ran app scope request_id w =
      run (send_with_request_id runtime request_id accepts) (app scope)
        (record { status = 500; response_started = false }, w)
