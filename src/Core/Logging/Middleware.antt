-- ===== src/Core/Logging/Middleware.antt =====
-- app/core/logging.py: `RequestLoggingMiddleware`. An application is what it does in order: it reads
-- and changes the world, sends messages and goes on with what `send` returned or raised.
pub mod Failures
pub mod Paths
pub mod Tagging
use platinum_gold_backend.Prelude.{
  ℕ, ◌-◌, Text, codes, Bool, true, false, text_eq, Option, none, some, List, [], ◌∷◌, if◌then◌else◌,
}
use platinum_gold_backend.Errors.{Exc, is_exception, Outcome, ok, raised}
use platinum_gold_backend.Exec.{Exec, try_except, try_finally}
use platinum_gold_backend.Core.Config.{or_empty}
use platinum_gold_backend.Core.Exceptions.{ErrorDetail, Response}
use platinum_gold_backend.Core.Log.{Field, text, number, absent, LogRecord}
use platinum_gold_backend.Core.Logging.{is_request_id, redact}

-- An ASGI message: "http.response.start" with its status and headers, or another type and content.
pub data Message : Type 0 where
  response_start : ℕ → List (Text × Text) → Message
  other : Text → Text → Message

pub record Scope : Type 0 where
  pub type : Text
  pub method : Text
  pub path : Text
  pub headers : List (Text × Text)

pub data App (W : Type 0) : Type 0 where
  done : App W
  fail : Exc → App W
  send_then : Message → (Outcome (Unit {0}) → App W) → App W
  reads : (W → App W) → App W
  writes : (W → W) → App W → App W

-- A frame of a traceback.
pub record Frame : Type 0 where
  pub filename : Text
  pub name : Text
  pub lineno : ℕ

-- What the middleware calls: Starlette's headers (`get` and item assignment) and `JSONResponse`,
-- uuid4, perf_counter in microseconds, the name and the last frame of an exception, the logger.
pub record Runtime (W : Type 0) : Type 0 where
  pub get_header : Text → List (Text × Text) → Option Text
  pub set_header : Text → Text → List (Text × Text) → List (Text × Text)
  pub json_response : Response → App W
  pub uuid4 : W → Text × W
  pub perf_counter : W → ℕ × W
  pub name_of : Exc → Text
  pub last_frame : Exc → Option Frame
  pub log_error : LogRecord → W → W
  pub log_info : LogRecord → W → W

-- the variables that `send_with_request_id` rebinds
pub record Locals : Type 0 where
  pub status : ℕ
  pub response_started : Bool

abbrev pub request_id_header : Text
request_id_header = codes "X-Request-ID"

-- An application that runs beside local variables of its caller.
unfoldable pub run :
    {W L : Type 0} → (Message → Exec (L × W) (Unit {0})) → App W → Exec (L × W) (Unit {0})
run send done s = (ok tt, s)
run send (fail e) s = (raised e, s)
run send (send_then m k) s = run send (k (send m s).0) (send m s).1
run send (reads f) (l, w) = run send (f w) (l, w)
run send (writes f app) (l, w) = run send app (l, f w)

abbrev pub frame_fields : Option Frame → List (Text × Field)
frame_fields none =
    (codes "exception_file", absent)
    ∷ (codes "exception_function", absent)
    ∷ (codes "exception_line", absent)
    ∷ []
frame_fields (some frame) =
    (codes "exception_file", text frame.filename)
    ∷ (codes "exception_function", text frame.name)
    ∷ (codes "exception_line", number frame.lineno)
    ∷ []

abbrev pub internal_error : Response
internal_error = record {
  status_code = 500;
  error = record { code = codes "INTERNAL_ERROR"; message = codes "An internal error occurred" };
  headers = [];
}

abbrev pub unhandled_request_error : Text → Text → Option Frame → LogRecord
unhandled_request_error request_id name frame = record {
  event = codes "unhandled_request_error";
  extra =
      (codes "request_id", text request_id)
      ∷ (codes "exception_type", text name)
      ∷ frame_fields frame;
}

abbrev pub request_completed : Text → Scope → ℕ → ℕ → LogRecord
request_completed request_id scope status duration = record {
  event = codes "request_completed";
  extra =
      (codes "request_id", text request_id)
      ∷ (codes "method", text scope.method)
      ∷ (codes "path", text (redact scope.path))
      ∷ (codes "status", number status)
      ∷ (codes "duration_ms", number duration)
      ∷ [];
}

module _ {W : Type 0} (runtime : Runtime W) where
  -- the client's identifier if it has the form of one, else a new one
  abbrev pub request_id_of : Scope → W → Text × W
  request_id_of scope w =
      let candidate = or_empty (runtime.get_header request_id_header scope.headers) in
      if is_request_id candidate then (candidate, w) else runtime.uuid4 w

  abbrev pub send_with_request_id :
      Text → (Message → Exec W (Unit {0})) → Message → Exec (Locals × W) (Unit {0})
  send_with_request_id request_id send (response_start status headers) (l, w) =
      let tagged =
        response_start status (runtime.set_header request_id_header request_id headers) in
      let (r, w') = send tagged w in (r, (record { status = status; response_started = true }, w'))
  send_with_request_id request_id send (other type content) (l, w) =
      let (r, w') = send (other type content) w in (r, (l, w'))

  -- `except Exception`
  abbrev pub answer_error :
      Text → (Message → Exec (Locals × W) (Unit {0})) → Exc → Exec (Locals × W) (Unit {0})
  answer_error request_id send e (l, w) =
      let entry = unhandled_request_error request_id (runtime.name_of e) (runtime.last_frame e) in
      let logged = runtime.log_error entry w in
      if l.response_started
      then (raised e, (l, logged))
      else run send (runtime.json_response internal_error) (l, logged)

  -- `finally`; the milliseconds have three decimals, which makes them a number of microseconds
  abbrev pub log_completed : Text → Scope → ℕ → Exec (Locals × W) (Unit {0})
  log_completed request_id scope started_at (l, w) =
      let (now, w') = runtime.perf_counter w in
      let entry = request_completed request_id scope l.status (now - started_at) in
      (ok tt, (l, runtime.log_info entry w'))

  abbrev pub initial : Locals
  initial = record { status = 500; response_started = false }

  -- the body of the call once the identifier is chosen
  unfoldable pub respond :
      (Scope → App W) → Scope → Text → (Message → Exec (Locals × W) (Unit {0})) → Exec W (Unit {0})
  respond app scope request_id send w =
      let (started_at, w') = runtime.perf_counter w in
      let (r, (l, w'')) =
        try_finally (try_except (run send (app scope)) is_exception (answer_error request_id send))
          (log_completed request_id scope started_at) (initial, w') in
      (r, w'')

  -- `send` of a scope that is not of HTTP, where there are no variables
  abbrev pub plainly : (Message → Exec W (Unit {0})) → Message → Exec (Unit {0} × W) (Unit {0})
  plainly send m (l, w) = let (r, w') = send m w in (r, (l, w'))

  -- `__call__`
  unfoldable pub call : (Scope → App W) → Scope → (Message → Exec W (Unit {0})) → Exec W (Unit {0})
  call app scope send w =
      if text_eq scope.type (codes "http")
      then (let (request_id, w') = request_id_of scope w in
          respond app scope request_id (send_with_request_id request_id send) w')
      else (let (r, (l, w')) = run (plainly send) (app scope) (tt, w) in (r, w'))
