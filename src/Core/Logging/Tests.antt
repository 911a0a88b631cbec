-- ===== src/Core/Logging/Tests.antt =====
-- A request in a world of sent messages and log entries, and the theorems at it.
use platinum_gold_backend.Prelude.{
  Text, codes, Bool, true, false, text_eq, text_eq_refl, Option, none, some, List, [], ◌∷◌, ◌++◌,
  ◌≡◌, refl, if◌then◌else◌,
}
use platinum_gold_backend.Errors.{unexpected, is_exception, ok}
use platinum_gold_backend.Exec.{Exec}
use platinum_gold_backend.Core.Exceptions.{Response}
use platinum_gold_backend.Core.Log.{text, number, absent, LogRecord}
use platinum_gold_backend.Core.Logging.{is_request_id, redact_from, redact, format}
use platinum_gold_backend.Core.Logging.Redaction.{has_api_key, has_api_key-redact}
use platinum_gold_backend.Core.Logging.Middleware.{
  Message, response_start, other, Scope, App, done, fail, send_then, Runtime, request_id_header,
  run, respond, call,
}
use platinum_gold_backend.Core.Logging.Middleware.Failures.{Renders, after, accepts}
use platinum_gold_backend.Core.Logging.Middleware.Tagging.{Headers, IsTagged, call-IsTagged}

accepts_ids : is_request_id (codes "req-1.a_b") ≡ true
unfolding is_request_id
accepts_ids = refl

refuses_ids : is_request_id (codes "-req 1") ≡ false
unfolding is_request_id
refuses_ids = refl

redacts : redact (codes "/v1/ak_12-3/ak_/x") ≡ codes "/v1/ak_[REDACTED]/ak_/x"
unfolding redact redact_from
redacts = refl

leaves_no_key : has_api_key (redact (codes "/v1/ak_ak_1")) ≡ false
leaves_no_key = has_api_key-redact (codes "/v1/ak_ak_1")

abbrev entry : LogRecord
entry = record {
  event = codes "e";
  extra =
      (codes "status", number 500)
      ∷ (codes "other", number 1)
      ∷ (codes "exception_file", absent)
      ∷ (codes "method", text (codes "GET"))
      ∷ [];
}

formats :
    format (codes "now") (codes "INFO") entry
    ≡ (codes "timestamp", text (codes "now"))
      ∷ (codes "level", text (codes "INFO"))
      ∷ (codes "event", text (codes "e"))
      ∷ (codes "method", text (codes "GET"))
      ∷ (codes "status", number 500)
      ∷ []
unfolding format text_eq
formats = refl

record World : Type 0 where
  sent : List Message
  entries : List LogRecord

abbrev get_header : Text → List (Text × Text) → Option Text
get_header name [] = none
get_header name ((key, value) ∷ headers) =
    let rest = get_header name headers in if text_eq key name then some value else rest

abbrev deliver : Message → World → World
deliver m w = record { sent = w.sent ++ (m ∷ []); entries = w.entries }

abbrev write_entry : LogRecord → World → World
write_entry e w = record { sent = w.sent; entries = w.entries ++ (e ∷ []) }

abbrev json : Text
json = codes "application/json"

abbrev start_headers : Response → List (Text × Text)
start_headers r = (codes "content-type", json) ∷ []

abbrev runtime : Runtime World
runtime = record {
  get_header = get_header;
  set_header = λ name value headers. (name, value) ∷ headers;
  json_response = λ r.
      send_then (response_start r.status_code (start_headers r))
        (after (send_then (other (codes "http.response.body") r.error.code) (after done)));
  uuid4 = λ w. (codes "new", w);
  perf_counter = λ w. (5, w);
  name_of = λ e. codes "KeyError";
  last_frame = λ e. some (record { filename = codes "a.py"; name = codes "f"; lineno = 3 });
  log_error = write_entry;
  log_info = write_entry;
}

headers : Headers runtime
headers = record { get-set = λ name value headers. rw (text_eq_refl name) }

abbrev renders : Renders runtime
renders = record {
  headers = start_headers;
  body = λ r. r.error.code;
  json_response-start = λ r. refl;
}

abbrev scope : Scope
scope = record {
  type = codes "http";
  method = codes "GET";
  path = codes "/v1/items";
  headers = (request_id_header, codes "req-1") ∷ [];
}

abbrev empty : World
empty = record { sent = []; entries = [] }

abbrev answers : Scope → App World
answers _ =
    send_then (response_start 200 [])
      λ r. send_then (other (codes "http.response.body") []) λ r. done

abbrev breaks : Scope → App World
breaks _ = fail (unexpected (codes "KeyError"))

running : Unit {0}
unfolding call respond run is_exception is_request_id text_eq
running = tt

-- The client sees the status, and its own identifier.
tags :
    (call runtime answers scope (accepts runtime renders deliver) empty).1.sent
    ≡ response_start 200 ((request_id_header, codes "req-1") ∷ [])
      ∷ other (codes "http.response.body") []
      ∷ []
unfolding running
tags = refl

abbrev is_same : Option Text → Bool
is_same none = false
is_same (some id) = text_eq id (codes "req-1")

-- A send that loses each start of a response without the identifier.
abbrev strict : Message → Exec World (Unit {0})
strict (response_start status headers) w = (
  ok tt,
  if is_same (get_header request_id_header headers)
      then deliver (response_start status headers) w
      else w,
)
strict (other type content) w = (ok tt, deliver (other type content) w)

agree :
    (m : Message)
    → IsTagged runtime headers (codes "req-1") m
    → (w : World) → accepts runtime renders deliver m w ≡ strict m w
unfolding IsTagged running
agree (response_start status headers) h w = rw h
agree (other type content) h w = refl

call-IsTagged_example :
    call runtime answers scope (accepts runtime renders deliver) empty
    ≡ call runtime answers scope strict empty
unfolding running
call-IsTagged_example =
    call-IsTagged runtime headers answers scope empty (accepts runtime renders deliver) strict refl
      agree
