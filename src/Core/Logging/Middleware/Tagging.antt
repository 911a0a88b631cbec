-- ===== src/Core/Logging/Middleware/Tagging.antt =====
-- The identifier of a request on the responses to it.
use platinum_gold_backend.Prelude.{Text, codes, true, text_eq, some, List, ◌≡◌, ap}
use mathlib.Core.Path.{fun_ext}
use platinum_gold_backend.Exec.{Exec}
use platinum_gold_backend.Core.Logging.Middleware.{
  Message, response_start, other, Scope, App, Runtime, Locals, request_id_header, request_id_of,
  send_with_request_id, respond, call,
}

-- `MutableHeaders` and `Headers` of Starlette: a header that was assigned is the one that is read.
pub record Headers {W : Type 0} (runtime : Runtime W) : Type 0 where
  pub get-set :
      (name value : Text) (headers : List (Text × Text))
      → runtime.get_header name (runtime.set_header name value headers) ≡ some value

module _ {W : Type 0} (runtime : Runtime W) (laws : Headers runtime) where
  -- A start of a response says in its header which request it answers.
  unfoldable pub IsTagged : Text → Message → Type 0
  IsTagged request_id (response_start status headers) =
      runtime.get_header request_id_header headers ≡ some request_id
  IsTagged request_id (other type content) = Unit

  send_with_request_id-agree :
      (request_id : Text) (s t : Message → Exec W (Unit {0}))
      → ((m : Message) → IsTagged request_id m → (w : W) → s m w ≡ t m w)
      → (m : Message) (state : Locals × W)
      → send_with_request_id runtime request_id s m state
        ≡ send_with_request_id runtime request_id t m state
  unfolding IsTagged
  send_with_request_id-agree request_id s t agree (response_start status headers) (l, w) = rw (
      agree (response_start status (runtime.set_header request_id_header request_id headers))
        (laws.get-set request_id_header request_id headers) w)
  send_with_request_id-agree request_id s t agree (other type content) (l, w) =
      rw (agree (other type content) tt w)

  -- The course of a request depends on what `send` does with a start of a response only for starts
  -- that carry the identifier of the request: no other start is sent, whatever the application does.
  pub call-IsTagged :
      (app : Scope → App W) (scope : Scope) (w : W) (s t : Message → Exec W (Unit {0}))
      → text_eq scope.type (codes "http") ≡ true
      → ((m : Message) → IsTagged (request_id_of runtime scope w).0 m → (v : W) → s m v ≡ t m v)
      → call runtime app scope s w ≡ call runtime app scope t w
  unfolding call
  call-IsTagged app scope w s t http agree =
      let id = request_id_of runtime scope w in
      let same = fun_ext λ m. fun_ext λ state. send_with_request_id-agree id.0 s t agree m state in
      rw http (ap (λ send. respond runtime app scope id.0 send id.1) same)
