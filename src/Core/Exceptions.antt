-- ===== src/Core/Exceptions.antt =====
-- app/core/exceptions.py: the responses that the exception handlers make.
use platinum_gold_backend.Prelude.{ℕ, Text, codes, ◌==◌, List, [], ◌++◌, if◌then◌else◌}
use platinum_gold_backend.Prelude.Decimal.{show}
use platinum_gold_backend.Errors.{Exc, app_error, http_exception, Outcome, ok, raised}

pub record ErrorDetail : Type 0 where
  pub code : Text
  pub message : Text

-- JSONResponse with the content of an ErrorResponse
pub record Response : Type 0 where
  pub status_code : ℕ
  pub error : ErrorDetail
  pub headers : List (Text × Text)

-- the code and the message of an HTTPException that is no AppError
abbrev pub detail_of : ℕ → ErrorDetail
detail_of status_code =
    if status_code == 404
    then record { code = codes "NOT_FOUND"; message = codes "Resource not found" }
    else record { code = codes "HTTP_" ++ show status_code; message = codes "Request failed" }

unfoldable pub http_exception_handler : Exc → Outcome Response
http_exception_handler (app_error status_code code message) = ok (record {
  status_code = status_code;
  error = record { code = code; message = message };
  headers = [];
})
http_exception_handler (http_exception status_code headers) =
    ok (record { status_code = status_code; error = detail_of status_code; headers = headers })
http_exception_handler e = raised e

unfoldable pub validation_exception_handler : Response
validation_exception_handler = record {
  status_code = 422;
  error = record { code = codes "VALIDATION_ERROR"; message = codes "Request validation failed" };
  headers = [];
}
