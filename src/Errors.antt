-- ===== src/Errors.antt =====
-- utils/errors.ts: the errors that a handler throws, and the middleware that answers them.
use identity_platform.Prelude.{ℕ, String, Option, none, some}

pub record AppError : Type 0 where
  pub status_code : ℕ
  pub message : String
  pub code : Option String

-- What a handler throws. `unexpected` is any other exception, such as a lost database connection.
pub data Failure : Type 0 where
  zod_error : Failure
  app_error : AppError → Failure
  unexpected : Failure

abbrev pub bad_request : String → Option String → Failure
bad_request message code = app_error (record { status_code = 400; message = message; code = code })

abbrev pub unauthorized : String → Option String → Failure
unauthorized message code = app_error (record { status_code = 401; message = message; code = code })

abbrev pub forbidden : String → Option String → Failure
forbidden message code = app_error (record { status_code = 403; message = message; code = code })

abbrev pub not_found : String → Option String → Failure
not_found message code = app_error (record { status_code = 404; message = message; code = code })

abbrev pub conflict : String → Option String → Failure
conflict message code = app_error (record { status_code = 409; message = message; code = code })

abbrev pub too_many : String → Option String → Failure
too_many message code = app_error (record { status_code = 429; message = message; code = code })

abbrev pub bad_gateway : String → Option String → Failure
bad_gateway message code = app_error (record { status_code = 502; message = message; code = code })

-- The status and the `error` and `code` members of the answer.
pub record ErrorReply : Type 0 where
  pub status : ℕ
  pub error : String
  pub code : Option String

unfoldable pub error_handler : Failure → ErrorReply
error_handler zod_error = record {
  status = 400;
  error = "Validation failed";
  code = some "VALIDATION_ERROR";
}
error_handler (app_error e) = record { status = e.status_code; error = e.message; code = e.code }
error_handler unexpected = record { status = 500; error = "Internal server error"; code = none }
