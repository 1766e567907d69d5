-- ===== src/Errors.antt =====
-- apps/api/src/common/filters/all-exceptions.filter.ts: what a client is told of an exception. The
-- identifier of the request and the server's own log are left out.
pub mod Laws
use tax_professional_managem.Common.{
  ℕ, Bool, true, false, List, [], ◌∷◌, map, Option, none, some, ◌==◌, if◌then◌else◌, String,
}

-- The field `message` of the object that an `HttpException` of NestJS carries.
pub data MessageField : Type 0 where
  one : String → MessageField
  several : List String → MessageField
  missing : MessageField

-- What `getResponse` of an `HttpException` gives: an object, or something else.
pub data HttpBody : Type 0 where
  object : MessageField → HttpBody
  plain : HttpBody

-- An `AppError` with its status, code and message; an `HttpException` with its status, message and
-- body; anything else that is thrown.
pub data Exception : Type 0 where
  app_error : ℕ → String → String → Exception
  http_exception : ℕ → String → HttpBody → Exception
  unknown : Exception

-- The answer: status, code, message, and the messages of the failed validations.
pub record ErrorAnswer : Type 0 where
  pub status : ℕ
  pub code : String
  pub message : String
  pub details : Option (List String)

unfoldable pub default_code_for_status : ℕ → String
default_code_for_status status =
    if status == 400
    then "VALIDATION_ERROR"
    else if status == 401
    then "UNAUTHORIZED"
    else if status == 403
    then "FORBIDDEN"
    else if status == 404
    then "NOT_FOUND"
    else if status == 409
    then "CONFLICT"
    else if status == 429
    then "RATE_LIMITED"
    else "INTERNAL_ERROR"

abbrev pub http_answer : ℕ → String → HttpBody → ErrorAnswer
http_answer status message (object (one text)) = record {
  status = status;
  code = default_code_for_status status;
  message = text;
  details = none;
}
http_answer status message (object (several texts)) = record {
  status = status;
  code = "VALIDATION_ERROR";
  message = "Validation failed";
  details = some texts;
}
http_answer status message (object missing) = record {
  status = status;
  code = default_code_for_status status;
  message = message;
  details = none;
}
http_answer status message plain = record {
  status = status;
  code = default_code_for_status status;
  message = message;
  details = none;
}

abbrev pub unexpected : String
unexpected = "An unexpected error occurred"

abbrev pub first_answer : Exception → ErrorAnswer
first_answer (app_error status code message) = record {
  status = status;
  code = code;
  message = message;
  details = none;
}
first_answer (http_exception status message body) = http_answer status message body
first_answer unknown = record {
  status = 500;
  code = "INTERNAL_ERROR";
  message = unexpected;
  details = none;
}

-- `catch`
unfoldable pub answer_for : Exception → ErrorAnswer
answer_for e =
    let a = first_answer e in if a.status == 500 then record a { message = unexpected } else a
