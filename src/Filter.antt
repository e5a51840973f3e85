-- ===== src/Filter.antt =====
-- backend/src/common/filters/all-exceptions.filter.ts and
-- backend/src/common/errors/domain-exception.ts: what a client is answered when a handler throws.
-- The messages for people stand here as the source writes them. `V` holds the values of
-- JavaScript that the filter passes on or ignores unseen.
pub mod Hides
use runboard.Prelude.{
  ℕ, leb, ◌==◌, Bool, true, false, String, Option, none, some, List, [], ◌∷◌, if◌then◌else◌,
}
use text.Mathlib.Text.{◌==◌ as str_eq}

module _ (V : Type 0) where
  -- A field of type `unknown`.
  pub data JsValue : Type 0 where
    undefined null : JsValue
    string_value : String → JsValue
    other : V → JsValue

  -- `getResponse()`: an object with the fields that the filter reads, a string, or neither.
  pub data HttpResponse : Type 0 where
    object : (code message details : JsValue) → HttpResponse
    string : String → HttpResponse
    neither : HttpResponse

  pub record HttpException : Type 0 where
    pub status : ℕ
    pub response : HttpResponse
    pub message : String

  -- What a handler throws, by the `instanceof` tests of the filter.
  pub data Exception : Type 0 where
    http : HttpException → Exception
    known_request_error : (code message : String) → Exception
    unknown : V → Exception

  pub record ErrorBody : Type 0 where
    pub status_code : ℕ
    pub code : String
    pub message : String
    pub details : JsValue

  -- What the client receives, and the exceptions that are logged.
  pub record Answer : Type 0 where
    pub status : ℕ
    pub body : ErrorBody
    pub logged : List Exception

abbrev pub default_code_by_status : ℕ → Option String
default_code_by_status status =
    if status == 400
    then some "BAD_REQUEST"
    else if status == 401
    then some "UNAUTHORIZED"
    else if status == 403
    then some "FORBIDDEN"
    else if status == 404
    then some "NOT_FOUND"
    else if status == 409
    then some "CONFLICT"
    else none

-- `DEFAULT_CODE_BY_STATUS[status] ?? 'ERROR'`
abbrev pub default_code : ℕ → String
default_code status = elim (default_code_by_status status) [ none ↦ "ERROR" | some code ↦ code ]

module _ {V : Type 0} where
  -- `typeof value === 'string' ? value : fallback`
  abbrev pub text_or : String → JsValue V → String
  text_or fallback (string_value t) = t
  text_or fallback _ = fallback

  -- `value ?? null`
  abbrev pub or_null : JsValue V → JsValue V
  or_null undefined = null
  or_null value = value

  -- The DomainException of the given status, code, message and details.
  abbrev pub domain_exception : ℕ → String → String → JsValue V → HttpException V
  domain_exception status code message details = record {
    status = status;
    response = object (string_value code) (string_value message) details;
    message = message;
  }

  abbrev pub http_body : HttpException V → HttpResponse V → ErrorBody V
  http_body e (object code message details) = record {
    status_code = e.status;
    code = text_or (default_code e.status) code;
    message = text_or e.message message;
    details = or_null details;
  }
  http_body e (string t) = record {
    status_code = e.status;
    code = default_code e.status;
    message = t;
    details = null;
  }
  http_body e neither = record {
    status_code = e.status;
    code = default_code e.status;
    message = e.message;
    details = null;
  }

  abbrev pub conflict_body : ErrorBody V
  conflict_body = record {
    status_code = 409;
    code = "CONFLICT";
    message = "이미 존재하는 값입니다.";
    details = null;
  }

  abbrev pub internal_body : ErrorBody V
  internal_body = record {
    status_code = 500;
    code = "INTERNAL_ERROR";
    message = "서버 오류가 발생했습니다.";
    details = null;
  }

  unfoldable pub normalize : Exception V → ℕ × ErrorBody V
  normalize (http e) = (e.status, http_body e e.response)
  normalize (known_request_error code _) =
      if str_eq code "P2002" then (409, conflict_body) else (500, internal_body)
  normalize (unknown _) = (500, internal_body)

  unfoldable pub catch : Exception V → Answer V
  catch exception =
      let (status, body) = normalize exception in
      record {
        status = status;
        body = body;
        logged = if leb 500 status then exception ∷ [] else [];
      }
