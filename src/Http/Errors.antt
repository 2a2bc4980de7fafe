-- ===== src/Http/Errors.antt =====
-- src/common/filters/http-exception.filter.ts: the body of an answer to a request that failed, but for
-- its time. A number is what `Number(…)` makes of it.
use logistics_dispatch.Common.{
  Bool-cases, List, Option, [], arith, if◌then◌else◌, inl, inr, none, refl, some, ℕ, ◌*◌, ◌+◌, ◌-◌,
  ◌/◌, ◌<◌, ◌==◌, ◌∷◌, ◌≡◌, ◌≤◌,
}
use Prim.Native.String.{String}
use logistics_dispatch.Dispatch.Config.{EnvNumber, below_zero, fraction, not_finite}
use native.Mathlib.Nat.{lt-mul-div-succ, mul-div-le}

pub data Message : Type 0 where
  one_message : String → Message
  messages : List String → Message

-- `exception.getResponse()`: a text, or an object that may have a message.
pub data ExceptionResponse : Type 0 where
  text_response : String → ExceptionResponse
  object_response : Option Message → ExceptionResponse

-- What was thrown: an `HttpException` with its status, or anything else.
pub data Thrown : Type 0 where
  http_exception : ℕ → ExceptionResponse → Thrown
  other_error : Thrown

-- The header `Retry-After` of the response.
pub data RetryAfterHeader : Type 0 where
  absent : RetryAfterHeader
  as_number as_text : EnvNumber → RetryAfterHeader
  as_texts : List EnvNumber → RetryAfterHeader

pub record ErrorResponseBody : Type 0 where
  pub status_code : ℕ
  pub path : String
  pub method : String
  pub message : Message
  pub code : Option String
  pub retry_after : Option ℕ

-- `Math.ceil` of a number that is finite and not below zero.
abbrev pub ceil_number : EnvNumber → Option ℕ
ceil_number not_finite = none
ceil_number below_zero = none
ceil_number (fraction top bottom) = some ((top + (bottom - 1)) / bottom)

-- `normalizeRetryAfterSeconds`
unfoldable pub normalize_retry_after_seconds : RetryAfterHeader → Option ℕ
normalize_retry_after_seconds absent = none
normalize_retry_after_seconds (as_number v) = ceil_number v
normalize_retry_after_seconds (as_text v) = ceil_number v
normalize_retry_after_seconds (as_texts []) = none
normalize_retry_after_seconds (as_texts (v ∷ vs)) = ceil_number v

abbrev pub thrown_status : Thrown → ℕ
thrown_status (http_exception status response) = status
thrown_status other_error = 500

abbrev pub thrown_message : Thrown → Message
thrown_message (http_exception status (text_response text)) = one_message text
thrown_message (http_exception status (object_response (some m))) = m
thrown_message (http_exception status (object_response none)) = one_message "Internal server error"
thrown_message other_error = one_message "Internal server error"

-- `HttpExceptionFilter.catch`
unfoldable pub catch_exception : Thrown → RetryAfterHeader → String → String → ErrorResponseBody
unfolding normalize_retry_after_seconds
catch_exception thrown header path method =
    let limited = thrown_status thrown == 429 in
    record {
      status_code = thrown_status thrown;
      path = path;
      method = method;
      message = thrown_message thrown;
      code = if limited then some "RATE_LIMITED" else none;
      retry_after = if limited then normalize_retry_after_seconds header else none;
    }

-- The number that a header stands for.
abbrev value_of : RetryAfterHeader → Option EnvNumber
value_of absent = none
value_of (as_number v) = some v
value_of (as_text v) = some v
value_of (as_texts []) = none
value_of (as_texts (v ∷ vs)) = some v

normalize-value_of :
    (header : RetryAfterHeader) (n : ℕ)
    → normalize_retry_after_seconds header ≡ some n
    → (v : EnvNumber) × (value_of header ≡ some v) × (ceil_number v ≡ some n)
unfolding normalize_retry_after_seconds
normalize-value_of absent n e = absurd (cc)
normalize-value_of (as_number v) n e = (v, refl, e)
normalize-value_of (as_text v) n e = (v, refl, e)
normalize-value_of (as_texts []) n e = absurd (cc)
normalize-value_of (as_texts (v ∷ vs)) n e = (v, refl, e)

-- `n` is the first whole number that is not less than `top / bottom`.
abbrev IsCeil : ℕ → EnvNumber → Type 0
IsCeil n (fraction top bottom) = 0 < bottom → (top ≤ n * bottom) × (n * bottom < top + bottom)
IsCeil n _ = ⊥

ceil_number-IsCeil : (v : EnvNumber) (n : ℕ) → ceil_number v ≡ some n → IsCeil n v
ceil_number-IsCeil not_finite n e = absurd (cc)
ceil_number-IsCeil below_zero n e = absurd (cc)
ceil_number-IsCeil (fraction top bottom) n e = λ positive.
    let a = top + (bottom - 1) in
    let same : a / bottom ≡ n = ground arith in
    let below = mul-div-le a bottom in
    let above = lt-mul-div-succ a positive in (grind arith, grind arith)

-- An answer says how long to wait only if its status is 429, and then it has the code of a rate limit;
-- the seconds are the number of the header, which is finite and not below zero, rounded up.
catch_exception-IsCeil :
    (thrown : Thrown) (header : RetryAfterHeader) (path method : String) (n : ℕ)
    → (catch_exception thrown header path method).retry_after ≡ some n
    → let body = catch_exception thrown header path method in
      (body.status_code ≡ 429)
      × (body.code ≡ some "RATE_LIMITED")
      × ((v : EnvNumber) × (value_of header ≡ some v) × IsCeil n v)
unfolding catch_exception
catch_exception-IsCeil thrown header path method n e =
    elim (Bool-cases (thrown_status thrown == 429)) [
      | inr other ↦ absurd (ground arith)
      | inl limited ↦
          let given : normalize_retry_after_seconds header ≡ some n = ground arith in
          let (v, known, up) = normalize-value_of header n given in
          (ground arith, ground arith, (v, known, ceil_number-IsCeil v n up))
    ]
