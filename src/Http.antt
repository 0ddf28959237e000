-- ===== src/Http.antt =====
-- What the handlers see of a request and set on the response (userver's HttpRequest and HttpResponse).
use Prim.Native.String.{String}
use leadertask_userver.Base.{
  ◌≡◌, ap, Bool, Option, none, some, List, [], ◌∷◌, Bytes, codes, Result, ok, err,
}
use leadertask_userver.Base.Int.{ℤ}
use leadertask_userver.Definitions.{Exception}
use leadertask_userver.Number.{to_string}

-- The answers of a parameter that is absent are empty texts.
pub record HttpRequest : Type 0 where
  pub get_header : String → Bytes
  pub get_arg : String → Bytes
  pub has_arg : String → Bool
  pub get_path_arg : String → Bytes

pub data HttpStatus : Type 0 where
  ok_200 created_201 bad_request_400 unauthorized_401 not_found_404 conflict_409
        too_many_requests_429 :
      HttpStatus

-- The value that a handler returns: that of `MakeError`, or a body of its own type.
pub data Payload {ℓ} (A : Type ℓ) : Type ℓ where
  error : String → Payload A
  value : A → Payload A

-- `status` is `none` if the handler leaves the response's status as it is.
pub record Reply {ℓ} (A : Type ℓ) : Type ℓ where
  pub status : Option HttpStatus
  pub headers : List (String × Bytes)
  pub payload : Payload A

-- A handler replies, or throws.
abbrev pub Outcome {ℓ} : Type ℓ → Type ℓ
Outcome A = Result Exception (Reply A)

module _ {ℓ} {A : Type ℓ} where
  -- `SetStatus(status); return MakeError(msg);`
  abbrev pub fail : HttpStatus → String → Outcome A
  fail st msg = ok (record { status = some st; headers = []; payload = error msg })

  -- `SetStatus(status); return ValueBuilder{body}.ExtractValue();`
  abbrev pub reply_with : HttpStatus → A → Outcome A
  reply_with st body = ok (record { status = some st; headers = []; payload = value body })

  -- `return ValueBuilder{body}.ExtractValue();`
  abbrev pub reply : A → Outcome A
  reply body = ok (record { status = none; headers = []; payload = value body })

  -- The answer of every handler to a call over the limit.
  unfoldable pub rate_limited : ℤ → Outcome A
  rate_limited remaining = ok (record {
    status = some too_many_requests_429;
    headers =
        ("X-RateLimit-Limit", codes "2")
        ∷ ("X-RateLimit-Remaining", to_string remaining)
        ∷ ("X-RateLimit-Reset", codes "1")
        ∷ [];
    payload = error "Rate limit exceeded";
  })

  abbrev body_or : A → Payload A → A
  body_or d (value a) = a
  body_or d (error msg) = d

  abbrev reply_body : A → Outcome A → A
  reply_body d (ok r) = body_or d r.payload
  reply_body d (err e) = d

  -- Replies with the same status are equal only for equal bodies.
  pub reply_with-injective : (st : HttpStatus) (a b : A) → reply_with st a ≡ reply_with st b → a ≡ b
  reply_with-injective st a b h = ap (reply_body b) h

  pub reply-injective : (a b : A) → reply a ≡ reply b → a ≡ b
  reply-injective a b h = ap (reply_body b) h
