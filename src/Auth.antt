-- ===== src/Auth.antt =====
-- `JwtChecker` of src/auth/jwt_auth_checker.cpp: the check of the header `Authorization` that stands before
-- every handler with the type `jwt-auth`.
pub mod Bearer
pub mod Login
pub mod SignUp
use Prim.Native.String
use Prim.Native.String.{String}
use mathlib.Core.Bool.{not}
use leadertask_userver.Base.{
  Bool, true, false, Option, none, some, List, [], ◌∷◌, Bytes, codes, is_empty, if◌then◌else◌,
  Result, ok, err,
}
use leadertask_userver.Base.Int.{ℤ}
use leadertask_userver.Number.{stoll, value_of}
use leadertask_userver.Substring.{has_prefix}
use leadertask_userver.RateLimit.{UserId}
use leadertask_userver.Http.{HttpStatus, unauthorized_401}
use leadertask_userver.Services.Tokens.{Tokens, TokenError, token_verification, other}

pub data AuthStatus : Type 0 where
  accepted token_not_found invalid_token forbidden : AuthStatus

-- `code` is `none` where the source leaves it to its default.
pub record AuthCheckResult : Type 0 where
  pub status : AuthStatus
  pub reason : String
  pub code : Option HttpStatus

abbrev pub service_name : Bytes
service_name = codes "sample"

-- `kAlgorithm`.
abbrev pub algorithm : Bytes
algorithm = codes "Bearer "

abbrev pub rejected : AuthStatus → String → Option HttpStatus → AuthCheckResult
rejected st reason code = record { status = st; reason = reason; code = code }

-- What the checker answers, with the user id that it puts into the request's context.
abbrev pub Checked : Type 0
Checked = AuthCheckResult × Option UserId

-- The text behind the scheme.
unfoldable pub after_scheme : Bytes → Bytes → Bytes
after_scheme [] s = s
after_scheme (a ∷ m) [] = []
after_scheme (a ∷ m) (c ∷ s) = after_scheme m s

-- The subject of a verified token: it must be read by `std::stoll`.
unfoldable pub check_subject : Bytes → Checked
check_subject subject =
    if is_empty subject
    then (rejected invalid_token "Token subjet is empty" (some unauthorized_401), none)
    else elim (value_of (stoll subject)) [
      | none ↦ (
        rejected invalid_token "Token subject is not integer ser_id" (some unauthorized_401),
        none,
      )
      | some user_id ↦ (rejected accepted "" none, some user_id)
    ]

abbrev pub check_verified : Result TokenError Bytes → Checked
check_verified (ok subject) = check_subject subject
check_verified (err (token_verification what)) =
    (rejected invalid_token (String.◌++◌ "Token verif failed: " what) none, none)
check_verified (err (other what)) =
    (rejected forbidden (String.◌++◌ "Token proces error: " what) none, none)

-- `CheckAuth`, of the header's value.
unfoldable pub check_auth : Tokens → Bytes → Bytes → Checked
unfolding after_scheme check_subject has_prefix
check_auth tokens secret header =
    if is_empty header
    then (rejected token_not_found "Missing 'Authorization' header" (some unauthorized_401), none)
    else if not (has_prefix algorithm header)
    then (
      rejected invalid_token "Invalid authorization type, expected 'Bearer'"
          (some unauthorized_401),
      none,
    )
    else check_verified (tokens.verify secret service_name (after_scheme algorithm header))
