-- ===== src/Services/Tokens.antt =====
-- The tokens of jwt-cpp, as src/views/users/login.cpp signs them and src/auth/jwt_auth_checker.cpp
-- verifies them: HS256 with a secret, an issuer and a subject.
use Prim.Native.String.{String}
use leadertask_userver.Base.{◌≡◌, Bytes, Result, ok}
use leadertask_userver.Definitions.{Exception}

-- The exceptions that `decode` and `verify` throw.
pub data TokenError : Type 0 where
  token_verification : String → TokenError
  other : String → TokenError

pub record Tokens : Type 0 where
  -- create().set_type("JWT").set_issuer(issuer).set_subject(subject).sign(hs256{secret})
  pub sign : (secret issuer subject : Bytes) → Result Exception Bytes
  -- decode(token), verify().allow_algorithm(hs256{secret}).with_issuer(issuer).verify(decoded),
  -- decoded.get_subject()
  pub verify : (secret issuer token : Bytes) → Result TokenError Bytes
  -- a token that was signed is verified with the same secret and the same issuer, and its subject read
  pub verify_sign :
      (secret issuer subject token : Bytes)
      → sign secret issuer subject ≡ ok token
      → verify secret issuer token ≡ ok subject
