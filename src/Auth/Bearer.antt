-- ===== src/Auth/Bearer.antt =====
-- Which headers the checker of src/auth/jwt_auth_checker.cpp accepts.
use leadertask_userver.Base.{
  ◌≡◌, ◌≢◌, ◌↔◌, refl, sym, ◌∙◌, ap, true, none, some, [], ◌∷◌, ◌++◌, ◌⊎◌, inl, inr, Bool-cases,
  Option-cases, Bytes, is_empty, Result, ok, err, nat_beq_iff, arith, some-injective, subst,
}
use leadertask_userver.Number.{stoll, value_of}
use leadertask_userver.Substring.{has_prefix}
use leadertask_userver.RateLimit.{UserId}
use leadertask_userver.Services.Tokens.{Tokens, TokenError, token_verification, other}
use leadertask_userver.Auth.{
  accepted, rejected, Checked, service_name, algorithm, after_scheme, check_subject, check_verified,
  check_auth,
}
use leadertask_userver.Auth.Login.{check_auth_bearer}

after_scheme-split : (m s : Bytes) → has_prefix m s ≡ true → s ≡ m ++ after_scheme m s
unfolding after_scheme has_prefix
after_scheme-split [] s h = refl
after_scheme-split (a ∷ m) [] h = cc h
after_scheme-split (a ∷ m) (c ∷ s) h = grind (arith, nat_beq_iff a c, after_scheme-split m s)

module _ (tokens : Tokens) (secret header : Bytes) where
  -- The header has the scheme and a token of the service that verifies, whose subject begins with a number.
  pub record IsBearer (user_id : UserId) : Type 0 where
    pub token : Bytes
    pub subject : Bytes
    pub shape : header ≡ algorithm ++ token
    pub verified : tokens.verify secret service_name token ≡ ok subject
    pub named : value_of (stoll subject) ≡ some user_id

  -- The answer of a refusal, which sets no user.
  abbrev pub IsRefusal : Checked → Type 0
  IsRefusal answer = (answer.0.status ≢ accepted) × (answer.1 ≡ none)

  abbrev IsAcceptance : Checked → Type 0
  IsAcceptance answer =
      (user_id : UserId) × IsBearer user_id × (answer ≡ (rejected accepted "" none, some user_id))

  subject_cases :
      (token subject : Bytes)
      → header ≡ algorithm ++ token
      → tokens.verify secret service_name token ≡ ok subject
      → IsAcceptance (check_subject subject) ⊎ IsRefusal (check_subject subject)
  unfolding check_subject
  subject_cases token subject shape verified = elim (Bool-cases (is_empty subject)) [
    | inl blank ↦ inr (rw (blank, check_subject) (λ e. cc e, refl))
    | inr full ↦ elim (Option-cases (value_of (stoll subject))) [
      | inl bad ↦ inr (rw (full, bad, check_subject) (λ e. cc e, refl))
      | inr (user_id, named) ↦ inl (
        user_id,
        record {
          token = token;
          subject = subject;
          shape = shape;
          verified = verified;
          named = named;
        },
        rw (full, named, check_subject) refl,
      )
    ]
  ]

  verified_cases :
      (token : Bytes) (result : Result TokenError Bytes)
      → header ≡ algorithm ++ token
      → tokens.verify secret service_name token ≡ result
      → IsAcceptance (check_verified result) ⊎ IsRefusal (check_verified result)
  verified_cases token (ok subject) shape h = subject_cases token subject shape h
  verified_cases token (err (token_verification what)) shape h = inr (λ e. cc e, refl)
  verified_cases token (err (other what)) shape h = inr (λ e. cc e, refl)

  -- Either the check accepts a bearer, as the user of the token, or it refuses and sets no user.
  pub check_auth_cases :
      IsAcceptance (check_auth tokens secret header) ⊎ IsRefusal (check_auth tokens secret header)
  unfolding check_auth
  check_auth_cases = elim (Bool-cases (is_empty header)) [
    | inl blank ↦ inr (rw blank (λ e. cc e, refl))
    | inr full ↦ elim (Bool-cases (has_prefix algorithm header)) [
      | inl bearer ↦
          rw (full, bearer)
            (verified_cases (after_scheme algorithm header) _
              (after_scheme-split algorithm header bearer) refl)
      | inr bad ↦ inr (rw (full, bad) (λ e. cc e, refl))
    ]
  ]

  named_subject :
      (subject : Bytes) (user_id : UserId)
      → value_of (stoll subject) ≡ some user_id
      → check_subject subject ≡ (rejected accepted "" none, some user_id)
  unfolding check_subject stoll
  named_subject [] user_id h = cc h
  named_subject (x ∷ s) user_id h = rw (h, check_subject) refl

  -- The checker accepts a header as a user exactly if it is the scheme and a token of the service that verifies
  -- with the secret, whose subject begins with the id of the user.
  pub check_auth_iff :
      (user_id : UserId)
      → (check_auth tokens secret header ≡ (rejected accepted "" none, some user_id))
        ↔ IsBearer user_id
  check_auth_iff user_id = (
    λ h. elim check_auth_cases [
      | inl (other_id, bearer, e) ↦
          subst IsBearer (some-injective other_id user_id (ap (λ (q : Checked). q.1) (sym e ∙ h)))
            bearer
      | inr (bad, _) ↦ absurd (bad (ap (λ (q : Checked). q.0.status) h))
    ],
    λ b.
        ap (check_auth tokens secret) b.shape
        ∙ check_auth_bearer tokens secret b.token
        ∙ ap check_verified b.verified
        ∙ named_subject b.subject user_id b.named,
  )
