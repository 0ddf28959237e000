-- ===== src/Server/Access.antt =====
-- Who is served: the check before the handlers that configs/static_config.yaml puts behind `jwt-auth`.
use leadertask_userver.Base.{◌≡◌, ◌≢◌, refl, ap, true, some, ◌⊎◌, inl, inr, Bool-cases}
use leadertask_userver.RateLimit.{UserId}
use leadertask_userver.Auth.{accepted, AuthCheckResult, Checked}
use leadertask_userver.Auth.Bearer.{IsBearer, check_auth_cases}
use leadertask_userver.Server.Defs.{Components, Request, Response, rejected, needs_auth, Server}
use leadertask_userver.Server.Dispatch.{dispatch, checked, behind_auth, serve}

module _ (c : Components) (r : Request) (s : Server c) where
  -- The handler has run, for the user of the token in the header.
  pub record IsServed (answer : Response × Server c) : Type 0 where
    pub user_id : UserId
    pub bearer : IsBearer c.tokens c.checker_secret (r.http.get_header "Authorization") user_id
    pub handled : answer ≡ dispatch c r.clock r.http (some user_id) s r.call

  -- The handler has not run: the server is as before.
  pub record IsRejected (answer : Response × Server c) : Type 0 where
    pub result : AuthCheckResult
    pub status : result.status ≢ accepted
    pub unchanged : answer ≡ (rejected result, s)

  behind_auth_accepted :
      (answer : Checked) (user_id : UserId) (status : answer.0.status ≡ accepted)
      → answer.1 ≡ some user_id
      → behind_auth c r answer s ≡ dispatch c r.clock r.http (some user_id) s r.call
  unfolding behind_auth
  behind_auth_accepted answer user_id status user =
      rw ((c.continues_iff answer.0).1 status, user) refl

  behind_auth_refused :
      (answer : Checked)
      → answer.0.status ≢ accepted
      → behind_auth c r answer s ≡ (rejected answer.0, s)
  unfolding behind_auth
  behind_auth_refused answer bad = elim (Bool-cases (c.continues answer.0)) [
    | inl goes ↦ absurd (bad ((c.continues_iff answer.0).0 goes))
    | inr stops ↦ rw stops refl
  ]

  -- A request to a handler behind the checker runs the handler only if its header has the scheme and a token
  -- that verifies with the checker's secret, and then for the user whose id the token's subject begins with; any
  -- other is rejected, and neither the databases nor the limits change.
  pub serve-IsServed : needs_auth r.call ≡ true → IsServed (serve c r s) ⊎ IsRejected (serve c r s)
  unfolding serve
  serve-IsServed closed =
      elim (check_auth_cases c.tokens c.checker_secret (r.http.get_header "Authorization")) [
        | inl (user_id, bearer, e) ↦ inl (record {
          user_id = user_id;
          bearer = bearer;
          handled = rw closed (
              behind_auth_accepted _ user_id (ap (λ (q : Checked). q.0.status) e)
                (ap (λ (q : Checked). q.1) e));
        })
        | inr (bad, _) ↦ inr (record {
          result = (checked c r.http).0;
          status = bad;
          unchanged = rw closed (behind_auth_refused _ bad);
        })
      ]
