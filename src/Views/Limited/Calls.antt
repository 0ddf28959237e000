-- ===== src/Views/Limited/Calls.antt =====
-- What a request to one of the six handlers does to the limits of its file: it makes at most one call of
-- `CheckRateLimit`.
use leadertask_userver.Base.{◌≡◌, refl, sym, ◌∙◌, ap, Bool, true, false, Option, none, some}
use leadertask_userver.RateLimit.{UserId, RateLimits}
use leadertask_userver.RateLimit.History.{decide, after}
use leadertask_userver.Http.{Outcome}
use leadertask_userver.Views.Limited.{Clock, State}
use leadertask_userver.Views.Limited.Rate.{
  is_value, IsGated, before, behind, stopped, through_limits, through_value,
}

-- The limits before and after, and whether the request was answered with a value.
pub data IsCalled (clock : Clock) (context : Option UserId) (limits : RateLimits) (good : Bool)
    (limits' : RateLimits) : Type 0 where
  no_call : good ≡ false → limits' ≡ limits → IsCalled clock context limits good limits'
  one_call :
      (user_id : UserId)
      → context ≡ some user_id
      → limits'
        ≡ after limits (record { user_id = user_id; now = clock.now; created = clock.created })
      → (good ≡ true
          → (decide limits
              (record { user_id = user_id; now = clock.now; created = clock.created })).allowed
            ≡ true)
      → IsCalled clock context limits good limits'

module _ {A Store : Type 0} where
  pub IsGated-IsCalled :
      (clock : Clock) (context : Option UserId) (s : State Store) (r : Outcome A × State Store)
      → IsGated clock context s r
      → IsCalled clock context s.limits (is_value r.0) r.1.limits
  IsGated-IsCalled clock context s _ (before out fails) = no_call fails refl
  IsGated-IsCalled clock none s r (behind no_user body _ e) =
      let same = e ∙ stopped clock no_user body s in
      no_call (ap (λ (q : Outcome A × State Store). is_value q.0) same)
        (ap (λ (q : Outcome A × State Store). q.1.limits) same)
  IsGated-IsCalled clock (some user_id) s r (behind no_user body _ e) =
      one_call user_id refl
        (ap (λ (q : Outcome A × State Store). q.1.limits) e
          ∙ through_limits clock user_id no_user body s)
        (λ h.
          through_value clock user_id no_user body s
            (ap (λ (q : Outcome A × State Store). is_value q.0) (sym e) ∙ h))
