-- ===== src/Views/Limited.antt =====
-- The part that six handlers share: the user of the context, then the rate limit of the endpoint.
pub mod Rate
pub mod Cases
pub mod Calls
use Prim.Native.String.{String}
use leadertask_userver.Base.{ℕ, Bool, true, false, Option, none, some, if◌then◌else◌, ok, err}
use leadertask_userver.RateLimit.{UserId, RateLimits, Decision}
use leadertask_userver.Http.{Outcome, fail, unauthorized_401, rate_limited}

-- The readings of `steady_clock` in one call of `CheckRateLimit`.
pub record Clock : Type 0 where
  pub now : ℕ
  pub created : ℕ

-- The state of a handler: its own `rate_limits`, and the stores that it works on.
pub record State (Store : Type 0) : Type 0 where
  pub limits : RateLimits
  pub store : Store

-- The body of a handler behind the limit works on the store alone.
abbrev pub Body : Type 0 → Type 0 → Type 0
Body A Store = UserId → Store → Outcome A × Store

-- `CheckRateLimit` of one of the files.
abbrev pub Limiter : Type 0
Limiter = ℕ → ℕ → UserId → RateLimits → Decision × RateLimits

module _ {A Store : Type 0} where
  abbrev pub keep_limits : RateLimits → Outcome A × Store → Outcome A × State Store
  keep_limits limits (out, store) = (out, record { limits = limits; store = store })

  -- After `CheckRateLimit`: a refused call is answered, any other goes on.
  abbrev pub after_limit :
      Body A Store → UserId → Store → Decision × RateLimits → Outcome A × State Store
  after_limit body user_id store (d, limits) =
      if d.allowed
      then keep_limits limits (body user_id store)
      else (rate_limited d.remaining, record { limits = limits; store = store })

  -- `GetUserData<UserId>()` throws if no checker has set it, and the handler answers 401 with its text.
  unfoldable pub limited :
      Limiter
      → String
      → Clock
      → Option UserId
      → Body A Store
      → State Store
      → Outcome A × State Store
  limited check no_user clock none body s = (fail unauthorized_401 no_user, s)
  limited check no_user clock (some user_id) body s =
      after_limit body user_id s.store (check clock.now clock.created user_id s.limits)
