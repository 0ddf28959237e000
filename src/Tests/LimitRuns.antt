-- ===== src/Tests/LimitRuns.antt =====
-- Histories of calls of `CheckRateLimit`, and of requests to a handler.
use leadertask_userver.Base.{
  ◌≡◌, ◌≢◌, ◌≤◌, ◌+◌, ◌*◌, ◌/◌, ◌-◌, refl, ap, subst, ◌==◌, some-injective, Bool-cases, inl, inr, ℕ,
  Bool, true, false, Option, none, some, List, [], ◌∷◌, arith,
}
use leadertask_userver.Base.Int.{ℤ, pos, int_eq, int_beq, leb_ℤ, ◌≤ℤ◌}
use leadertask_userver.Base.Assoc.{find}
use leadertask_userver.RateLimit.{RateLimits, TokenBucket, nanos_per_second}
use leadertask_userver.RateLimit.History.{Call, count_allowed, decide, after}
use leadertask_userver.RateLimit.Refill.{decide_rested, count_allowed_starved}
use leadertask_userver.RateLimit.Invariant.{
  AllFilled, IsFair, IsFilled, IsPrompt, check_rate_limit_sound, check_rate_limit_isolated,
}
use leadertask_userver.Tests.World.{owner}

abbrev call_at : ℤ → ℕ → Call
call_at user_id now = record { user_id = user_id; now = now; created = now }

-- Three calls of one user in the first microsecond, and one two seconds later.
abbrev calls : List Call
calls = call_at owner 100 ∷ call_at owner 200 ∷ call_at owner 300 ∷ call_at owner 2_000_000_300 ∷ []

-- Three are let through: the third call is refused.
three_allowed : count_allowed owner calls [] ≡ 3
unfolding count_allowed leadertask_userver.Base.Int.int_beq
    leadertask_userver.RateLimit.check_rate_limit
three_allowed = refl

abbrev bucket_of : ℕ → TokenBucket
bucket_of n = record { tokens = pos n; last_refill = 1000 }

abbrev limits_of : ℕ → RateLimits
limits_of n = (owner, bucket_of n) ∷ []

decide_rested_example :
    decide (limits_of 0) (call_at owner 1_000_001_000)
    ≡ record { allowed = true; remaining = pos 1 }
unfolding find leadertask_userver.Base.Int.int_beq
decide_rested_example =
    decide_rested (limits_of 0) (call_at owner 1_000_001_000) (bucket_of 0) refl (omega arith)
      (omega arith)

-- Calls nine tenths of a second apart.
abbrev busy_calls : List Call
busy_calls =
    call_at owner 900_001_000 ∷ call_at owner 1_800_001_000 ∷ call_at owner 2_700_001_000 ∷ []

count_allowed_starved_example : count_allowed owner busy_calls (limits_of 0) ≡ 0
unfolding find int_beq
count_allowed_starved_example =
    count_allowed_starved owner busy_calls (limits_of 0) (bucket_of 0) refl refl (
      refl,
      omega arith,
      omega arith,
      (refl, omega arith, omega arith, (refl, omega arith, omega arith, tt)),
    )

limits_filled : AllFilled (limits_of 1)
unfolding find int_beq
limits_filled u b e = elim (Bool-cases (owner == u)) [
  | inl own ↦
      let same = some-injective (bucket_of 1) b (rw own at e) in
      subst IsFilled same (omega arith, omega arith)
  | inr other ↦ cc (rw other at e)
]

limits-IsPrompt : IsPrompt (limits_of 1) (call_at owner 2000)
unfolding find int_beq
limits-IsPrompt = (
  omega arith,
  omega arith,
  λ b e. omega (arith, ap (λ (x : TokenBucket). x.last_refill) (some-injective (bucket_of 1) b e)),
)

check_rate_limit_sound_example :
    AllFilled (after (limits_of 1) (call_at owner 2000))
    × IsFair (decide (limits_of 1) (call_at owner 2000))
check_rate_limit_sound_example =
    check_rate_limit_sound (limits_of 1) (call_at owner 2000) limits_filled limits-IsPrompt

check_rate_limit_isolated_example :
    (find (pos 6) (after (limits_of 1) (call_at owner 2000)) ≡ find (pos 6) (limits_of 1))
    × ((d : Call)
        → d.user_id ≡ pos 6
        → decide (after (limits_of 1) (call_at owner 2000)) d ≡ decide (limits_of 1) d)
check_rate_limit_isolated_example =
    check_rate_limit_isolated (limits_of 1) (call_at owner 2000) (pos 6) (λ e. cc e)
