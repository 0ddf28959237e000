-- ===== src/RateLimit.antt =====
-- The token bucket that src/views/tasks/create.cpp, tasks/list.cpp, tasks/update.cpp,
-- goals/create.cpp, goals/list.cpp and users/search.cpp each hold in a copy of their own.
-- Clock readings are nanoseconds of `steady_clock`. The amounts of tokens are the doubles 2.0, 2.0 times
-- a whole number of seconds, their sums, a minimum with 2.0 and a difference with 1.0: whole
-- numbers, which a double holds exactly in the range that occurs, so they are integers here.
pub mod History
pub mod Bounds
pub mod Refill
pub mod Invariant
use leadertask_userver.Base.{
  ℕ, ◌-◌, ◌/◌, Bool, true, false, Option, none, some, List, leb, if◌then◌else◌,
}
use leadertask_userver.Base.Int.{ℤ, pos, sub_ℕ, ◌+ℤ◌, ◌-ℤ◌, leb_ℤ, int_eq}
use leadertask_userver.Base.Assoc.{find, assign}

abbrev pub UserId : Type 0
UserId = ℤ

pub record TokenBucket : Type 0 where
  pub tokens : ℤ
  pub last_refill : ℕ

abbrev pub max_tokens : ℤ
max_tokens = pos 2

abbrev pub nanos_per_second : ℕ
nanos_per_second = 1_000_000_000

-- `duration_cast<seconds>(now - last).count()`, which rounds towards zero.
unfoldable pub elapsed_seconds : ℕ → ℕ → ℤ
elapsed_seconds now last =
    if leb last now
    then pos ((now - last) / nanos_per_second)
    else sub_ℕ 0 ((last - now) / nanos_per_second)

-- `elapsed * refill_rate`, with a refill rate of 2.0 tokens a second.
abbrev pub refill_amount : ℤ → ℤ
refill_amount elapsed = elapsed +ℤ elapsed

abbrev pub min_ℤ : ℤ → ℤ → ℤ
min_ℤ a b = if leb_ℤ a b then a else b

unfoldable pub refill : ℕ → TokenBucket → TokenBucket
unfolding elapsed_seconds
refill now bucket = record {
  tokens =
      min_ℤ max_tokens (bucket.tokens +ℤ refill_amount (elapsed_seconds now bucket.last_refill));
  last_refill = now;
}

-- The result of `CheckRateLimit` with its out parameter.
pub record Decision : Type 0 where
  pub allowed : Bool
  pub remaining : ℤ

-- The part of `CheckRateLimit` that works on the bucket.
unfoldable pub take_token : TokenBucket → Decision × TokenBucket
take_token bucket =
    if leb_ℤ (pos 1) bucket.tokens
    then (
      record { allowed = true; remaining = bucket.tokens -ℤ pos 1 },
      record bucket { tokens = bucket.tokens -ℤ pos 1 },
    )
    else (record { allowed = false; remaining = bucket.tokens }, bucket)

unfoldable pub serve_bucket : ℕ → TokenBucket → Decision × TokenBucket
unfolding refill take_token
serve_bucket now bucket = take_token (refill now bucket)

-- `rate_limits[user_id]`: a missing bucket is made with the reading `created` of the clock.
abbrev pub bucket_or_new : ℕ → Option TokenBucket → TokenBucket
bucket_or_new created none = record { tokens = max_tokens; last_refill = created }
bucket_or_new created (some b) = b

abbrev pub RateLimits : Type 0
RateLimits = List (UserId × TokenBucket)

-- `CheckRateLimit`. It reads the clock as `now` first; `created` is the second reading, which the
-- default member initialiser of a new bucket makes.
unfoldable pub check_rate_limit : ℕ → ℕ → UserId → RateLimits → Decision × RateLimits
unfolding serve_bucket find assign
check_rate_limit now created user_id limits =
    let (decision, bucket') = serve_bucket now (bucket_or_new created (find user_id limits)) in
    (decision, assign user_id bucket' limits)
