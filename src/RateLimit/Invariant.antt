-- ===== src/RateLimit/Invariant.antt =====
-- What holds of every bucket and of every answer of `CheckRateLimit`.
use leadertask_userver.Base.{
  ℕ, ◌+◌, ◌≤◌, ◌<◌, ◌≡◌, refl, ◌∙◌, ap, sym, subst, ◌≢◌, true, false, none, some, arith, ◌⊎◌, inl,
  inr, Bool-cases, Option-cases, ◌==◌, ne_of_beq,
}
use leadertask_userver.Base.Int.{pos, ◌≤ℤ◌, int_eq, int_beq_iff}
use leadertask_userver.Base.Assoc.{find}
use leadertask_userver.RateLimit.{
  UserId, TokenBucket, Decision, RateLimits, serve_bucket, nanos_per_second, bucket_or_new,
}
use leadertask_userver.RateLimit.History.{
  Call, decide, after, met, decide_lem, find-after_ne, found_self,
}

-- A bucket holds between zero and two tokens.
abbrev pub IsFilled : TokenBucket → Type 0
IsFilled b = (pos 0 ≤ℤ b.tokens) × (b.tokens ≤ℤ pos 2)

-- The clock does not go back, and a new bucket is made within a second of the call's first reading.
abbrev pub IsPrompt : RateLimits → Call → Type 0
IsPrompt limits c =
    (c.now ≤ c.created)
    × (c.created < c.now + nanos_per_second)
    × ((b : TokenBucket) → find c.user_id limits ≡ some b → b.last_refill ≤ c.now)

abbrev pub AllFilled : RateLimits → Type 0
AllFilled limits = (u : UserId) (b : TokenBucket) → find u limits ≡ some b → IsFilled b

-- The answer agrees with itself: what is left is zero or one after a call that is let through, and zero
-- after one that is refused.
abbrev pub IsFair : Decision → Type 0
IsFair d =
    ((d.allowed ≡ true) × ((d.remaining ≡ pos 0) ⊎ (d.remaining ≡ pos 1)))
    ⊎ ((d.allowed ≡ false) × (d.remaining ≡ pos 0))

serve_bucket-IsFilled :
    (now : ℕ) (b : TokenBucket) → IsFilled b → b.last_refill ≤ now → IsFilled (serve_bucket now b).1
unfolding serve_bucket
serve_bucket-IsFilled now b h k = ground arith

serve_bucket-IsFair :
    (now : ℕ) (b : TokenBucket) → IsFilled b → b.last_refill ≤ now → IsFair (serve_bucket now b).0
unfolding serve_bucket
serve_bucket-IsFair now b h k = ground arith

serve_new :
    (now created : ℕ)
    → now ≤ created
    → created < now + nanos_per_second
    → IsFilled (serve_bucket now (bucket_or_new created none)).1
      × IsFair (serve_bucket now (bucket_or_new created none)).0
unfolding serve_bucket
serve_new now created h k = ground arith

-- One call, on the bucket that it meets.
met_step :
    (limits : RateLimits) (c : Call)
    → AllFilled limits
    → IsPrompt limits c
    → IsFilled (serve_bucket c.now (met limits c)).1 × IsFair (serve_bucket c.now (met limits c)).0
met_step limits c all (from, to, past) = elim (Option-cases (find c.user_id limits)) [
  | inl fresh ↦ rw fresh (serve_new c.now c.created from to)
  | inr (b, found) ↦ rw found (
    serve_bucket-IsFilled c.now b (all c.user_id b found) (past b found),
    serve_bucket-IsFair c.now b (all c.user_id b found) (past b found),
  )
]

-- If every bucket holds between zero and two tokens, so it is after a call whose clock readings are
-- in order with the bucket of its user, and that makes a new bucket within a second; the call's
-- answer is fair: let through with zero or one call left, or refused with none.
pub check_rate_limit_sound :
    (limits : RateLimits) (c : Call)
    → AllFilled limits
    → IsPrompt limits c
    → AllFilled (after limits c) × IsFair (decide limits c)
check_rate_limit_sound limits c all prompt =
    let (filled, fair) = met_step limits c all prompt in
    (
      λ u b e. elim (Bool-cases (c.user_id == u)) [
        | inl same ↦
            let own : c.user_id ≡ u = (int_beq_iff c.user_id u).0 same in
            let found = found_self u c limits (met limits c) own refl in
            let same_bucket : (serve_bucket c.now (met limits c)).1 ≡ b = cc (found, e) in
            subst IsFilled same_bucket filled
        | inr other ↦ all u b (sym (find-after_ne limits c u (ne_of_beq c.user_id u other)) ∙ e)
      ],
      rw (decide_lem limits c) fair,
    )

-- A call of one user changes no other user's bucket, and so no answer to the next call of another
-- user.
pub check_rate_limit_isolated :
    (limits : RateLimits) (c : Call) (u : UserId)
    → c.user_id ≢ u
    → (find u (after limits c) ≡ find u limits)
      × ((d : Call) → d.user_id ≡ u → decide (after limits c) d ≡ decide limits d)
check_rate_limit_isolated limits c u h = (
  find-after_ne limits c u h,
  λ d own.
      decide_lem (after limits c) d
      ∙ ap (λ m. (serve_bucket d.now (bucket_or_new d.created m)).0)
          (find-after_ne limits c d.user_id (λ e. h (e ∙ own)))
      ∙ sym (decide_lem limits d),
)
