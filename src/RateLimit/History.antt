-- ===== src/RateLimit/History.antt =====
-- Histories of calls of `CheckRateLimit`: what one call does to each user's bucket, and how many of
-- a user's calls a history lets through.
use leadertask_userver.Base.{
  ℕ, suc, ◌+◌, ◌≤◌, ◌≡◌, refl, ◌≢◌, Bool, true, false, ◌&&◌, some, List, [], ◌∷◌, arith,
  if◌then◌else◌, ◌==◌, beq_self, beq_ne, Bool-cases, inl, inr, ◌∙◌, ap, subst,
}
use leadertask_userver.Base.Int.{int_eq, int_beq_iff}
use leadertask_userver.Base.Assoc.{find, find-assign}
use leadertask_userver.RateLimit.{
  UserId, TokenBucket, Decision, RateLimits, serve_bucket, bucket_or_new, check_rate_limit,
}

-- One call of an endpoint, with the two readings of the clock that it makes.
pub record Call : Type 0 where
  pub user_id : UserId
  pub now : ℕ
  pub created : ℕ

abbrev pub decide : RateLimits → Call → Decision
decide limits c = (check_rate_limit c.now c.created c.user_id limits).0

abbrev pub after : RateLimits → Call → RateLimits
after limits c = (check_rate_limit c.now c.created c.user_id limits).1

-- The readings are in order, from `start` to `end`.
abbrev pub IsTimed : ℕ → ℕ → List Call → Type 0
IsTimed start end [] = start ≤ end
IsTimed start end (c ∷ cs) = (start ≤ c.now) × IsTimed c.now end cs

-- How many calls of `user_id` a history lets through.
unfoldable pub count_allowed : UserId → List Call → RateLimits → ℕ
count_allowed user_id [] limits = 0
count_allowed user_id (c ∷ cs) limits =
    let rest = count_allowed user_id cs (after limits c) in
    if c.user_id == user_id && (decide limits c).allowed then suc rest else rest

-- The bucket that a call of `user_id` meets.
abbrev pub met : RateLimits → Call → TokenBucket
met limits c = bucket_or_new c.created (find c.user_id limits)

pub decide_lem :
    (limits : RateLimits) (c : Call) → decide limits c ≡ (serve_bucket c.now (met limits c)).0
unfolding check_rate_limit
decide_lem limits c = refl

pub find-after_self :
    (limits : RateLimits) (c : Call)
    → find c.user_id (after limits c) ≡ some (serve_bucket c.now (met limits c)).1
unfolding check_rate_limit
find-after_self limits c = rw (find-assign c.user_id c.user_id, beq_self c.user_id)

pub find-after_ne :
    (limits : RateLimits) (c : Call) (u : UserId)
    → c.user_id ≢ u
    → find u (after limits c) ≡ find u limits
unfolding check_rate_limit
find-after_ne limits c u h = rw (find-assign c.user_id u, beq_ne c.user_id u h)

-- What one answer takes from the bucket.
abbrev pub spent : Bool → ℕ
spent true = 1
spent false = 0

pub serve_bucket_last : (now : ℕ) (b : TokenBucket) → (serve_bucket now b).1.last_refill ≡ now
unfolding serve_bucket
serve_bucket_last now b = ground arith

-- A call of `u` at the bucket `b`.
module _ (u : UserId) (c : Call) (limits : RateLimits) (b : TokenBucket) (own : c.user_id ≡ u)
    (here : met limits c ≡ b) where
  pub count_allowed_self :
      (cs : List Call)
      → count_allowed u (c ∷ cs) limits
        ≡ spent (serve_bucket c.now b).0.allowed + count_allowed u cs (after limits c)
  unfolding count_allowed
  count_allowed_self cs =
      rw ((int_beq_iff c.user_id u).1 own, decide_lem limits c, here)
        (elim (Bool-cases (serve_bucket c.now b).0.allowed) [
          | inl pass ↦ rw pass (omega arith)
          | inr fail ↦ rw fail (omega arith)
        ])

  pub found_self : find u (after limits c) ≡ some (serve_bucket c.now b).1
  found_self =
      subst (λ v. find v (after limits c) ≡ some (serve_bucket c.now b).1) own
        (find-after_self limits c ∙ ap (λ m. some (serve_bucket c.now m).1) here)

pub count_allowed_other :
    (u : UserId) (c : Call) (cs : List Call) (limits : RateLimits)
    → (c.user_id == u) ≡ false
    → count_allowed u (c ∷ cs) limits ≡ count_allowed u cs (after limits c)
unfolding count_allowed
count_allowed_other u c cs limits other = rw other
