-- ===== src/RateLimit/Refill.antt =====
-- When `CheckRateLimit` gives tokens back: after a whole second without calls, and only then.
use leadertask_userver.Base.{
  ℕ, ◌+◌, ◌≤◌, ◌<◌, ◌≡◌, refl, sym, ◌∙◌, ap, subst, true, false, some, List, [], ◌∷◌, arith,
}
use leadertask_userver.Base.Int.{pos, ◌≤ℤ◌, int_eq, leb_ℤ}
use leadertask_userver.Base.Assoc.{find}
use leadertask_userver.RateLimit.{
  UserId, TokenBucket, RateLimits, serve_bucket, nanos_per_second, bucket_or_new,
}
use leadertask_userver.RateLimit.History.{
  Call, count_allowed, decide, after, met, decide_lem, count_allowed_self, found_self,
  serve_bucket_last,
}

serve_bucket_rested :
    (now : ℕ) (b : TokenBucket)
    → pos 0 ≤ℤ b.tokens
    → b.last_refill + nanos_per_second ≤ now
    → (serve_bucket now b).0 ≡ record { allowed = true; remaining = pos 1 }
unfolding serve_bucket
serve_bucket_rested now b h k = ground arith

-- A user whose last call is at least a second ago, and whose bucket is not overdrawn, is let
-- through with one more call left.
pub decide_rested :
    (limits : RateLimits) (c : Call) (b : TokenBucket)
    → find c.user_id limits ≡ some b
    → pos 0 ≤ℤ b.tokens
    → b.last_refill + nanos_per_second ≤ c.now
    → decide limits c ≡ record { allowed = true; remaining = pos 1 }
decide_rested limits c b e h k =
    decide_lem limits c
    ∙ ap (λ m. (serve_bucket c.now (bucket_or_new c.created m)).0) e
    ∙ serve_bucket_rested c.now b h k

serve_bucket_starved :
    (now : ℕ) (b : TokenBucket)
    → leb_ℤ (pos 1) b.tokens ≡ false
    → b.last_refill ≤ now
    → now < b.last_refill + nanos_per_second
    → ((serve_bucket now b).0.allowed ≡ false)
      × (leb_ℤ (pos 1) (serve_bucket now b).1.tokens ≡ false)
unfolding serve_bucket
serve_bucket_starved now b h k l = ground arith

-- Calls of one user that come less than a second after one another.
abbrev pub IsBusy : UserId → ℕ → List Call → Type 0
IsBusy u last [] = Unit {0}
IsBusy u last (c ∷ cs) =
    (c.user_id ≡ u) × (last ≤ c.now) × (c.now < last + nanos_per_second) × IsBusy u c.now cs

-- A user whose bucket holds no whole token, and who calls again and again with less than a second
-- between one call and the next, is refused each time, however long that lasts.
pub count_allowed_starved :
    (u : UserId) (cs : List Call) (limits : RateLimits) (b : TokenBucket)
    → find u limits ≡ some b
    → leb_ℤ (pos 1) b.tokens ≡ false
    → IsBusy u b.last_refill cs
    → count_allowed u cs limits ≡ 0
count_allowed_starved u [] limits b e h t = unfold count_allowed in refl
count_allowed_starved u (c ∷ cs) limits b e h (own, from, to, t) =
    let here : met limits c ≡ b = ap (bucket_or_new c.created) (ap (λ v. find v limits) own ∙ e) in
    let (refused, empty) = serve_bucket_starved c.now b h from to in
    let rest =
      count_allowed_starved u cs (after limits c) (serve_bucket c.now b).1
        (found_self u c limits b own here) empty
        (subst (λ l. IsBusy u l cs) (sym (serve_bucket_last c.now b)) t) in
    count_allowed_self u c limits b own here cs ∙ rw (refused, rest)
