-- ===== src/RateLimit/Bounds.antt =====
-- The rate that `CheckRateLimit` lets through.
use leadertask_userver.Base.{
  ℕ, ◌+◌, ◌-◌, ◌*◌, ◌/◌, ◌≤◌, ◌≡◌, refl, ◌∙◌, ap, some, List, [], ◌∷◌, arith, inl, inr, Bool-cases,
  ◌==◌, ne_of_beq,
}
use leadertask_userver.Base.Int.{pos_part, int_eq, int_beq_iff}
use leadertask_userver.Base.Assoc.{find}
use leadertask_userver.RateLimit.{
  UserId, TokenBucket, RateLimits, serve_bucket, nanos_per_second, bucket_or_new,
}
use leadertask_userver.RateLimit.History.{
  Call, IsTimed, count_allowed, after, met, find-after_ne, spent, count_allowed_self,
  count_allowed_other, found_self, serve_bucket_last,
}

-- A bucket never holds more than the maximum after a call, and what it hands out is paid by what it
-- had and two tokens for each whole second since the last call.
serve_bucket_cap :
    (now : ℕ) (b : TokenBucket)
    → spent (serve_bucket now b).0.allowed + pos_part (serve_bucket now b).1.tokens ≤ 2
unfolding serve_bucket
serve_bucket_cap now b = ground arith

serve_bucket_paid :
    (now : ℕ) (b : TokenBucket)
    → b.last_refill ≤ now
    → spent (serve_bucket now b).0.allowed + pos_part (serve_bucket now b).1.tokens
      ≤ pos_part b.tokens + 2 * ((now - b.last_refill) / nanos_per_second)
unfolding serve_bucket
serve_bucket_paid now b h = ground arith

IsTimed-le : (start end : ℕ) (cs : List Call) → IsTimed start end cs → start ≤ end
IsTimed-le start end [] t = t
IsTimed-le start end (c ∷ cs) (h, t) = omega (arith, IsTimed-le c.now end cs t)

-- The calls of `u` that the rest of a history lets through are paid by the bucket that it starts with.
count_allowed_paid :
    (u : UserId) (start end : ℕ) (cs : List Call) (limits : RateLimits) (b : TokenBucket)
    → IsTimed start end cs
    → find u limits ≡ some b
    → b.last_refill ≤ start
    → count_allowed u cs limits ≤ pos_part b.tokens + 2 * ((end - b.last_refill) / nanos_per_second)
count_allowed_paid u start end [] limits b t e h = unfold count_allowed in omega arith
count_allowed_paid u start end (c ∷ cs) limits b (before, t) e h =
    elim (Bool-cases (c.user_id == u)) [
      | inl same ↦
          let own : c.user_id ≡ u = (int_beq_iff c.user_id u).0 same in
          let here : met limits c ≡ b =
            ap (bucket_or_new c.created) (ap (λ v. find v limits) own ∙ e) in
          let ih =
            count_allowed_paid u c.now end cs (after limits c) (serve_bucket c.now b).1 t
              (found_self u c limits b own here) (omega (arith, serve_bucket_last c.now b)) in
          omega (
            arith,
            ih,
            count_allowed_self u c limits b own here cs,
            serve_bucket_last c.now b,
            serve_bucket_paid c.now b (omega arith),
            IsTimed-le c.now end cs t,
          )
      | inr other ↦
          let ih =
            count_allowed_paid u c.now end cs (after limits c) b t
              (find-after_ne limits c u (ne_of_beq c.user_id u other) ∙ e) (omega arith) in
          omega (arith, ih, count_allowed_other u c cs limits other)
    ]

-- Whatever the buckets hold at the start, over a history whose clock readings are in order and lie
-- between `start` and `end` each user gets at most two calls through, and two more for each whole
-- second between `start` and `end`.
pub count_allowed-le_rate :
    (u : UserId) (start end : ℕ) (cs : List Call) (limits : RateLimits)
    → IsTimed start end cs
    → count_allowed u cs limits ≤ 2 + 2 * ((end - start) / nanos_per_second)
count_allowed-le_rate u start end [] limits t = unfold count_allowed in omega arith
count_allowed-le_rate u start end (c ∷ cs) limits (before, t) = elim (Bool-cases (c.user_id == u)) [
  | inl same ↦
      let own : c.user_id ≡ u = (int_beq_iff c.user_id u).0 same in
      let b = met limits c in
      let rest =
        count_allowed_paid u c.now end cs (after limits c) (serve_bucket c.now b).1 t
          (found_self u c limits b own refl) (omega (arith, serve_bucket_last c.now b)) in
      omega (
        arith,
        rest,
        count_allowed_self u c limits b own refl cs,
        serve_bucket_last c.now b,
        serve_bucket_cap c.now b,
        IsTimed-le c.now end cs t,
      )
  | inr other ↦ omega (
    arith,
    count_allowed-le_rate u c.now end cs (after limits c) t,
    count_allowed_other u c cs limits other,
    IsTimed-le c.now end cs t,
  )
]
