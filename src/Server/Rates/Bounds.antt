-- ===== src/Server/Rates/Bounds.antt =====
-- How many answers of an endpoint a user gets from the whole server.
use leadertask_userver.Base.{
  ℕ, suc, ◌+◌, ◌-◌, ◌*◌, ◌/◌, ◌≤◌, ◌≡◌, ◌≢◌, refl, ap, subst, Bool, true, false, ◌&&◌, Option, none,
  some, List, [], ◌∷◌, if◌then◌else◌, Bool-cases, inl, inr, arith, ◌==◌,
}
use leadertask_userver.Base.Int.{int_eq}
use leadertask_userver.RateLimit.{UserId, RateLimits, nanos_per_second}
use leadertask_userver.RateLimit.History.{IsTimed, count_allowed, decide, after}
use leadertask_userver.RateLimit.History
use leadertask_userver.RateLimit.Bounds.{count_allowed-le_rate}
use leadertask_userver.Views.Limited.Rate.{is_from, IsTimed-earlier}
use leadertask_userver.Views.Limited.Calls.{IsCalled, no_call, one_call}
use leadertask_userver.Server.Defs.{Components, Request, needs_auth, Server}
use leadertask_userver.Server.Dispatch.{checked, acting, behind_auth, serve}
use leadertask_userver.Server.Rates.{
  Endpoint, searches, goal_creations, goal_lists, task_creations, status_updates, task_lists,
  limits_at, endpoint_of, response_is_value, kept, called,
}

abbrev pub is_endpoint : Endpoint → Option Endpoint → Bool
is_endpoint searches (some searches) = true
is_endpoint goal_creations (some goal_creations) = true
is_endpoint goal_lists (some goal_lists) = true
is_endpoint task_creations (some task_creations) = true
is_endpoint status_updates (some status_updates) = true
is_endpoint task_lists (some task_lists) = true
is_endpoint _ _ = false

is_endpoint_self : (e : Endpoint) → is_endpoint e (some e) ≡ true
is_endpoint_self searches = refl
is_endpoint_self goal_creations = refl
is_endpoint_self goal_lists = refl
is_endpoint_self task_creations = refl
is_endpoint_self status_updates = refl
is_endpoint_self task_lists = refl

is_endpoint_sound : (e : Endpoint) (o : Option Endpoint) → is_endpoint e o ≡ true → o ≡ some e
is_endpoint_sound searches (some searches) h = refl
is_endpoint_sound goal_creations (some goal_creations) h = refl
is_endpoint_sound goal_lists (some goal_lists) h = refl
is_endpoint_sound task_creations (some task_creations) h = refl
is_endpoint_sound status_updates (some status_updates) h = refl
is_endpoint_sound task_lists (some task_lists) h = refl
is_endpoint_sound _ _ h = cc h

-- The clock readings of the requests are in order, from `start` to `end`.
abbrev pub AreTimed : ℕ → ℕ → List Request → Type 0
AreTimed start end [] = start ≤ end
AreTimed start end (r ∷ rs) = (start ≤ r.clock.now) × AreTimed r.clock.now end rs

count_le :
    (own good allowed : Bool) (n m : ℕ)
    → (good ≡ true → allowed ≡ true)
    → n ≤ m
    → (if own && good then suc n else n) ≤ (if own && allowed then suc m else m)
count_le false good allowed n m h k = k
count_le true false true n m h k = omega arith
count_le true false false n m h k = k
count_le true true true n m h k = omega arith
count_le true true false n m h k = cc (h refl)

not_counted :
    (own good : Bool) (n m : ℕ) → good ≡ false → n ≤ m → (if own && good then suc n else n) ≤ m
not_counted false good n m h k = k
not_counted true true n m h k = cc h
not_counted true false n m h k = k

module _ (c : Components) (e : Endpoint) (u : UserId) where
  -- The requests of the user to the endpoint that are answered with a value.
  unfoldable pub count_answers : List Request → Server c → ℕ
  count_answers [] s = 0
  count_answers (r ∷ rs) s =
      let rest = count_answers rs (serve c r s).1 in
      let own = is_endpoint e (endpoint_of r.call) && is_from u (acting c r) in
      if own && response_is_value (serve c r s).0 then suc rest else rest

  other_kept :
      (r : Request) (s : Server c)
      → endpoint_of r.call ≢ some e
      → limits_at e (serve c r s).1.limits ≡ limits_at e s.limits
  unfolding serve behind_auth
  other_kept r s h = elim (Bool-cases (needs_auth r.call)) [
    | inl closed ↦ elim (Bool-cases (c.continues (checked c r.http).0)) [
      | inl goes ↦ rw (closed, goes) (kept c r.clock r.http (checked c r.http).1 s e r.call h)
      | inr stops ↦ rw (closed, stops) refl
    ]
    | inr free ↦ rw free (kept c r.clock r.http none s e r.call h)
  ]

  serve-IsCalled :
      (r : Request) (s : Server c)
      → endpoint_of r.call ≡ some e
      → IsCalled r.clock
          (acting c r)
          (limits_at e s.limits)
          (response_is_value (serve c r s).0)
          (limits_at e (serve c r s).1.limits)
  unfolding serve behind_auth
  serve-IsCalled r s h = elim (Bool-cases (needs_auth r.call)) [
    | inl closed ↦ elim (Bool-cases (c.continues (checked c r.http).0)) [
      | inl goes ↦ rw (closed, goes) (called c r.clock r.http (checked c r.http).1 s e r.call h)
      | inr stops ↦ rw (closed, stops) (no_call refl refl)
    ]
    | inr free ↦ rw free (called c r.clock r.http none s e r.call h)
  ]

  -- The calls of `CheckRateLimit` of the endpoint in a history.
  record Traced (start end : ℕ) (n : ℕ) (limits : RateLimits) : Type 0 where
    calls : List History.Call
    timed : IsTimed start end calls
    counted : n ≤ count_allowed u calls limits

  abbrev counted_if : Bool → ℕ → ℕ
  counted_if b n = if b then suc n else n

  -- One request to the endpoint in front of a history.
  extend :
      (start end n : ℕ) (r : Request) (limits limits' : RateLimits) (good : Bool)
      (context : Option UserId)
      → start ≤ r.clock.now
      → IsCalled r.clock context limits good limits'
      → Traced r.clock.now end n limits'
      → Traced start end (counted_if (is_from u context && good) n) limits
  unfolding count_allowed
  extend start end n r limits limits' good context b (no_call fails same) t = record {
    calls = t.calls;
    timed = IsTimed-earlier start r.clock.now end t.calls b t.timed;
    counted =
        not_counted (is_from u context) good n _ fails
          (subst (λ l. n ≤ count_allowed u t.calls l) same t.counted);
  }
  extend start end n r limits limits' good context b (one_call user_id known same allowed) t =
      record {
        calls =
            record { user_id = user_id; now = r.clock.now; created = r.clock.created } ∷ t.calls;
        timed = (b, t.timed);
        counted = rw known (
            count_le (user_id == u) good _ n _ allowed
              (subst (λ l. n ≤ count_allowed u t.calls l) same t.counted));
      }

  -- One request to something else in front of a history.
  extend_other :
      (start end n : ℕ) (r : Request) (limits limits' : RateLimits)
      → start ≤ r.clock.now
      → limits' ≡ limits
      → Traced r.clock.now end n limits'
      → Traced start end n limits
  extend_other start end n r limits limits' b same t = record {
    calls = t.calls;
    timed = IsTimed-earlier start r.clock.now end t.calls b t.timed;
    counted = subst (λ l. n ≤ count_allowed u t.calls l) same t.counted;
  }

  trace :
      (start end : ℕ) (rs : List Request) (s : Server c)
      → AreTimed start end rs
      → Traced start end (count_answers rs s) (limits_at e s.limits)
  unfolding count_answers
  trace start end [] s t = record {
    calls = [];
    timed = t;
    counted = unfold count_allowed in omega arith;
  }
  trace start end (r ∷ rs) s (b, t) =
      let rest = trace r.clock.now end rs (serve c r s).1 t in
      elim (Bool-cases (is_endpoint e (endpoint_of r.call))) [
        | inl here ↦ rw here (
            extend start end _ r _ _ (response_is_value (serve c r s).0) (acting c r) b
              (serve-IsCalled r s (is_endpoint_sound e (endpoint_of r.call) here)) rest)
        | inr away ↦ rw away (
            extend_other start end _ r _ _ b
              (other_kept r s (λ h. cc (away, ap (is_endpoint e) h, is_endpoint_self e))) rest)
      ]

  -- In a history of requests to the whole server, of all users and to all endpoints, with clock readings in order
  -- between `start` and `end`, a user gets from each endpoint with a limit at most two values, and two more for
  -- each whole second between `start` and `end`.
  pub count_answers-le_rate :
      (start end : ℕ) (rs : List Request) (s : Server c)
      → AreTimed start end rs
      → count_answers rs s ≤ 2 + 2 * ((end - start) / nanos_per_second)
  count_answers-le_rate start end rs s t =
      let traced = trace start end rs s t in
      omega (
        arith,
        traced.counted,
        count_allowed-le_rate u start end traced.calls (limits_at e s.limits) traced.timed,
      )
