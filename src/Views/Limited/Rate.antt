-- ===== src/Views/Limited/Rate.antt =====
-- The rate of an endpoint: how many of a user's requests a history of the handler answers with a value.
use Prim.Native.String.{String}
use leadertask_userver.Base.{
  ℕ, suc, ◌+◌, ◌-◌, ◌*◌, ◌/◌, ◌≤◌, ◌≡◌, refl, sym, ◌∙◌, ap, subst, Bool, true, false, ◌&&◌, Option,
  none, some, List, [], ◌∷◌, if◌then◌else◌, ok, err, arith, Bool-cases, inl, inr, ◌==◌,
}
use leadertask_userver.Base.Int.{int_eq}
use leadertask_userver.RateLimit.{UserId, RateLimits, check_rate_limit, nanos_per_second}
use leadertask_userver.RateLimit.History.{Call, IsTimed, count_allowed, decide, after}
use leadertask_userver.RateLimit.Bounds.{count_allowed-le_rate}
use leadertask_userver.Http.{Outcome, Payload, error, value, rate_limited, fail, unauthorized_401}
use leadertask_userver.Views.Limited.{Clock, State, Body, limited}

abbrev payload_is_value {ℓ} : {A : Type ℓ} → Payload A → Bool
payload_is_value (error msg) = false
payload_is_value (value a) = true

-- The handler has replied with a body of its own type, and neither thrown nor sent an error.
abbrev pub is_value {ℓ} : {A : Type ℓ} → Outcome A → Bool
is_value (ok r) = payload_is_value r.payload
is_value (err e) = false

abbrev pub is_from : UserId → Option UserId → Bool
is_from u none = false
is_from u (some user_id) = user_id == u

module _ {A Store : Type 0} where
  -- What a handler does at a state: it answers with an error before the limit, or it goes through the limit.
  pub data IsGated (clock : Clock) (context : Option UserId) (s : State Store)
      : Outcome A × State Store → Type 0 where
    before : (out : Outcome A) → is_value out ≡ false → IsGated clock context s (out, s)
    behind :
        (no_user : String) (body : Body A Store) (r : Outcome A × State Store)
        → r ≡ limited check_rate_limit no_user clock context body s
        → IsGated clock context s r

pub IsTimed-earlier :
    (start start' end : ℕ) (cs : List Call)
    → start ≤ start'
    → IsTimed start' end cs
    → IsTimed start end cs
IsTimed-earlier start start' end [] h t = omega arith
IsTimed-earlier start start' end (c ∷ cs) h (b, t) = (omega arith, t)

-- A request to a handler: the readings of the clock, the user, and what the handler does.
pub record Visit (A Store : Type 0) : Type 0 where
  pub clock : Clock
  pub context : Option UserId
  pub handler : State Store → Outcome A × State Store
  pub gated : (s : State Store) → IsGated clock context s (handler s)

module _ {A Store : Type 0} where
  -- The readings of the clock are in order, from `start` to `end`.
  abbrev pub AreTimed : ℕ → ℕ → List (Visit A Store) → Type 0
  AreTimed start end [] = start ≤ end
  AreTimed start end (v ∷ vs) = (start ≤ v.clock.now) × AreTimed v.clock.now end vs

  -- The requests of the user that a history answers with a value.
  unfoldable pub count_values : UserId → List (Visit A Store) → State Store → ℕ
  count_values u [] s = 0
  count_values u (v ∷ vs) s =
      let rest = count_values u vs (v.handler s).1 in
      if is_from u v.context && is_value (v.handler s).0 then suc rest else rest

  -- The calls of `CheckRateLimit` that a history makes.
  record Traced (u : UserId) (start end : ℕ) (vs : List (Visit A Store)) (s : State Store)
      : Type 0 where
    calls : List Call
    timed : IsTimed start end calls
    counted : count_values u vs s ≤ count_allowed u calls s.limits

  -- Without a user nothing happens.
  pub stopped :
      (clock : Clock) (no_user : String) (body : Body A Store) (s : State Store)
      → limited check_rate_limit no_user clock none body s ≡ (fail unauthorized_401 no_user, s)
  unfolding limited
  stopped clock no_user body s = refl

  module _ (clock : Clock) (user_id : UserId) (no_user : String) (body : Body A Store)
      (s : State Store) where
    abbrev pub call_of : Call
    call_of = record { user_id = user_id; now = clock.now; created = clock.created }

    abbrev through : Outcome A × State Store
    through = limited check_rate_limit no_user clock (some user_id) body s

    pub through_limits : through.1.limits ≡ after s.limits call_of
    unfolding limited
    through_limits = elim (Bool-cases (decide s.limits call_of).allowed) [
      | inl pass ↦ rw pass refl
      | inr fails ↦ rw fails refl
    ]

    pub through_value : is_value through.0 ≡ true → (decide s.limits call_of).allowed ≡ true
    unfolding limited rate_limited
    through_value h = elim (Bool-cases (decide s.limits call_of).allowed) [
      | inl pass ↦ pass
      | inr fails ↦ cc (rw fails at h)
    ]

  abbrev counted_of : UserId → List (Visit A Store) → Option UserId → Outcome A × State Store → ℕ
  counted_of u vs context r =
      let rest = count_values u vs r.1 in
      if is_from u context && is_value r.0 then suc rest else rest

  count_cons :
      (u : UserId) (v : Visit A Store) (vs : List (Visit A Store)) (s : State Store)
      (context : Option UserId) (r : Outcome A × State Store)
      → v.context ≡ context
      → v.handler s ≡ r
      → count_values u (v ∷ vs) s ≡ counted_of u vs context r
  unfolding count_values
  count_cons u v vs s context r ctx e = λ i. counted_of u vs (ctx i) (e i)

  not_value :
      (u : UserId) (vs : List (Visit A Store)) (context : Option UserId)
      (r : Outcome A × State Store) (n : ℕ)
      → is_value r.0 ≡ false
      → count_values u vs r.1 ≤ n
      → counted_of u vs context r ≤ n
  not_value u vs context r n fails h = elim (Bool-cases (is_from u context)) [
    | inl own ↦ rw (own, fails) h
    | inr other ↦ rw other h
  ]

  may_be_value :
      (u : UserId) (vs : List (Visit A Store)) (r : Outcome A × State Store) (c : Call)
      (cs : List Call) (limits : RateLimits)
      → (is_value r.0 ≡ true → (decide limits c).allowed ≡ true)
      → count_values u vs r.1 ≤ count_allowed u cs (after limits c)
      → counted_of u vs (some c.user_id) r ≤ count_allowed u (c ∷ cs) limits
  unfolding count_allowed
  may_be_value u vs r c cs limits h k = elim (Bool-cases (is_value r.0)) [
    | inl good ↦
        rw (good, h good)
          (elim (Bool-cases (c.user_id == u)) [
            | inl same ↦ rw same (omega arith)
            | inr other ↦ rw other k
          ])
    | inr bad ↦ not_value u vs (some c.user_id) r _ bad (ground arith)
  ]

  -- One request in front of a history.
  extend :
      (u : UserId) (start end : ℕ) (v : Visit A Store) (vs : List (Visit A Store)) (s : State Store)
      (context : Option UserId) (r : Outcome A × State Store)
      → v.context ≡ context
      → v.handler s ≡ r
      → start ≤ v.clock.now
      → IsGated v.clock context s r
      → Traced u v.clock.now end vs r.1
      → Traced u start end (v ∷ vs) s
  extend u start end v vs s context r ctx e b (before out fails) t = record {
    calls = t.calls;
    timed = IsTimed-earlier start v.clock.now end t.calls b t.timed;
    counted =
        rw (count_cons u v vs s context (out, s) ctx e)
          (not_value u vs context (out, s) _ fails t.counted);
  }
  extend u start end v vs s none r ctx e b (behind no_user body _ f) t = record {
    calls = t.calls;
    timed = IsTimed-earlier start v.clock.now end t.calls b t.timed;
    counted = rw (count_cons u v vs s none r ctx e) (
        not_value u vs none r _
          (ap (λ (q : Outcome A × State Store). is_value q.0) f
            ∙ ap (λ (q : Outcome A × State Store). is_value q.0) (stopped v.clock no_user body s))
          (subst (λ l. count_values u vs r.1 ≤ count_allowed u t.calls l)
            (ap (λ (q : Outcome A × State Store). q.1.limits) f
              ∙ ap (λ (q : Outcome A × State Store). q.1.limits) (stopped v.clock no_user body s))
            t.counted));
  }
  extend u start end v vs s (some user_id) r ctx e b (behind no_user body _ f) t = record {
    calls = call_of v.clock user_id no_user body s ∷ t.calls;
    timed = (b, t.timed);
    counted = rw (count_cons u v vs s (some user_id) r ctx e) (
        may_be_value u vs r (call_of v.clock user_id no_user body s) t.calls s.limits
          (λ h.
            through_value v.clock user_id no_user body s
              (ap (λ (q : Outcome A × State Store). is_value q.0) (sym f) ∙ h))
          (subst (λ l. count_values u vs r.1 ≤ count_allowed u t.calls l)
            (ap (λ (q : Outcome A × State Store). q.1.limits) f
              ∙ through_limits v.clock user_id no_user body s)
            t.counted));
  }

  trace :
      (u : UserId) (start end : ℕ) (vs : List (Visit A Store)) (s : State Store)
      → AreTimed start end vs
      → Traced u start end vs s
  trace u start end [] s t = record {
    calls = [];
    timed = t;
    counted = unfold count_values in omega arith;
  }
  trace u start end (v ∷ vs) s (b, t) =
      extend u start end v vs s v.context (v.handler s) refl refl b (v.gated s)
        (trace u v.clock.now end vs (v.handler s).1 t)

  -- In a history of requests that each go through the limit of one endpoint, or are answered with an
  -- error before it, with clock readings in order between `start` and `end`, a user gets at most two
  -- values, and two more for each whole second between `start` and `end`, whatever else the handler
  -- does.
  pub count_values-le_rate :
      (u : UserId) (start end : ℕ) (vs : List (Visit A Store)) (s : State Store)
      → AreTimed start end vs
      → count_values u vs s ≤ 2 + 2 * ((end - start) / nanos_per_second)
  count_values-le_rate u start end vs s t =
      let traced = trace u start end vs s t in
      omega (
        arith,
        traced.counted,
        count_allowed-le_rate u start end traced.calls s.limits traced.timed,
      )
