-- ===== src/Views/Limited/Cases.antt =====
-- How a request passes the limit, for the laws of the single handlers.
use Prim.Native.String.{String}
use leadertask_userver.Base.{
  subst, ◌≡◌, refl, sym, ◌∙◌, ap, true, false, Option, none, some, ◌⊎◌, inl, inr, Bool-cases,
}
use leadertask_userver.RateLimit.{UserId}
use leadertask_userver.Http.{Outcome, rate_limited}
use leadertask_userver.Views.Limited.{Clock, State, Body, Limiter, limited, keep_limits}
use leadertask_userver.Views.Limited.Rate.{is_value}

module _ {A Store : Type 0} (check : Limiter) (no_user : String) (clock : Clock)
    (context : Option UserId) (body : Body A Store) (s : State Store) where
  -- The request is let through to the body.
  pub record Passed : Type 0 where
    pub user_id : UserId
    pub known : context ≡ some user_id
    pub allowed : (check clock.now clock.created user_id s.limits).0.allowed ≡ true
    pub result :
        limited check no_user clock context body s
        ≡ keep_limits (check clock.now clock.created user_id s.limits).1 (body user_id s.store)

  -- The request is answered with an error, and the store is as before.
  pub record Stopped : Type 0 where
    pub no_value : is_value (limited check no_user clock context body s).0 ≡ false
    pub store : (limited check no_user clock context body s).1.store ≡ s.store

module _ {A Store : Type 0} (check : Limiter) (no_user : String) (clock : Clock)
    (body : Body A Store) (s : State Store) where
  limited_known :
      (user_id : UserId)
      → Passed check no_user clock (some user_id) body s
        ⊎ Stopped check no_user clock (some user_id) body s
  unfolding limited rate_limited
  limited_known user_id =
      elim (Bool-cases (check clock.now clock.created user_id s.limits).0.allowed) [
        | inl pass ↦
            inl (record { user_id = user_id; known = refl; allowed = pass; result = rw pass })
        | inr fails ↦ inr (record { no_value = rw fails refl; store = rw fails refl })
      ]

  pub limited_cases :
      (context : Option UserId)
      → Passed check no_user clock context body s ⊎ Stopped check no_user clock context body s
  unfolding limited
  limited_cases none = inr (record { no_value = refl; store = refl })
  limited_cases (some user_id) = limited_known user_id

  -- A value comes from the body, which is run for the user of the context.
  pub limited_value :
      (context : Option UserId) (out : Outcome A)
      → is_value out ≡ true
      → (limited check no_user clock context body s).0 ≡ out
      → (user_id : UserId) × (context ≡ some user_id)
        × (body user_id s.store ≡ (out, (limited check no_user clock context body s).1.store))
  limited_value context out good h = elim (limited_cases context) [
    | inl p ↦ (
      p.user_id,
      p.known,
      sym (ap (λ (q : Outcome A × State Store). (q.0, q.1.store)) p.result)
          ∙ ap (λ (o : Outcome A). (o, (limited check no_user clock context body s).1.store)) h,
    )
    | inr q ↦ cc (q.no_value, ap is_value h, good)
  ]

  -- If the body leaves the store as it is when it gives no value, so does the handler.
  pub limited_same :
      (context : Option UserId)
      → ((user_id : UserId)
          → is_value (body user_id s.store).0 ≡ false
          → (body user_id s.store).1 ≡ s.store)
      → is_value (limited check no_user clock context body s).0 ≡ false
      → (limited check no_user clock context body s).1.store ≡ s.store
  limited_same context same fails = elim (limited_cases context) [
    | inl p ↦
        ap (λ (q : Outcome A × State Store). q.1.store) p.result
        ∙ same p.user_id (ap (λ (q : Outcome A × State Store). is_value q.0) (sym p.result) ∙ fails)
    | inr q ↦ q.store
  ]

  -- What holds of the store as it is and after the body, for a known user, holds after the handler.
  pub limited_takes {ℓ} :
      (context : Option UserId) (P : Store → Type ℓ)
      → ((user_id : UserId) → context ≡ some user_id → P (body user_id s.store).1)
      → P s.store
      → P (limited check no_user clock context body s).1.store
  limited_takes context P takes h = elim (limited_cases context) [
    | inl p ↦
        subst P (sym (ap (λ (q : Outcome A × State Store). q.1.store) p.result))
          (takes p.user_id p.known)
    | inr q ↦ subst P (sym q.store) h
  ]

  -- What the body keeps of the store, the handler keeps.
  pub limited_keeps {ℓ} :
      (context : Option UserId) (P : Store → Type ℓ)
      → ((user_id : UserId) → P s.store → P (body user_id s.store).1)
      → P s.store
      → P (limited check no_user clock context body s).1.store
  limited_keeps context P keeps h = limited_takes context P (λ user_id known. keeps user_id h) h

  -- A call of a known user that is allowed is answered by the body.
  pub limited_passes :
      (user_id : UserId)
      → (check clock.now clock.created user_id s.limits).0.allowed ≡ true
      → (limited check no_user clock (some user_id) body s).0 ≡ (body user_id s.store).0
  unfolding limited
  limited_passes user_id pass = rw pass refl

  -- A value for a known user means that the call is allowed, and is the body's.
  pub limited_reply :
      (user_id : UserId) (out : Outcome A)
      → is_value out ≡ true
      → (limited check no_user clock (some user_id) body s).0 ≡ out
      → ((check clock.now clock.created user_id s.limits).0.allowed ≡ true)
        × ((body user_id s.store).0 ≡ out)
  unfolding limited rate_limited
  limited_reply user_id out good h =
      elim (Bool-cases (check clock.now clock.created user_id s.limits).0.allowed) [
        | inl pass ↦ (pass, sym (limited_passes user_id pass) ∙ h)
        | inr fails ↦
            let no_value : is_value (limited check no_user clock (some user_id) body s).0 ≡ false =
              rw fails refl in
            cc (no_value, ap is_value h, good)
      ]
