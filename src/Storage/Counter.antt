-- ===== src/Storage/Counter.antt =====
-- The counter `next_id_` of a storage in memory over a sequence of calls, whatever the class.
use leadertask_userver.Base.{
  ℕ, zero, suc, ◌+◌, ◌≤◌, ◌≡◌, refl, ◌∙◌, ap, Option, none, some, List, [], ◌∷◌, arith, length,
}
use leadertask_userver.Base.Int.{ℤ, pos}

-- The ids of a call that may give one, before those of the later calls.
abbrev pub given : Option ℤ → List ℤ → List ℤ
given none ids = ids
given (some id) ids = id ∷ ids

module _ {Command State : Type 0} (step : Command → State → Option ℤ × State) where
  -- The ids that a sequence of calls gives.
  unfoldable pub ids : List Command → State → List ℤ
  ids [] s = []
  ids (call ∷ calls) s = given (step call s).0 (ids calls (step call s).1)

  -- The state after them.
  unfoldable pub last : List Command → State → State
  last [] s = s
  last (call ∷ calls) s = last calls (step call s).1

-- So many ids in a row.
unfoldable pub counted : ℕ → ℕ → List ℤ
counted n zero = []
counted n (suc k) = pos n ∷ counted (n + 1) k

-- A call gives no id and leaves the counter, or gives its value and counts on.
abbrev pub Advances : ℕ → Option ℤ → ℕ → Type 0
Advances n none m = m ≡ n
Advances n (some id) m = (id ≡ pos n) × (m ≡ n + 1)

-- The ids are those from `n` on, none twice and none left out, the counter ends behind them, and they are not more
-- than the calls.
abbrev pub IsCounted : ℕ → List ℤ → ℕ → ℕ → Type 0
IsCounted n ids end calls =
    (ids ≡ counted n (length ids)) × (end ≡ n + length ids) × (length ids ≤ calls)

given-IsCounted :
    (n m end calls : ℕ) (o : Option ℤ) (ids : List ℤ)
    → Advances n o m
    → IsCounted m ids end calls
    → IsCounted n (given o ids) end (suc calls)
unfolding counted
given-IsCounted n m end calls none ids kept (row, ended, few) =
    (row ∙ ap (λ x. counted x (length ids)) kept, omega (arith, kept, ended), omega (arith, few))
given-IsCounted n m end calls (some id) ids (own, on) (row, ended, few) = (
  rw own (ap (λ rest. pos n ∷ rest) (row ∙ ap (λ x. counted x (length ids)) on)),
  omega (arith, on, ended),
  omega (arith, few),
)

-- If every call advances the counter, the ids of any sequence of calls are counted.
pub ids-IsCounted :
    {Command State : Type 0} (step : Command → State → Option ℤ × State) (next_id : State → ℕ)
    → ((call : Command) (s : State)
        → Advances (next_id s) (step call s).0 (next_id (step call s).1))
    → (calls : List Command) (s : State)
    → IsCounted (next_id s) (ids step calls s) (next_id (last step calls s)) (length calls)
unfolding ids last counted
ids-IsCounted step next_id advances [] s = (refl, omega arith, omega arith)
ids-IsCounted step next_id advances (call ∷ calls) s =
    given-IsCounted (next_id s) (next_id (step call s).1) _ (length calls) (step call s).0 _
      (advances call s) (ids-IsCounted step next_id advances calls (step call s).1)
