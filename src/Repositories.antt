-- ===== src/Repositories.antt =====
-- The repositories of src/repositories, over the services that they call.
pub mod Tasks
pub mod Users
pub mod Goals
use Prim.Native.String.{String}
use leadertask_userver.Base.{List, [], ◌∷◌, Option, none, some, Result, ok, err}
use leadertask_userver.Definitions.{Exception}

-- `AsSingleRow`: exactly one row, or an exception of the driver.
abbrev pub single_row {ℓ} : {A : Type ℓ} → List A → Result Exception A
single_row (a ∷ []) = ok a
single_row _ = err (record { what = "NonSingleRowResultSet" })

-- `if (result.IsEmpty()) return std::nullopt; return result.AsSingleRow(…)`.
abbrev pub optional_row {ℓ} : {A : Type ℓ} → List A → Result Exception (Option A)
optional_row [] = ok none
optional_row (a ∷ []) = ok (some a)
optional_row _ = err (record { what = "NonSingleRowResultSet" })
