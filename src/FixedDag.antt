-- ===== src/FixedDag.antt =====
-- fixed_dag.py: the runtime that executes a fixed workflow. This file has what surrounds it, which
-- are parameters: the interpreter, the hashes, the texts of messages and the binding of evidence.
pub mod Sources
pub mod ModelResult
pub mod Records
pub mod Drafts
pub mod Preflight
pub mod Worker
pub mod Calls
pub mod Turns
pub mod Tracking
pub mod Own
pub mod Working
pub mod Calling
pub mod Ended
pub mod Over
pub mod Taken
pub mod Promises
use alpha_orchestration.Prelude.{ℕ, String, Bool, true, false}
use alpha_orchestration.Prelude.Dict.{Dict}
use alpha_orchestration.Result.{Error}
use alpha_orchestration.Json.{Json}
use alpha_orchestration.Json.Python.{Python}
use alpha_orchestration.Journal.Verifier.{Hashing}
use alpha_orchestration.Actions.{Decoder}

-- A value, an `ObservationBindingError` with its code and its flag `repairable`, or another
-- exception.
pub data Bound {ℓ} (A : Type ℓ) : Type ℓ where
  bound : A → Bound A
  unbound : String → Bool → Bound A
  broken : Error → Bound A

infixl 5 ◌>>=◌ ◌>>◌
abbrev pub ◌>>=◌ {ℓ κ} : {V : Type ℓ} {W : Type κ} → Bound V → (V → Bound W) → Bound W
unbound code repairable >>= next = unbound code repairable
broken e >>= next = broken e
bound v >>= next = next v

abbrev pub ◌>>◌ {ℓ} : {W : Type ℓ} → Bound (Unit {0}) → Bound W → Bound W
check >> rest = check >>= λ _. rest

-- `if not test: raise ObservationBindingError(code, …)`
abbrev pub demand : Bool → String → Bound (Unit {0})
demand true code = bound tt
demand false code = unbound code false

-- `canonical_size v` is the number of bytes of the canonical JSON text of `v`, `repr` is Python's
-- `repr`, and `wording code` stands for the message that goes with an error code; the real message
-- may also name values. `bind_finance_arguments name proposed packet` is the function of that name,
-- whose observations are not modelled: it may return or raise anything.
pub record Surroundings : Type 0 where
  pub py : Python
  pub hashing : Hashing
  pub decoder : Decoder
  pub repr : Json → String
  pub canonical_size : Json → ℕ
  pub wording : String → String
  pub bind_finance_arguments : String → Dict Json → Json → Bound (Dict Json × Dict Json)
