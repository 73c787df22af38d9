-- ===== src/Prelude/Effects.antt =====
-- How a call ends: with a value, or in a way that nothing in the program recovers from.
use Prim.Native.Nat.{ℕ}
use mathlib.Core.Option.{Option, none, some}
use mathlib.Core.List.{List}
use remote_backup_m.Prelude.Lists.{get_elem?}

-- `undefined_behaviour` is a read outside an object's memory or through a null pointer. The
-- exceptions are those that the program leaves uncaught. `exit_failure` is `std::exit(EXIT_FAILURE)`.
-- `blocked` is a call that waits for a socket or a stream that delivers nothing more. `out_of_fuel`
-- belongs to the model alone: a loop was given too few rounds.
pub data Failure : Type 0 where
  undefined_behaviour logic_error runtime_error length_error out_of_range : Failure
  invalid_argument exit_failure blocked out_of_fuel : Failure

pub data Outcome {ℓ} (A : Type ℓ) : Type ℓ where
  ok : A → Outcome A
  err : Failure → Outcome A

infixl 5 ◌>>=◌
abbrev pub ◌>>=◌ {ℓ κ} : {A : Type ℓ} {B : Type κ} → Outcome A → (A → Outcome B) → Outcome B
err failure >>= next = err failure
ok result >>= next = next result

-- What `*p` yields where `p` may point nowhere.
abbrev pub deref {ℓ} : {A : Type ℓ} → Option A → Outcome A
deref none = err undefined_behaviour
deref (some a) = ok a

-- `v[i]`, or the value under an iterator.
abbrev pub fetch {ℓ} : {A : Type ℓ} → List A → ℕ → Outcome A
fetch xs i = deref (get_elem? xs i)
