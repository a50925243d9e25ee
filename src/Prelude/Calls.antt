-- ===== src/Prelude/Calls.antt =====
-- How a call ends: with a result, waiting for another thread, or at a failed `assert`.
use mathlib.Core.Bool.{Bool, true, false}

pub data Outcome {ℓ} (A : Type ℓ) : Type ℓ where
  done : A → Outcome A
  spin : Outcome A
  fault : Outcome A

infixl 5 ◌>>=◌ ◌>>◌
abbrev pub ◌>>=◌ {ℓ κ} : {A : Type ℓ} {B : Type κ} → Outcome A → (A → Outcome B) → Outcome B
done a >>= f = f a
spin >>= f = spin
fault >>= f = fault

abbrev pub ◌>>◌ {ℓ} : {B : Type ℓ} → Outcome (Unit {0}) → Outcome B → Outcome B
done a >> k = k
spin >> k = spin
fault >> k = fault

-- `assert` of <cassert>.
abbrev pub assert : Bool → Outcome (Unit {0})
assert true = done tt
assert false = fault
