-- ===== src/Core/Fiber.antt =====
-- ustevent/core/Fiber.h, .hpp and .cpp: a handle that makes and starts a fiber context of Boost. A
-- context, and the function that a fiber runs, are numbers that name them; what start asks of Boost
-- is a list of effects. A moved-from string is taken to be empty.
use ustevent.Prelude.{
  ℕ, Bool, true, false, Option, none, some, List, [], ◌∷◌, Outcome, done, fault, ltb, ◌==◌,
  if◌then◌else◌,
}
use ustevent.Core.FiberDebugInfo
use ustevent.Core.FiberDebugInfo.{FiberDebugInfo}

-- `boost::fibers::launch`.
pub data Policy : Type 0 where
  dispatch : Policy
  post : Policy

-- A stack of `protected_fixedsize_stack`, or the default one.
pub data Stack : Type 0 where
  sized : ℕ → Stack
  default_stack : Stack

pub record Fiber : Type 0 where
  pub context : Option ℕ
  pub policy : Policy
  pub stack_size : ℕ
  pub description : List ℕ

pub data Effect : Type 0 where
  make_worker_context : ℕ → Policy → Stack → ℕ → Effect
  set_properties : ℕ → FiberDebugInfo → Effect
  attach : ℕ → Effect
  schedule : ℕ → Effect
  resume : ℕ → Effect
  wait_for : ℕ → Effect

unfoldable pub create : Fiber
create = record { context = none; policy = post; stack_size = 0; description = [] }

unfoldable pub set_policy : Policy → Fiber → Fiber
set_policy p f = record f { policy = p }

unfoldable pub set_stack_size : ℕ → Fiber → Fiber
set_stack_size n f = record f { stack_size = n }

-- The overload for a `string`.
unfoldable pub set_description : List ℕ → Fiber → Fiber
set_description text f = record f { description = text }

-- The overload for a `string_view`, which leaves the description when the view is empty.
unfoldable pub set_description_view : List ℕ → Fiber → Fiber
set_description_view [] f = f
set_description_view (c ∷ text) f = record f { description = c ∷ text }

-- `join` of a fiber that is not active; it waits for the context, and a handle without one is a
-- null pointer.
pub join : Fiber → ℕ → Outcome (Fiber × Effect)
join f active = elim f.context [
  | none ↦ fault
  | some c ↦ if active == c then fault else done (record f { context = none }, wait_for c)
]

unfoldable pub detach : Fiber → Fiber
detach f = record f { context = none }

-- The new handle and what is left of the other one.
pub move : Fiber → Fiber × Fiber
move another = (another, record another { context = none; description = [] })

-- `true` when both sides are one object.
pub assign : Bool → Fiber → Fiber → Fiber × Fiber
assign true f another = (f, f)
assign false f another = move another

-- What the fiber does to its debug info when its function has returned.
unfoldable pub finish : FiberDebugInfo → FiberDebugInfo
finish d = FiberDebugInfo.set_terminated true d

abbrev pub stack_of : ℕ → Stack
stack_of n = if ltb 0 n then sized n else default_stack

abbrev pub launch : Policy → ℕ → Effect
launch post c = schedule c
launch dispatch c = resume c

-- `start` of the function `task`, in the context `c` that Boost makes.
unfoldable pub start : Fiber → ℕ → ℕ → Fiber × List Effect
start f task c = (
  record f { context = some c; description = [] },
  make_worker_context c f.policy (stack_of f.stack_size) task
      ∷ set_properties c (FiberDebugInfo.set_description f.description FiberDebugInfo.create)
      ∷ attach c
      ∷ launch f.policy c
      ∷ [],
)
