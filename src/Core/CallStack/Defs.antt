-- ===== src/Core/CallStack/Defs.antt =====
-- The objects of core/thread/detail/CallStack.h and core/fiber/detail/CallStack.h.
use ustevent.Prelude.{
  ℕ, zero, suc, Option, none, some, Outcome, done, spin, fault, ◌==◌, update, if◌then◌else◌,
}

-- `CallStack::Context`.
pub record Entry : Type 0 where
  pub next : Option ℕ
  pub key : ℕ
  pub value : ℕ

pub record CallStack : Type 0 where
  pub objects : ℕ → Option Entry
  pub top : Option ℕ

abbrev pub empty : CallStack
empty = record { objects = λ _. none; top = none }

-- The constructor of an object at the address `a`.
unfoldable pub enter_object : CallStack → ℕ → ℕ → ℕ → CallStack
enter_object s a key value = record {
  objects = update s.objects a (some (record { next = s.top; key = key; value = value }));
  top = some a;
}

-- `contain` from an element on, on fuel.
unfoldable pub contain_from : ℕ → (ℕ → Option Entry) → ℕ → Option ℕ → Outcome (Option ℕ)
contain_from zero objects key element = spin
contain_from (suc fuel) objects key none = done none
contain_from (suc fuel) objects key (some a) = elim (objects a) [
  | none ↦ fault
  | some e ↦
      let rest = contain_from fuel objects key e.next in
      if e.key == key then done (some e.value) else rest
]

unfoldable pub contain : ℕ → CallStack → ℕ → Outcome (Option ℕ)
contain fuel s key = contain_from fuel s.objects key s.top

-- The stack of a fiber, whose top is behind a pointer that is null at first.
pub record FiberCallStack : Type 0 where
  pub objects : ℕ → Option Entry
  pub top : Option (Option ℕ)

abbrev pub element_of : Option (Option ℕ) → Option ℕ
element_of none = none
element_of (some element) = element

unfoldable pub enter_fiber : FiberCallStack → ℕ → ℕ → ℕ → FiberCallStack
enter_fiber s a key value = record {
  objects =
      update s.objects a (some (record { next = element_of s.top; key = key; value = value }));
  top = some (some a);
}

unfoldable pub contain_in_fiber : ℕ → FiberCallStack → ℕ → Outcome (Option ℕ)
contain_in_fiber fuel s key = contain_from fuel s.objects key (element_of s.top)
