-- ===== src/Core/ContextStrategy/Ready.antt =====
-- The ready contexts of all strategies of a ContextStrategy's context.
use mathlib.Core.Option.{some-injective}
use ustevent.Prelude.{
  ℕ, zero, suc, ◌<◌, ◌+◌, ◌≡◌, ◌∙◌, refl, ap, arith, false, Bool-cases, inl, inr, Option, none,
  some, List, [], ◌∷◌, ◌==◌, if◌then◌else◌, length, get_elem?, set, length-set, get_elem?-set,
}
use ustevent.Core.ContextStrategy.{ContextStrategy, ReadyQueue, Kinds}

-- How often a context is among a victim.
abbrev pub hit : Option ℕ → ℕ → ℕ
hit none c = 0
hit (some x) c = if x == c then 1 else 0

-- What is relied on of Boost's queue: it holds contexts, pop and steal take out the context that
-- they return, and steal returns no pinned one.
pub record QueueLaws (rq : ReadyQueue) (kinds : Kinds) : Type 0 where
  pub holds : rq.Queue → ℕ → ℕ
  pub pop_law : (q : rq.Queue) (c : ℕ) → holds q c ≡ holds (rq.pop q).1 c + hit (rq.pop q).0 c
  pub steal_law : (q : rq.Queue) (c : ℕ) → holds q c ≡ holds (rq.steal q).1 c + hit (rq.steal q).0 c
  pub steal_free : (q : rq.Queue) (c : ℕ) → (rq.steal q).0 ≡ some c → kinds.is_pinned c ≡ false

module _ {rq : ReadyQueue} {kinds : Kinds} (laws : QueueLaws rq kinds) where
  open laws use {holds, pop_law, steal_law, steal_free}

  -- How often a context is ready at a strategy, and at all of them.
  abbrev pub ready_at : Option (ContextStrategy rq.Queue) → ℕ → ℕ
  ready_at none c = 0
  ready_at (some s) c = holds s.ready_queue c

  abbrev pub ready : List (Option (ContextStrategy rq.Queue)) → ℕ → ℕ
  ready [] c = 0
  ready (e ∷ table) c = ready_at e c + ready table c

  pub ready-set :
      (table : List (Option (ContextStrategy rq.Queue))) (n : ℕ)
      (old new : Option (ContextStrategy rq.Queue)) (c : ℕ)
      → get_elem? table n ≡ some old
      → ready (set table n new) c + ready_at old c ≡ ready table c + ready_at new c
  ready-set [] n old new c e = cc
  ready-set (x ∷ table) zero old new c e =
      let same : x ≡ old = some-injective x old e in omega (arith, ap (λ y. ready_at y c) same)
  ready-set (x ∷ table) (suc n) old new c e = omega (arith, ready-set table n old new c e)

-- Every strategy of the context is made.
abbrev pub Full : {Q : Type 0} → List (Option (ContextStrategy Q)) → Type 0
Full {Q} table =
    (n : ℕ) → n < length table → (s : ContextStrategy Q) × (get_elem? table n ≡ some (some s))

pub Full-set :
    {Q : Type 0} (table : List (Option (ContextStrategy Q))) (n : ℕ) (s s' : ContextStrategy Q)
    → get_elem? table n ≡ some (some s)
    → Full table
    → Full (set table n (some s'))
Full-set table n s s' at full j low = elim (Bool-cases (n == j)) [
  | inl e ↦ (s', get_elem?-set table n j (some s') (some s) at ∙ rw e refl)
  | inr e ↦
      let (r, old) = full j (omega (arith, length-set table n (some s'))) in
      (r, get_elem?-set table n j (some s') (some s) at ∙ rw e old)
]
