-- ===== src/Core/ListQueue.antt =====
-- ustevent/core/concurrency/detail/ListQueue.h and .hpp, and SpmcListQueue over it: a linked queue
-- whose first node is a dummy, with the nodes of a ListNodeAllocator. Each call is one step.
pub mod Fifo
pub mod Refine
mod Tests
use ustevent.Prelude.{
  ℕ, Bool, true, false, Option, none, some, Outcome, done, spin, fault, ◌>>=◌, update, List, [],
  ◌∷◌,
}
use ustevent.Core.ListNodeAllocator.{ListNodeAllocator, create, alloc, free}

-- A queue is its allocator; its constructor takes the allocator's default.
abbrev pub ListQueue : Type 0 → Type 0
ListQueue A = ListNodeAllocator A

abbrev pub default_alloc_size : ℕ
default_alloc_size = 32

module _ {A : Type 0} where
  unfoldable pub create_queue : A → ListQueue A
  unfolding create
  create_queue blank = create default_alloc_size blank

  -- `node->_data = input`.
  abbrev pub fill : ListQueue A → ℕ → A → ListQueue A
  fill q node input = record q { value = update q.value node input }

  -- `head->_next = node` and `head = node`.
  abbrev pub append_node : ListQueue A → ℕ → ListQueue A
  append_node q node = record q { next = update q.next q.head (some node); head = node }

  unfoldable pub enqueue_sp : ListQueue A → A → Outcome (ListQueue A)
  enqueue_sp q input = do (node, t) ← alloc q; done (append_node (fill t node input) node)

  -- With an exchange of the head in place of a load and a store.
  unfoldable pub enqueue_mp : ListQueue A → A → Outcome (ListQueue A)
  enqueue_mp q input = do (node, t) ← alloc q; done (append_node (fill t node input) node)

  -- What the three kinds of dequeue do with the dummy node: the element, if there is one.
  unfoldable pub take_next : ListQueue A → ℕ → Option A × ListQueue A
  take_next q tail = elim (q.next tail) [
    | none ↦ (none, q)
    | some n ↦ (some (q.value n), free (record q { tail = some n }) tail)
  ]

  unfoldable pub dequeue_sc : ListQueue A → Outcome (Option A × ListQueue A)
  dequeue_sc q = elim q.tail [ none ↦ fault | some tail ↦ done (take_next q tail) ]

  unfoldable pub dequeue_mc : ListQueue A → Outcome (Option A × ListQueue A)
  dequeue_mc q = elim q.tail [ none ↦ spin | some tail ↦ done (take_next q tail) ]

  -- It gives up where another thread holds the tail.
  unfoldable pub dequeue_mc_weak : ListQueue A → Outcome (Option A × ListQueue A)
  dequeue_mc_weak q = elim q.tail [ none ↦ done (none, q) | some tail ↦ done (take_next q tail) ]

-- The calls on a queue.
pub data Call (A : Type 0) : Type 0 where
  put_sp : A → Call A
  put_mp : A → Call A
  take_sc : Call A
  take_mc : Call A
  take_mc_weak : Call A

module _ {A : Type 0} where
  -- One call: `none` where it returns nothing or false.
  unfoldable pub perform_call : ListQueue A → Call A → Outcome (Option A × ListQueue A)
  perform_call q (put_sp x) = enqueue_sp q x >>= λ t. done (none, t)
  perform_call q (put_mp x) = enqueue_mp q x >>= λ t. done (none, t)
  perform_call q take_sc = dequeue_sc q
  perform_call q take_mc = dequeue_mc q
  perform_call q take_mc_weak = dequeue_mc_weak q

  unfoldable pub run : ListQueue A → List (Call A) → Outcome (List (Option A))
  run q [] = done []
  run q (c ∷ cs) = do (out, t) ← perform_call q c; outs ← run t cs; done (out ∷ outs)
