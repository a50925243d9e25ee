-- ===== src/Core/ListNodeAllocator.antt =====
-- ustevent/core/concurrency/detail/ListNodeAllocator.h and .hpp, and the ObjectPool over it: nodes
-- that are linked in a free list. A node is its address; `next` and `value` are the nodes' fields.
-- `new` takes the addresses from `fresh` on. A pointer that is exchanged for null while a thread
-- uses it is `none` then. Each call is one step.
pub mod Chains
pub mod Alloc
use ustevent.Prelude.{
  ℕ, zero, suc, ◌+◌, ◌-◌, Bool, true, false, ◌&&◌, Option, none, some, Outcome, done, spin, fault,
  ◌>>=◌, ltb, leb, update, if◌then◌else◌, List, [], ◌∷◌, ◌++◌, drop, ◌==◌,
}

pub record ListNodeAllocator (A : Type 0) : Type 0 where
  pub alloc_size : ℕ
  pub next : ℕ → Option ℕ
  pub value : ℕ → A
  pub head : ℕ
  pub tail : Option ℕ
  pub free_list_head : ℕ
  pub free_list_tail : Option ℕ
  pub fresh : ℕ
  -- The storage nodes in their order, each by its first node and the number of its nodes.
  pub storage : List (ℕ × ℕ)

-- The next pointers with those of `n` new nodes, which are null.
abbrev pub blank_nodes : (ℕ → Option ℕ) → ℕ → ℕ → ℕ → Option ℕ
blank_nodes next first n j = if leb first j && ltb j (first + n) then none else next j

-- The loop over `i` from 2 to `n`, with `new_nodes` at `first`.
abbrev pub link_nodes : ℕ → ℕ → (ℕ → Option ℕ) → ℕ → Option ℕ
link_nodes first zero next = next
link_nodes first (suc zero) next = next
link_nodes first (suc (suc i)) next =
    update (link_nodes first (suc i) next) (first + suc (suc i)) (some (first + suc i))

module _ {A : Type 0} where
  -- The head and the tail are the first node, the free list is the second one.
  unfoldable pub create : ℕ → A → ListNodeAllocator A
  create alloc_size blank = record {
    alloc_size = alloc_size;
    next = λ _. none;
    value = λ _. blank;
    head = 0;
    tail = some 0;
    free_list_head = 1;
    free_list_tail = some 1;
    fresh = 2;
    storage = (0, 0) ∷ (0, 2) ∷ [];
  }

  -- The storage nodes that the destructor deletes.
  pub destroy : ListNodeAllocator A → List (ℕ × ℕ)
  destroy s = drop 1 s.storage

  unfoldable pub try_dequeue_free_list :
      ListNodeAllocator A → Outcome (Option ℕ × ListNodeAllocator A)
  try_dequeue_free_list s = elim s.free_list_tail [
    | none ↦ spin
    | some node ↦ elim (s.next node) [
      | none ↦ done (none, s)
      | some n ↦
          done (some node, record s { free_list_tail = some n; next = update s.next node none })
    ]
  ]

  -- A new vector of nodes: the first is returned, the others go to the free list.
  unfoldable pub grow : ListNodeAllocator A → Outcome (ℕ × ListNodeAllocator A)
  grow s =
      if ltb s.alloc_size 2
      then fault
      else let chain =
          link_nodes s.fresh (s.alloc_size - 1) (blank_nodes s.next s.fresh s.alloc_size) in
        done (
          s.fresh,
          record s {
            next = update chain s.free_list_head (some (s.fresh + (s.alloc_size - 1)));
            free_list_head = s.fresh + 1;
            fresh = s.fresh + s.alloc_size;
            storage = s.storage ++ (s.fresh, s.alloc_size) ∷ [];
          },
        )

  unfoldable pub alloc : ListNodeAllocator A → Outcome (ℕ × ListNodeAllocator A)
  alloc s = do
    (node, t) ← try_dequeue_free_list s
    elim node [ some n ↦ done (n, t) | none ↦ grow t ]

  unfoldable pub free : ListNodeAllocator A → ℕ → ListNodeAllocator A
  free s node = record s {
    next = update (update s.next node none) s.free_list_head (some node);
    free_list_head = node;
  }
