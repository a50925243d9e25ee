-- ===== src/Core/ContextTaskQueue/Layout.antt =====
-- Reading and writing the bytes of a task.
use ustevent.Prelude.{
  ℕ, ◌+◌, ◌-◌, ◌%◌, ◌^◌, ◌≤◌, ◌<◌, ◌≡◌, ◌∙◌, ◌⊎◌, inl, refl, subst, true, none, some, List, [], ◌∷◌,
  length, ltb, leb, if◌then◌else◌, get_or, arith, lt→ltb,
}
use ustevent.Core.ContextTaskQueue.{
  Memory, store, bytes32, load32, round_up, stack_size_offset, description_offset, acquired_size,
  write_task, read_task,
}

store_out :
    (m : Memory) (i : ℕ) (bs : List ℕ) (j : ℕ)
    → (j < i) ⊎ (i + length bs ≤ j)
    → store m i bs j ≡ m j
unfolding store
store_out m i bs j h = ground arith

le→leb : (a b : ℕ) → a ≤ b → leb a b ≡ true
le→leb a b h = ground arith

store_in :
    (m : Memory) (i : ℕ) (bs : List ℕ) (k : ℕ)
    → k < length bs
    → store m i bs (i + k) ≡ get_or bs k 0
unfolding store
store_in m i bs k h =
    let e : i + k - i ≡ k = omega arith in
    rw (lt→ltb (i + k) (i + length bs) (omega arith), le→leb i (i + k) (omega arith), e)

store_first : (m : Memory) (i : ℕ) (bs : List ℕ) → 0 < length bs → store m i bs i ≡ get_or bs 0 0
store_first m i bs h =
    let e : i + 0 ≡ i = omega arith in
    subst (λ j. store m i bs j ≡ get_or bs 0 0) e (store_in m i bs 0 h)

load32_out :
    (m : Memory) (i : ℕ) (bs : List ℕ) (j : ℕ)
    → (j + 4 ≤ i) ⊎ (i + length bs ≤ j)
    → load32 (store m i bs) j ≡ load32 m j
unfolding load32
load32_out m i bs j h = rw (
  store_out m i bs j (omega arith),
  store_out m i bs (j + 1) (omega arith),
  store_out m i bs (j + 2) (omega arith),
  store_out m i bs (j + 3) (omega arith),
)

load32_in : (m : Memory) (i n : ℕ) → load32 (store m i (bytes32 n)) i ≡ n % 2 ^ 32
unfolding load32
load32_in m i n = omega (
  arith,
  store_first m i (bytes32 n) (omega arith),
  store_in m i (bytes32 n) 1 (omega arith),
  store_in m i (bytes32 n) 2 (omega arith),
  store_in m i (bytes32 n) 3 (omega arith),
)

le_round_up : (n : ℕ) → n < 2 ^ 32 → (n ≤ round_up n) × (round_up n ≤ n + 7)
unfolding round_up
le_round_up n h = (omega arith, omega arith)

-- The parameters of one task. Sizes below 2 ^ 30 keep its length below 2 ^ 32.
module _ (m : Memory) (base stack_size : ℕ) (operation description : List ℕ)
    (ho : length operation < 2 ^ 30) (hd : length description < 2 ^ 30) where
  room : length operation ≤ round_up (length operation)
  room = (le_round_up (length operation) (omega arith)).0

  word_task_length :
      load32 (write_task m base operation stack_size description) base
      ≡ acquired_size operation description
  unfolding write_task
  word_task_length =
      let r = room in
      let u = (le_round_up (length operation) (omega arith)).1 in
      let t = (le_round_up (length description + 1) (omega arith)).1 in
      load32_out _ _ _ _ (inl (omega arith))
      ∙ load32_out _ _ _ _ (inl (omega arith))
      ∙ load32_out _ _ _ _ (inl (omega arith))
      ∙ load32_out _ _ _ _ (inl (omega arith))
      ∙ load32_out _ _ _ _ (inl (omega arith))
      ∙ load32_out _ _ _ _ (inl (omega arith))
      ∙ load32_in m base _
      ∙ omega arith

  word_operation_length :
      load32 (write_task m base operation stack_size description) (base + 4) ≡ length operation
  unfolding write_task
  word_operation_length =
      let r = room in
      load32_out _ _ _ _ (inl (omega arith))
      ∙ load32_out _ _ _ _ (inl (omega arith))
      ∙ load32_out _ _ _ _ (inl (omega arith))
      ∙ load32_out _ _ _ _ (inl (omega arith))
      ∙ load32_out _ _ _ _ (inl (omega arith))
      ∙ load32_in _ (base + 4) _
      ∙ omega arith

  word_stack_size :
      load32
        (write_task m base operation stack_size description)
        (base + stack_size_offset (length operation))
      ≡ stack_size % 2 ^ 32
  unfolding write_task
  word_stack_size =
      load32_out _ _ _ _ (inl (omega arith))
      ∙ load32_out _ _ _ _ (inl (omega arith))
      ∙ load32_out _ _ _ _ (inl (omega arith))
      ∙ load32_in _ _ _

  -- The task that `pop` reads where `push` wrote one has the operation eight bytes after its start, the stack size modulo
  -- 2 ^ 32, and the address of the description exactly when the operation has any byte; its length is the acquired size,
  -- and `deallocate`, from the address of the operation, reads that length again.
  pub read_task-write_task :
      let m' = write_task m base operation stack_size description in
      (read_task m' base ≡ record {
        operation = base + 8;
        stack_size = stack_size % 2 ^ 32;
        description =
            if ltb 0 (length operation)
            then some (base + description_offset (length operation))
            else none;
      })
      × (load32 m' base ≡ acquired_size operation description)
      × (load32 m' (base + 8 - 8) ≡ acquired_size operation description)
  unfolding read_task
  read_task-write_task = (
    rw (word_operation_length, word_stack_size) refl,
    word_task_length,
    (let e : base + 8 - 8 ≡ base = omega arith in rw e word_task_length),
  )

  -- Each byte `k` of the operation and `d` of the description, which a zero follows, is found where `pop` says it is.
  pub write_task-bytes :
      (k d : ℕ)
      → k < length operation
      → d < length description
      → let m' = write_task m base operation stack_size description in
        let text = base + description_offset (length operation) in
        (m' (base + 8 + k) ≡ get_or operation k 0)
        × (m' (text + d) ≡ get_or description d 0)
        × (m' (text + length description) ≡ 0)
  unfolding write_task
  write_task-bytes k d hk hd =
      let r = room in
      (
        store_out _ _ _ _ (inl (omega arith))
            ∙ store_out _ _ _ _ (inl (omega arith))
            ∙ store_out _ _ _ _ (inl (omega arith))
            ∙ store_out _ _ _ _ (inl (omega arith))
            ∙ store_in _ (base + 8) operation k hk,
        store_out _ _ _ _ (inl (omega arith)) ∙ store_in _ _ description d hd,
        store_first _ _ (0 ∷ []) (omega arith),
      )

  -- A zero follows the description, also an empty one.
  pub write_task-end :
      write_task m base operation stack_size description
        (base + description_offset (length operation) + length description)
      ≡ 0
  unfolding write_task
  write_task-end = store_first _ _ (0 ∷ []) (omega arith)

  -- Each byte of the description stands at its place, also behind an operation of no bytes.
  pub write_task-text :
      (d : ℕ)
      → d < length description
      → write_task m base operation stack_size description
          (base + description_offset (length operation) + d)
        ≡ get_or description d 0
  unfolding write_task
  write_task-text d hd = store_out _ _ _ _ (inl (omega arith)) ∙ store_in _ _ description d hd

  -- No byte outside the acquired ones is written.
  pub write_task-outside :
      (j : ℕ)
      → (j < base) ⊎ (base + acquired_size operation description ≤ j)
      → write_task m base operation stack_size description j ≡ m j
  unfolding write_task
  write_task-outside j hj =
      let r = room in
      let t = (le_round_up (length description + 1) (omega arith)).0 in
      store_out _ _ _ _ (omega arith)
      ∙ store_out _ _ _ _ (omega arith)
      ∙ store_out _ _ _ _ (omega arith)
      ∙ store_out _ _ _ _ (omega arith)
      ∙ store_out _ _ _ _ (omega arith)
      ∙ store_out _ _ _ _ (omega arith)
      ∙ store_out _ _ _ _ (omega arith)
