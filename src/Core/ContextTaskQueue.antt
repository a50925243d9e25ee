-- ===== src/Core/ContextTaskQueue.antt =====
-- ustevent/core/detail/ContextTaskQueue.h, .hpp and .cpp: tasks laid out one after another in the
-- bytes of the ring buffer. An address is an offset in the buffer; a task's operation is the bytes
-- of the object; a `uint32_t` is four bytes, the lowest first.
pub mod Layout
use ustevent.Prelude.{
  ℕ, ◌+◌, ◌-◌, ◌*◌, ◌/◌, ◌%◌, ◌^◌, Bool, true, false, ◌&&◌, Option, none, some, List, [], ◌∷◌,
  length, Outcome, done, fault, ◌>>=◌, ltb, leb, ◌==◌, if◌then◌else◌, get_or, zero, suc,
}
use ustevent.Core.RingBuffer.{MpscRingBuffer, acquire, produce, consume, release}

abbrev pub Memory : Type 0
Memory = ℕ → ℕ

-- `memcpy` of bytes to an address.
unfoldable pub store : Memory → ℕ → List ℕ → Memory
store m i bs j = if leb i j && ltb j (i + length bs) then get_or bs (j - i) 0 else m j

abbrev pub bytes32 : ℕ → List ℕ
bytes32 n = n % 256 ∷ n / 256 % 256 ∷ n / 65536 % 256 ∷ n / 16777216 % 256 ∷ []

unfoldable pub load32 : Memory → ℕ → ℕ
load32 m i = m i + 256 * m (i + 1) + 65536 * m (i + 2) + 16777216 * m (i + 3)

-- `(num + sizeof(size_t) - 1) & -sizeof(size_t)`.
unfoldable pub round_up : ℕ → ℕ
round_up num = (num + 7) % 2 ^ 64 / 8 * 8

-- The offsets in a task that follow from the size of its operation.
abbrev pub stack_size_offset : ℕ → ℕ
stack_size_offset operation_size = 8 + round_up operation_size

abbrev pub description_offset : ℕ → ℕ
description_offset operation_size = stack_size_offset operation_size + 8

abbrev pub acquired_size : List ℕ → List ℕ → ℕ
acquired_size operation description =
    description_offset (length operation) + round_up (length description + 1)

-- The writes of `push`, at the address that it acquired.
unfoldable pub write_task : Memory → ℕ → List ℕ → ℕ → List ℕ → Memory
write_task m base operation stack_size description =
    let at_stack = base + stack_size_offset (length operation) in
    let at_text = base + description_offset (length operation) in
    let m1 = store m base (bytes32 (acquired_size operation description)) in
    let m2 = store m1 (base + 4) (bytes32 (length operation)) in
    let m3 = store m2 (base + 8) operation in
    let m4 = store m3 at_stack (bytes32 stack_size) in
    let m5 = store m4 (at_stack + 4) (bytes32 (length description)) in
    let m6 = store m5 at_text description in store m6 (at_text + length description) (0 ∷ [])

pub record ContextTaskQueue : Type 0 where
  pub ring : MpscRingBuffer
  pub memory : Memory
  pub consumed : ℕ
  pub poped : ℕ

-- One round of the loop of `push` by the writer `i`; `false` is the round that yields and goes on.
unfoldable pub push : ContextTaskQueue → ℕ → List ℕ → ℕ → List ℕ → Outcome (Bool × ContextTaskQueue)
push q i operation stack_size description = do
  (buffer, r) ← acquire q.ring i (acquired_size operation description)
  elim buffer [
    | none ↦ done (false, record q { ring = r })
    | some base ↦ do
      r' ← produce r i
      done (
        true,
        record q { ring = r'; memory = write_task q.memory base operation stack_size description },
      )
  ]

-- What `pop` stores for a caller that passes all three pointers: the address of the operation, the size of the stack, and the address of
-- the description when it sets it.
pub record Task : Type 0 where
  pub operation : ℕ
  pub stack_size : ℕ
  pub description : Option ℕ

-- The length of the description is read at the offset of the operation's length.
unfoldable pub read_task : Memory → ℕ → Task
read_task m base =
    let operation_length = load32 m (base + 4) in
    let description_length = load32 m (base + 4) in
    record {
      operation = base + 8;
      stack_size = load32 m (base + stack_size_offset operation_length);
      description =
          if ltb 0 description_length
          then some (base + description_offset operation_length)
          else none;
    }

unfoldable pub pop_at : ContextTaskQueue → ℕ → Option Task × ContextTaskQueue
pop_at q base = (some (read_task q.memory base), record q { poped = base + load32 q.memory base })

unfoldable pub pop : ContextTaskQueue → Outcome (Option Task × ContextTaskQueue)
unfolding pop_at
pop q = if ltb q.poped q.consumed then done (pop_at q q.poped) else do
  (size, address, r) ← consume q.ring
  if size == 0 then done (none, record q { ring = r }) else elim address [
    | none ↦ fault
    | some base ↦ done (pop_at (record q { ring = r; poped = base; consumed = base + size }) base)
  ]

-- `TaskDeallocator::deallocate`, given the address of an operation.
unfoldable pub deallocate : ContextTaskQueue → ℕ → Outcome ContextTaskQueue
deallocate q address = do
  r ← release q.ring (load32 q.memory (address - 8))
  done (record q { ring = r })
