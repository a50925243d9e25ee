-- ===== src/Core/RingBuffer/Writers.antt =====
-- MpscRingBufferWriter and MpscRingBufferReader of ustevent/core/detail/MpscRingBuffer.h and .cpp, and the
-- writers that ustevent/core/detail/ContextTaskQueue.cpp makes for threads. A writer stands at an address,
-- and the two pointers that it has are one index of a worker, or null.
use ustevent.Prelude.{
  ℕ, suc, ◌+◌, ◌%◌, ◌^◌, false, Option, none, some, Outcome, done, ◌>>=◌, ◌≡◌, ◌==◌, if◌then◌else◌,
  update,
}
use ustevent.Core.RingBuffer.{
  MpscRingBuffer, create, register_worker, unregister_worker, acquire, produce,
}

abbrev pub MpscRingBufferWriter : Type 0
MpscRingBufferWriter = Option ℕ

abbrev pub null_writer : MpscRingBufferWriter
null_writer = none

-- The constructor on a buffer.
unfoldable pub writer_of : MpscRingBuffer → ℕ → Outcome (MpscRingBufferWriter × MpscRingBuffer)
unfolding register_worker
writer_of r i = register_worker r i >>= λ t. done (some i, t)

-- The destructor.
unfoldable pub destroy_writer :
    MpscRingBuffer → MpscRingBufferWriter → Outcome (MpscRingBufferWriter × MpscRingBuffer)
unfolding unregister_worker
destroy_writer r none = done (none, r)
destroy_writer r (some i) = unregister_worker r i >>= λ t. done (none, t)

-- `acquire` and `produce` of a writer.
unfoldable pub writer_acquire :
    MpscRingBuffer → MpscRingBufferWriter → ℕ → Outcome (Option ℕ × MpscRingBuffer)
writer_acquire r none size = done (none, r)
writer_acquire r (some i) size = acquire r i size

unfoldable pub writer_produce : MpscRingBuffer → MpscRingBufferWriter → Outcome MpscRingBuffer
writer_produce r none = done r
writer_produce r (some i) = produce r i

-- The buffer, the sequence of a ContextTaskQueue, and the writers by their addresses.
pub record Writers : Type 0 where
  pub ring : MpscRingBuffer
  pub writer_sequence : ℕ
  pub writers : ℕ → MpscRingBufferWriter

-- The constructor of ContextTaskQueue; `threads` is `hardware_concurrency`.
unfoldable pub no_writers : ℕ → ℕ → Writers
no_writers buffer_length threads = record {
  ring = create buffer_length threads;
  writer_sequence = 0;
  writers = λ a. null_writer;
}

-- The function that makes the writer of a thread, at `a`; the sequence is an `unsigned int`.
unfoldable pub new_writer : Writers → ℕ → Outcome Writers
unfolding writer_of
new_writer s a = do
  (w, t) ← writer_of s.ring s.writer_sequence
  done (record s {
    ring = t;
    writer_sequence = (s.writer_sequence + 1) % 2 ^ 32;
    writers = update s.writers a w;
  })

-- The move constructor of a writer at `a` from the one at `b`, which is null then.
unfoldable pub move_writer : Writers → ℕ → ℕ → Writers
move_writer s a b = record s { writers = update (update s.writers a (s.writers b)) b none }

-- The move assignment, which drops what the writer had.
unfoldable pub assign_writer : Writers → ℕ → ℕ → Writers
unfolding move_writer
assign_writer s a b = if a == b then s else move_writer s a b

-- The function that a thread's storage calls at its end destroys the writer.
unfoldable pub return_writer : Writers → ℕ → Outcome Writers
unfolding destroy_writer
return_writer s a = do
  (w, t) ← destroy_writer s.ring (s.writers a)
  done (record s { ring = t; writers = update s.writers a w })

-- What is reached with a number of writers made.
pub data Reach (buffer_length threads : ℕ) : ℕ → Writers → Type 0 where
  begin : Reach buffer_length threads 0 (no_writers buffer_length threads)
  step_make :
      {n : ℕ} {s t : Writers} (a : ℕ)
      → Reach buffer_length threads n s
      → s.writers a ≡ none
      → new_writer s a ≡ done t
      → Reach buffer_length threads (suc n) t
  step_move :
      {n : ℕ} {s : Writers} (a b : ℕ)
      → Reach buffer_length threads n s
      → s.writers a ≡ none
      → (a == b) ≡ false
      → Reach buffer_length threads n (move_writer s a b)
  step_assign :
      {n : ℕ} {s : Writers} (a b : ℕ)
      → Reach buffer_length threads n s
      → Reach buffer_length threads n (assign_writer s a b)
  step_return :
      {n : ℕ} {s t : Writers} (a : ℕ)
      → Reach buffer_length threads n s
      → return_writer s a ≡ done t
      → Reach buffer_length threads n t
