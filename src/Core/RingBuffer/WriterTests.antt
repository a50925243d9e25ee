-- ===== src/Core/RingBuffer/WriterTests.antt =====
-- The theorems on the writers of a queue of two workers.
use ustevent.Prelude.{ℕ, ◌<◌, ◌≡◌, refl, arith, true, Outcome, done, spin, fault, get_elem?}
use ustevent.Core.RingBuffer.{create, register_worker, unregister_worker}
use ustevent.Core.RingBuffer.Writers.{
  Writers, no_writers, writer_of, destroy_writer, new_writer, move_writer, return_writer, Reach,
  begin, step_make, step_move, step_return,
}
use ustevent.Core.RingBuffer.Held.{is_registered, Reach-apart, Reach-exhausted}

abbrev writers_or : Writers → Outcome Writers → Writers
writers_or s (done t) = t
writers_or s spin = s
writers_or s fault = s

-- The writer at 70 is made and moved to 71, and one is made at 70.
abbrev one : Writers
one = writers_or (no_writers 64 2) (new_writer (no_writers 64 2) 70)

abbrev both : Writers
both = writers_or (move_writer one 71 70) (new_writer (move_writer one 71 70) 70)

both-Reach : Reach 64 2 2 both
unfolding no_writers create new_writer writer_of register_worker move_writer
both-Reach =
    step_make {t = both} 70 (step_move 71 70 (step_make {t = one} 70 begin refl refl) refl refl)
      refl refl

-- The address of the moved writer.
abbrev moved : ℕ
moved = 71

Reach-apart_example :
    (moved ≡ moved) × (0 < 2) × (is_registered (get_elem? both.ring.workers 0) ≡ true)
unfolding no_writers create new_writer writer_of register_worker move_writer
Reach-apart_example = Reach-apart (omega arith) moved moved 0 both-Reach refl refl

-- The writer at 71 is destroyed.
abbrev free : Writers
free = writers_or both (return_writer both 71)

free-Reach : Reach 64 2 2 free
unfolding no_writers create new_writer writer_of register_worker move_writer return_writer
    destroy_writer unregister_worker
free-Reach = step_return {t = free} 71 both-Reach refl

Reach-exhausted_example : new_writer free 72 ≡ fault
Reach-exhausted_example = Reach-exhausted (omega arith) 72 free-Reach
