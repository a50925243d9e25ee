-- ===== src/Core/BasicBarrier.antt =====
-- ustevent/core/detail/BasicBarrier.h and .hpp: threads that wait for one another. What runs under
-- the mutex is one step; a thread that waits keeps the generation that it saw.
pub mod Rounds
use ustevent.Prelude.{
  ℕ, suc, ◌+◌, ◌-◌, ◌%◌, ◌^◌, Bool, true, false, not, Outcome, done, fault, List, [], ◌∷◌, ◌==◌,
  if◌then◌else◌,
}

pub record BasicBarrier : Type 0 where
  pub threshold : ℕ
  pub count : ℕ
  pub generation : ℕ

-- The constructor asserts that the count is not 0.
unfoldable pub barrier : ℕ → Outcome BasicBarrier
barrier count =
    if count == 0 then fault else done (record { threshold = count; count = count; generation = 0 })

-- `wait` up to the condition variable: whether it returns true at once, and the state.
unfoldable pub arrive : BasicBarrier → Bool × BasicBarrier
arrive b =
    let left = (b.count + (2 ^ 64 - 1)) % 2 ^ 64 in
    if left == 0
    then (
      true,
      record {
        threshold = b.threshold;
        count = b.threshold;
        generation = (b.generation + 1) % 2 ^ 64;
      },
    )
    else (false, record { threshold = b.threshold; count = left; generation = b.generation })

-- The condition `gen != _generation` on which a waiting thread goes on and returns false.
unfoldable pub goes_on : BasicBarrier → ℕ → Bool
goes_on b gen = not (gen == b.generation)
