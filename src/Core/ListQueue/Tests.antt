-- ===== src/Core/ListQueue/Tests.antt =====
-- A queue of numbers.
use ustevent.Prelude.{ℕ, ◌≡◌, none, some, List, [], ◌∷◌, done}
use ustevent.Core.ListQueue.{
  Call, put_sp, put_mp, take_sc, take_mc, take_mc_weak, create_queue, run,
}
use ustevent.Core.ListQueue.Fifo.{answer, answers}
use ustevent.Core.ListQueue.Refine.{run-create_queue}

abbrev calls : List (Call ℕ)
calls = put_sp 1 ∷ put_mp 2 ∷ take_sc ∷ take_mc_weak ∷ take_mc ∷ put_sp 3 ∷ take_mc ∷ []

run-create_queue_example :
    run (create_queue 0) calls ≡ done (none ∷ none ∷ some 1 ∷ some 2 ∷ none ∷ none ∷ some 3 ∷ [])
unfolding answers answer
run-create_queue_example = run-create_queue 0 calls
