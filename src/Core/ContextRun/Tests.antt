-- ===== src/Core/ContextRun/Tests.antt =====
-- The theorems on ContextRun for a context of two threads.
use ustevent.Prelude.{
  ℕ, ◌<◌, ◌≡◌, ◌⊎◌, refl, arith, true, false, some, List, [], ◌∷◌, done, length, get_elem?, Outcome,
  spin, fault,
}
use ustevent.Core.BasicBarrier.{barrier, arrive, goes_on}
use ustevent.Core.ContextStrategy.{ContextStrategy, create, pick_next}
use ustevent.Core.ContextStrategy.Picks.{Picks}
use ustevent.Core.ContextRun.{
  ContextRun, empty_store, begin_context, enter_run, make_strategy, arrive_at_barrier, Reach,
  begins, then_step, enters, makes, arrives,
}
use ustevent.Core.ContextRun.Started.{index}
use ustevent.Core.ContextRun.Passed.{Reach-Picks, Reach-passes}
use ustevent.Core.SchedulerTests.{lists, zero_pinned, frames, list_laws}

abbrev new_run : ContextRun (List ℕ)
new_run = record {
  store = empty_store 2 false;
  barrier = record { threshold = 2; count = 2; generation = 0 };
  is_done = false;
  entered = 0;
  made = 0;
  waiting = [];
  passed = 0;
  returned = 0;
}

abbrev run_or : ContextRun (List ℕ) → Outcome (ContextRun (List ℕ)) → ContextRun (List ℕ)
run_or r (done t) = t
run_or r spin = r
run_or r fault = r

-- A thread makes its strategy, and arrives.
abbrev made : ContextRun (List ℕ) → ContextRun (List ℕ)
made r = run_or r (make_strategy lists zero_pinned r)

abbrev both : ContextRun (List ℕ)
both = made (made (enter_run (enter_run new_run)))

abbrev started : ContextRun (List ℕ)
started = arrive_at_barrier (arrive_at_barrier both)

started-Reach : Reach lists zero_pinned frames 2 false started
unfolding begin_context barrier enter_run make_strategy create arrive_at_barrier arrive
started-Reach =
    then_step
      (then_step
        (then_step
          (then_step (then_step (then_step (begins {r = new_run} refl) enters) enters)
            (makes {t = made (enter_run (enter_run new_run))} (omega arith) refl))
          (makes {t = both} (omega arith) refl))
        (arrives (omega arith)))
      (arrives (omega arith))

Reach-Picks_example :
    (s : ContextStrategy (List ℕ)) × (get_elem? started.store.strategies 1 ≡ some (some s))
    × (s.id ≡ 1)
    × Picks list_laws started.store
        (pick_next lists zero_pinned frames started.store s 7 (0 ∷ 0 ∷ []) 0)
unfolding enter_run make_strategy create arrive_at_barrier arrive
Reach-Picks_example =
    Reach-Picks lists zero_pinned frames 2 (omega arith) list_laws 1 7 0 (0 ∷ 0 ∷ []) started-Reach
      (omega arith) (omega arith) refl (omega arith) (omega arith, (omega arith, tt))

Reach-passes_example :
    ((index started ≡ 2) × (started.made ≡ 0) × (goes_on started.barrier 0 ≡ true))
    ⊎ ((length started.waiting < 2) × (started.passed ≡ 0) × (goes_on started.barrier 0 ≡ false))
unfolding enter_run make_strategy create arrive_at_barrier arrive
Reach-passes_example =
    Reach-passes lists zero_pinned frames 2 (omega arith) [] [] 0 started-Reach refl
