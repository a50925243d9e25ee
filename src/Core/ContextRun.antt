-- ===== src/Core/ContextRun.antt =====
-- `run` of ustevent/core/Context.hpp by the threads of a context, with the constructor and `terminate` of
-- ustevent/core/Context.cpp. The threads are alike, and are counted by where they stand; each
-- critical section, and each call of a strategy, is one step.
pub mod Table
pub mod Steals
pub mod Started
pub mod Passed
mod Tests
use ustevent.Prelude.{
  ℕ, zero, suc, ◌-◌, ◌<◌, Bool, true, false, Option, none, some, List, [], ◌∷◌, ◌++◌, Outcome, done,
  spin, fault, ◌>>=◌, ◌≡◌, if◌then◌else◌, replicate, get_elem?,
}
use ustevent.Core.FiberDebugInfo
use ustevent.Core.FiberDebugInfo.{FiberDebugInfo, Unwinder}
use ustevent.Core.BasicBarrier.{BasicBarrier, barrier, arrive, goes_on}
use ustevent.Core.ContextStrategy.{
  ContextStrategy, Strategies, ReadyQueue, Kinds, create, awakened, pick_next,
}

-- The threads that have entered `run`, those that have made their strategy, the generations that
-- those keep that wait at the barrier, those that have passed it, and those that have returned.
pub record ContextRun (Q : Type 0) : Type 0 where
  pub store : Strategies Q
  pub barrier : BasicBarrier
  pub is_done : Bool
  pub entered : ℕ
  pub made : ℕ
  pub waiting : List ℕ
  pub passed : ℕ
  pub returned : ℕ

abbrev pub empty_store : {Q : Type 0} → ℕ → Bool → Strategies Q
empty_store threads debug_on = record {
  next_strategy_index = 0;
  strategies = replicate threads none;
  debug_on = debug_on;
  infos = λ a. FiberDebugInfo.create;
  properties = λ c. none;
  fresh = 0;
  attached = λ c. false;
}

-- The constructor of a context, of which the barrier asserts that there is a thread.
unfoldable pub begin_context : {Q : Type 0} → ℕ → Bool → Outcome (ContextRun Q)
unfolding barrier
begin_context threads debug_on = barrier threads >>= λ b. done (record {
  store = empty_store threads debug_on;
  barrier = b;
  is_done = false;
  entered = 0;
  made = 0;
  waiting = [];
  passed = 0;
  returned = 0;
})

module _ {Q : Type 0} where
  -- A thread enters `run`.
  unfoldable pub enter_run : ContextRun Q → ContextRun Q
  enter_run r = record r { entered = suc r.entered }

  abbrev pub arrived : ContextRun Q → Bool × BasicBarrier → ContextRun Q
  arrived r (true, b) = record r { barrier = b; made = r.made - 1; passed = suc r.passed }
  arrived r (false, b) = record r {
    barrier = b;
    made = r.made - 1;
    waiting = r.barrier.generation ∷ r.waiting;
  }

  -- `_barrier.wait()` up to its condition variable, and the end of a wait.
  unfoldable pub arrive_at_barrier : ContextRun Q → ContextRun Q
  arrive_at_barrier r = arrived r (arrive r.barrier)

  unfoldable pub pass_barrier : ContextRun Q → List ℕ → List ℕ → ContextRun Q
  pass_barrier r before after = record r { waiting = before ++ after; passed = suc r.passed }

  unfoldable pub terminate_run : ContextRun Q → ContextRun Q
  terminate_run r = record r { is_done = true }

  -- The end of the wait for `_done`.
  unfoldable pub leave_run : ContextRun Q → ContextRun Q
  leave_run r = record r { passed = r.passed - 1; returned = suc r.returned }

module _ (rq : ReadyQueue) (kinds : Kinds) where
  open rq use {Queue}

  -- `use_scheduling_algorithm` constructs the strategy of the thread.
  unfoldable pub make_strategy : ContextRun Queue → Outcome (ContextRun Queue)
  make_strategy r = create rq kinds r.store >>= λ w.
      done (record r { store = w; entered = r.entered - 1; made = suc r.made })

  -- Boost's scheduler of a thread calls its strategy from the constructor on.
  pub data Step (u : Unwinder) (r : ContextRun Queue) : ContextRun Queue → Type 0 where
    enters : Step u r (enter_run r)
    makes : {t : ContextRun Queue} → 0 < r.entered → make_strategy r ≡ done t → Step u r t
    arrives : 0 < r.made → Step u r (arrive_at_barrier r)
    passes :
        (before after : List ℕ) (gen : ℕ)
        → r.waiting ≡ before ++ gen ∷ after
        → goes_on r.barrier gen ≡ true
        → Step u r (pass_barrier r before after)
    awakens :
        {w : Strategies Queue} (k c d : ℕ) (s : ContextStrategy Queue)
        → get_elem? r.store.strategies k ≡ some (some s)
        → awakened rq kinds r.store s c d ≡ done w
        → Step u r (record r { store = w })
    picks :
        {w : Strategies Queue} {victim : Option ℕ} (k active : ℕ) (s : ContextStrategy Queue)
        (draws : List ℕ) (cursor : u.Cursor)
        → get_elem? r.store.strategies k ≡ some (some s)
        → 0 < r.passed
        → pick_next rq kinds u r.store s active draws cursor ≡ done (victim, w)
        → Step u r (record r { store = w })
    terminates : Step u r (terminate_run r)
    ends_run : 0 < r.passed → r.is_done ≡ true → Step u r (leave_run r)

  pub data Reach (u : Unwinder) (threads : ℕ) (debug_on : Bool) : ContextRun Queue → Type 0 where
    begins :
        {r : ContextRun Queue}
        → begin_context threads debug_on ≡ done r
        → Reach u threads debug_on r
    then_step :
        {r t : ContextRun Queue}
        → Reach u threads debug_on r
        → Step u r t
        → Reach u threads debug_on t
