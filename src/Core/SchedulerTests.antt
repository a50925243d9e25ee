-- ===== src/Core/SchedulerTests.antt =====
-- The theorems on ContextStrategy, CallStack, FiberDebugInfo and Context at concrete states.
use ustevent.Prelude.{
  ℕ, zero, suc, ◌+◌, ◌<◌, ◌≤◌, ◌≡◌, refl, arith, Bool, true, false, Option, none, some, List, [],
  ◌∷◌, ◌++◌, done, ◌==◌, if◌then◌else◌, update, length, All, drop,
}
use ustevent.Core.FiberDebugInfo
use ustevent.Core.FiberDebugInfo.{
  FiberDebugInfo, Unwinder, backtrace_size, update_frame, walk, clear_from, last_frame, store_frame,
}
use ustevent.Core.FiberDebugInfo.Frames.{update_frame-Ends}
use ustevent.Core.ContextStrategy.{
  ContextStrategy, Strategies, ReadyQueue, Kinds, create, record_backtrace, record_properties,
  record_info, append_waiting, pick_next,
}
use ustevent.Core.ContextStrategy.Backtraces.{Waiting}
use ustevent.Core.ContextStrategy.Births.{start}
use ustevent.Core.ContextStrategy.Runs.{value_or, Reach, begin, makes, waits, Reach-Waiting}
use ustevent.Core.ContextStrategy.Ready.{QueueLaws, hit, Full}
use ustevent.Core.ContextStrategy.Picks.{Picks, pick_next-Picked}
use ustevent.Core.BlockingContextStrategy
use ustevent.Core.BlockingContextStrategy.{
  BlockingContextStrategy, set_notified, notify_all, on_suspended, test_notified, running,
}
use ustevent.Core.BlockingContextStrategy.Wakes.{is_asleep, Reach-alert}
use ustevent.Core.CallStack.Defs.{contain}
use ustevent.Core.CallStack.Entered.{Entered, entered, contain-entered}

-- A queue that is a list; the context 0 is pinned.
abbrev pop_front : List ℕ → Option ℕ × List ℕ
pop_front [] = (none, [])
pop_front (c ∷ cs) = (some c, cs)

abbrev steal_front : List ℕ → Option ℕ × List ℕ
steal_front [] = (none, [])
steal_front (zero ∷ cs) = (none, zero ∷ cs)
steal_front (suc c ∷ cs) = (some (suc c), cs)

abbrev is_nil : List ℕ → Bool
is_nil [] = true
is_nil (c ∷ cs) = false

abbrev pub lists : ReadyQueue
lists = record {
  Queue = List ℕ;
  new = [];
  push = λ c q. q ++ c ∷ [];
  pop = pop_front;
  steal = steal_front;
  is_empty = is_nil;
}

abbrev pub zero_pinned : Kinds
zero_pinned = record { is_pinned = λ c. c == 0; is_worker = λ c. if c == 0 then false else true }

abbrev count : List ℕ → ℕ → ℕ
count [] c = 0
count (x ∷ xs) c = (if x == c then 1 else 0) + count xs c

count-pop : (q : List ℕ) (c : ℕ) → count q c ≡ count (pop_front q).1 c + hit (pop_front q).0 c
count-pop [] c = refl
count-pop (x ∷ q) c = omega arith

count-steal : (q : List ℕ) (c : ℕ) → count q c ≡ count (steal_front q).1 c + hit (steal_front q).0 c
count-steal [] c = refl
count-steal (zero ∷ q) c = omega arith
count-steal (suc x ∷ q) c = omega arith

steal_front-free : (q : List ℕ) (c : ℕ) → (steal_front q).0 ≡ some c → (c == 0) ≡ false
steal_front-free [] c e = cc
steal_front-free (zero ∷ q) c e = cc
steal_front-free (suc x ∷ q) c e = ground arith

pub list_laws : QueueLaws lists zero_pinned
list_laws = record {
  holds = count;
  pop_law = count-pop;
  steal_law = count-steal;
  steal_free = steal_front-free;
}

-- Each frame's instruction pointer is its number, and the frame 3 is the last.
abbrev pub frames : Unwinder
frames = record { Cursor = ℕ; get_ip = λ n. some (100 + n); step = λ n. (n == 3, suc n) }

-- One strategy is made; the worker 7 begins to wait.
abbrev made : Strategies (List ℕ)
made = value_or (start 1 true) (create lists zero_pinned (start 1 true))

abbrev self : ContextStrategy (List ℕ)
self = record { id = 0; waiting_fibers_head = 0; waiting_fibers_tail = 0; ready_queue = [] }

abbrev parked : Strategies (List ℕ)
parked = value_or made (record_backtrace lists zero_pinned frames made self 7 0)

abbrev self_parked : ContextStrategy (List ℕ)
self_parked = record { id = 0; waiting_fibers_head = 0; waiting_fibers_tail = 1; ready_queue = [] }

made-Reach : Reach lists zero_pinned frames 1 made (update (λ _. []) 0 [])
unfolding create
made-Reach = makes begin refl

parked-Reach : Reach lists zero_pinned frames 1 parked (update (update (λ _. []) 0 []) 0 (1 ∷ []))
unfolding create record_backtrace record_properties record_info append_waiting update_frame walk
    clear_from last_frame store_frame
parked-Reach = waits made-Reach 0 self 7 1 0 refl (λ e h. cc) refl refl

made-Waiting : Waiting made (update (λ _. []) 0 [])
made-Waiting = Reach-Waiting made-Reach

parked-Waiting : Waiting parked (update (update (λ _. []) 0 []) 0 (1 ∷ []))
parked-Waiting = Reach-Waiting parked-Reach

-- Two strategies; the second has the context 5 ready.
abbrev first_of_two : ContextStrategy (List ℕ)
first_of_two = record { id = 0; waiting_fibers_head = 0; waiting_fibers_tail = 0; ready_queue = [] }

abbrev two : Strategies (List ℕ)
two = record (start 0 false) {
  next_strategy_index = 2;
  strategies =
      some first_of_two
      ∷ some (record {
        id = 1;
        waiting_fibers_head = 1;
        waiting_fibers_tail = 1;
        ready_queue = 5 ∷ [];
      })
      ∷ [];
  fresh = 2;
}

two-Full : Full two.strategies
two-Full zero h = (first_of_two, refl)
two-Full (suc zero) h = (
  record { id = 1; waiting_fibers_head = 1; waiting_fibers_tail = 1; ready_queue = 5 ∷ [] },
  refl,
)
two-Full (suc (suc n)) h = absurd (omega arith)

pick_next-Picked_example :
    Picks list_laws two (pick_next lists zero_pinned frames two first_of_two 7 (0 ∷ 1 ∷ 1 ∷ []) 0)
pick_next-Picked_example =
    pick_next-Picked list_laws two 0 first_of_two refl refl two-Full frames 7 0 (0 ∷ 1 ∷ 1 ∷ [])
      refl (omega arith) (omega arith)

-- The key 8 has entered twice.
abbrev objects : List Entered
objects =
    record { address = 30; key = 8; value = 3 }
    ∷ record { address = 20; key = 9; value = 2 }
    ∷ record { address = 10; key = 8; value = 1 }
    ∷ []

contain-entered_example : contain 4 (entered objects) 8 ≡ done (some 3)
contain-entered_example = contain-entered 4 8 objects (refl, (refl, (refl, tt))) (omega arith)

update_frame-Ends_example :
    (t : FiberDebugInfo) × (update_frame frames 0 FiberDebugInfo.create ≡ done t)
    × (0 < t.size)
    × (t.size ≤ backtrace_size)
    × (length t.backtrace ≡ backtrace_size)
    × All (λ x. x ≡ 0) (drop t.size t.backtrace)
    × (t.prev ≡ none)
    × (t.next ≡ none)
    × (t.description ≡ [])
    × (t.terminated ≡ false)
update_frame-Ends_example = update_frame-Ends frames 0 FiberDebugInfo.create refl

-- A strategy that suspends itself and is notified.
abbrev told : BlockingContextStrategy
told = notify_all (set_notified (on_suspended (BlockingContextStrategy.create true) false))

told-Reach : BlockingContextStrategy.Reach true told
unfolding BlockingContextStrategy.create set_notified notify_all on_suspended
told-Reach =
    BlockingContextStrategy.step
      (BlockingContextStrategy.step
        (BlockingContextStrategy.step BlockingContextStrategy.begin
          (BlockingContextStrategy.suspends false refl))
        BlockingContextStrategy.sets)
      (BlockingContextStrategy.notifies (omega arith))

Reach-alert_example :
    (is_asleep told.sleeper ≡ false)
    × ((test_notified told false).sleeper ≡ running)
    × ((test_notified told false).notified ≡ false)
    × ((on_suspended told false).sleeper ≡ running)
unfolding BlockingContextStrategy.create set_notified notify_all on_suspended
Reach-alert_example = Reach-alert {s = told} false told-Reach refl refl
