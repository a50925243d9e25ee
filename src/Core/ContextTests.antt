-- ===== src/Core/ContextTests.antt =====
-- The theorems on Context at a concrete state.
use ustevent.Prelude.{
  ℕ, ◌+◌, ◌-◌, ◌%◌, ◌^◌, ◌≡◌, ◌++◌, refl, arith, true, false, Option, none, List, [], ◌∷◌, done,
}
use ustevent.Core.RingBuffer.{MpscRingBuffer, max_offset, acquire, produce, consume}
use ustevent.Core.ContextTaskQueue.{ContextTaskQueue, acquired_size, round_up}
use ustevent.Core.CallStack.Defs.{empty, contain, contain_from}
use ustevent.Core.ContextStrategy.Runs.{value_or}
use ustevent.Core.Context.{
  Context, Caller, Work, dispatch, post, call, notify_strategy, waits_for_result,
  launch_posted_task,
}
use ustevent.Core.Context.Posted.{launched, taken, posted, dispatch-launched}

-- A queue of 256 bytes with one writer.
abbrev ring : MpscRingBuffer
ring = record {
  capacity = 256;
  producer_barrier = 0;
  end_offset = max_offset;
  consumer_barrier = 0;
  workers = record { seen = max_offset; registered = true } ∷ [];
}

abbrev queue : ContextTaskQueue
queue = record { ring = ring; memory = λ _. 0; consumed = 0; poped = 0 }

-- One strategy, with the debug flag.
abbrev main : Context
main = record {
  key = 1000;
  is_done = false;
  stack_size_in_context = 4096;
  strategies = true ∷ [];
  debug_on = true;
  context_task_queue = queue;
}

abbrev outsider : Caller
outsider = record { stack = empty; depth = 1; writer = 0; next_context = 50 }

-- An operation of three bytes, with the description "ab".
abbrev task : Work
task = record { id = 9; operation = 7 ∷ 8 ∷ 9 ∷ [] }

abbrev text : List ℕ
text = 97 ∷ 98 ∷ []

abbrev granted : Option ℕ × MpscRingBuffer
granted = value_or (none, ring) (acquire ring 0 (acquired_size (7 ∷ 8 ∷ 9 ∷ []) text))

abbrev produced : MpscRingBuffer
produced = value_or ring (produce granted.1 0)

-- What the consumer takes from it: a range of `size` bytes at 0.
abbrev size : ℕ
size = acquired_size (7 ∷ 8 ∷ 9 ∷ []) text

abbrev left : MpscRingBuffer
left = (value_or (0, none, produced) (consume produced)).2

dispatch-launched_example :
    (dispatch main outsider task 8192 text
      ≡ done (posted main produced 0 task 8192 text, notify_strategy main 0))
    × (post true main outsider task 8192 text
        ≡ done (posted main produced 0 task 8192 text, notify_strategy main 0))
    × (post false main outsider task 8192 text ≡ done (main, []))
    × (call main outsider task 8192 text
        ≡ done (
          posted main produced 0 task 8192 text,
          notify_strategy main 0 ++ waits_for_result 9 ∷ [],
        ))
    × (launch_posted_task 3 (posted main produced 0 task 8192 text) 51
        ≡ done (
          1,
          taken (posted main produced 0 task 8192 text) left 0 size (7 ∷ 8 ∷ 9 ∷ []) text,
          launched (8192 % 2 ^ 32) (0 + 8) text 51,
        ))
unfolding acquire produce consume contain contain_from round_up
dispatch-launched_example =
    dispatch-launched 3 main outsider task 8192 text 0 51 (size - 1) granted.1 produced left refl
      refl refl (omega arith) (omega arith) (omega arith) (omega arith) (omega arith) refl refl
