-- ===== src/Net/ContextTests.antt =====
-- The theorems on the contexts of threads and the timeouts of their strategies at concrete states.
use ustevent.Prelude.{ℕ, ◌≡◌, ◌⊎◌, refl, arith, true, false, none, some, [], ◌∷◌, done, update}
use ustevent.Core.RingBuffer
use ustevent.Core.ContextTaskQueue.{ContextTaskQueue}
use ustevent.Core.ListNodeAllocator
use ustevent.Core.ListNodeAllocator.Chains.{has, Distinct}
use ustevent.Net.EpollSelector.{EpollSelector, blank_notifier, create_selector}
use ustevent.Net.MultiplexingContextStrategy.{blocking, timeout_of}
use ustevent.Net.MultiplexingContextStrategy.Timeouts.{Meets, timeout_of-Meets}
use ustevent.Net.NetContext.{
  NetContext, built, only_one_context_per_thread, ThisThreadContext, with_selector, occupy,
  construct_context, destruct_context, Reached, begin, constructs,
}
use ustevent.Net.NetContext.Lives.{construct_context-Reached}
use ustevent.Net.Platform.{returned}

-- Two and a half milliseconds.
timeout_of-Meets_example : Meets 2500000 (timeout_of blocking 12500000 10000000)
timeout_of-Meets_example =
    timeout_of-Meets 12500000 10000000 (λ e. omega arith) (omega arith) (omega arith)

-- A queue of one writer.
abbrev queue : ℕ → ContextTaskQueue
queue n = record { ring = RingBuffer.create n 1; memory = λ a. 0; consumed = 0; poped = 0 }

abbrev selector : EpollSelector
selector = record {
  epoll_fd = some 3;
  signal = 12;
  signal_fd = some 4;
  notifier_pool = ListNodeAllocator.create 32 blank_notifier;
}

-- The thread 7 has the context 500.
abbrev threads : ThisThreadContext
threads = update (λ thread. none) 7 (some 500)

threads-Reached : Reached threads (7 ∷ [])
unfolding construct_context occupy create_selector
threads-Reached =
    constructs 12 (λ thread. none) threads [] 7 500 queue (returned 3) (returned 4) (returned 0)
      (returned 0) (with_selector 500 queue selector) begin refl

-- It constructs another one.
construct_context-Reached_example :
    let construct = λ (pointers : ThisThreadContext).
      construct_context 12 pointers 7 900 queue
        (returned 5)
        (returned 6)
        (returned 0)
        (returned 0) in
    let end = construct threads in
    Distinct (7 ∷ [])
    × (((has 7 (7 ∷ []) ≡ false)
          × ((x : NetContext) × (after : ThisThreadContext) × (end ≡ done (built x, after))
              × (after 7 ≡ some 900)))
        ⊎ ((has 7 (7 ∷ []) ≡ true)
            × (end ≡ done (only_one_context_per_thread (6 ∷ 5 ∷ []), threads))))
    × ((x : NetContext) × (after : ThisThreadContext) × (construct
            (destruct_context threads 7 (with_selector 500 queue selector)).0
          ≡ done (built x, after)))
construct_context-Reached_example =
    construct_context-Reached 12 7 900 queue 5 6 0 (returned 0) (with_selector 500 queue selector)
      threads-Reached
