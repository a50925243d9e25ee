-- ===== src/Net/NetContext.antt =====
-- ustevent/net/NetContext.h and .cpp: a context with a selector, of which a thread has at most one. Threads
-- and contexts are numbers, the addresses of the contexts.
pub mod Lives
use ustevent.Prelude.{
  ℕ, Bool, true, false, Option, none, some, List, [], ◌∷◌, ◌++◌, Outcome, done, ◌>>=◌,
  if◌then◌else◌, update, ◌==◌, ◌≡◌,
}
use ustevent.Core.Context
use ustevent.Core.Context.{Context, default_buffer_length}
use ustevent.Core.ContextTaskQueue.{ContextTaskQueue}
use ustevent.Net.EpollSelector.{EpollSelector, create_selector, destroy_selector}
use ustevent.Net.Platform.{CallResult}

pub record NetContext : Type 0 where
  pub context : Context
  pub event_selector : EpollSelector

-- What the constructor leaves: a context, or the exception and the descriptors that are closed on the
-- way.
pub data Constructed : Type 0 where
  built : NetContext → Constructed
  only_one_context_per_thread : List ℕ → Constructed

-- `_this_thread_context` of every thread.
abbrev pub ThisThreadContext : Type 0
ThisThreadContext = ℕ → Option ℕ

-- The body of the constructor on a thread, of the context `c`.
unfoldable pub occupy :
    ThisThreadContext → ℕ → ℕ → NetContext → Option ℕ → Constructed × ThisThreadContext
occupy threads thread c x none = (built x, update threads thread (some c))
occupy threads thread c x (some other) =
    (only_one_context_per_thread (destroy_selector x.event_selector), threads)

-- What the initializers of the constructor make.
abbrev pub with_selector : ℕ → (ℕ → ContextTaskQueue) → EpollSelector → NetContext
with_selector c queue selector = record {
  context = Context.create c 1 false default_buffer_length queue;
  event_selector = selector;
}

-- The constructor; `sigusr2` is the signal, and the results are those of the selector's calls.
unfoldable pub construct_context :
    ℕ
    → ThisThreadContext
    → ℕ
    → ℕ
    → (ℕ → ContextTaskQueue)
    → CallResult
    → CallResult
    → CallResult
    → CallResult
    → Outcome (Constructed × ThisThreadContext)
unfolding occupy
construct_context sigusr2 threads thread c queue polling signalling added closed = do
  selector ← create_selector sigusr2 polling signalling added closed
  done (occupy threads thread c (with_selector c queue selector) (threads thread))

-- The destructor, with the descriptors that it closes and what `terminate` notifies.
unfoldable pub destruct_context :
    ThisThreadContext → ℕ → NetContext → ThisThreadContext × List ℕ × List Context.Effect
destruct_context threads thread x =
    (update threads thread none, destroy_selector x.event_selector, (Context.terminate x.context).1)

-- What threads reach that construct contexts and destroy those that they have constructed, with the
-- threads that have one.
pub data Reached : ThisThreadContext → List ℕ → Type 0 where
  begin : Reached (λ thread. none) []
  constructs :
      (sigusr2 : ℕ) (threads after : ThisThreadContext) (live : List ℕ) (thread c : ℕ)
      (queue : ℕ → ContextTaskQueue) (polling signalling added closed : CallResult) (x : NetContext)
      → Reached threads live
      → construct_context sigusr2 threads thread c queue polling signalling added closed
        ≡ done (built x, after)
      → Reached after (thread ∷ live)
  fails :
      (sigusr2 : ℕ) (threads after : ThisThreadContext) (live : List ℕ) (thread c : ℕ)
      (queue : ℕ → ContextTaskQueue) (polling signalling added closed : CallResult) (fds : List ℕ)
      → Reached threads live
      → construct_context sigusr2 threads thread c queue polling signalling added closed
        ≡ done (only_one_context_per_thread fds, after)
      → Reached after live
  destructs :
      (threads : ThisThreadContext) (thread : ℕ) (xs ys : List ℕ) (x : NetContext)
      → Reached threads (xs ++ thread ∷ ys)
      → Reached ((destruct_context threads thread x).0) (xs ++ ys)
