-- ===== src/Net/NetContext/Lives.antt =====
-- How many NetContexts the threads have.
use ustevent.Prelude.{
  ℕ, true, false, inl, inr, Option, none, some, List, [], ◌∷◌, ◌++◌, Outcome, done, spin, fault,
  ◌>>=◌, ◌==◌, ◌≡◌, ◌⊎◌, refl, ap, subst, arith, update,
}
use ustevent.Core.Context.{is_some}
use ustevent.Core.ContextTaskQueue.{ContextTaskQueue}
use ustevent.Core.ListNodeAllocator
use ustevent.Core.ListNodeAllocator.Chains.{has, Distinct, has-append, Distinct-extract}
use ustevent.Net.EpollSelector.{EpollSelector, blank_notifier, create_selector, destroy_selector}
use ustevent.Net.NetContext.{
  NetContext, Constructed, built, only_one_context_per_thread, ThisThreadContext, occupy,
  with_selector, construct_context, destruct_context, Reached, begin, constructs, fails, destructs,
}
use ustevent.Net.Platform.{CallResult, returned}

record One (threads : ThisThreadContext) (live : List ℕ) : Type 0 where
  same : (t : ℕ) → is_some (threads t) ≡ has t live
  distinct : Distinct live

-- What a constructor leaves.
abbrev Left : ThisThreadContext → List ℕ → ℕ → Constructed × ThisThreadContext → Type 0
Left threads live thread (built x, after) = One after (thread ∷ live)
Left threads live thread (only_one_context_per_thread fds, after) = One after live

occupy-Left :
    {threads : ThisThreadContext} {live : List ℕ}
    → One threads live
    → (thread c : ℕ) (x : NetContext) (o : Option ℕ) → threads thread ≡ o
    → Left threads live thread (occupy threads thread c x o)
unfolding occupy
occupy-Left one thread c x none e = record {
  same = λ t. ground (arith, one.same t);
  distinct = (ground (arith, one.same thread), one.distinct);
}
occupy-Left one thread c x (some other) e = one

abbrev AllLeft : ThisThreadContext → List ℕ → ℕ → Outcome (Constructed × ThisThreadContext) → Type 0
AllLeft threads live thread (done r) = Left threads live thread r
AllLeft threads live thread _ = Unit

made-Left :
    {threads : ThisThreadContext} {live : List ℕ}
    → One threads live
    → (thread c : ℕ) (f : EpollSelector → NetContext) (o : Outcome EpollSelector)
    → AllLeft threads live thread
        (o >>= λ selector. done (occupy threads thread c (f selector) (threads thread)))
made-Left {threads} one thread c f (done s) = occupy-Left one thread c (f s) (threads thread) refl
made-Left one thread c f spin = tt
made-Left one thread c f fault = tt

construct_context-Left :
    {threads : ThisThreadContext} {live : List ℕ}
    → One threads live
    → (sigusr2 thread c : ℕ) (queue : ℕ → ContextTaskQueue)
      (polling signalling added closed : CallResult)
    → AllLeft threads live thread
        (construct_context sigusr2 threads thread c queue polling signalling added closed)
unfolding construct_context
construct_context-Left one sigusr2 thread c queue polling signalling added closed =
    made-Left one thread c _ (create_selector sigusr2 polling signalling added closed)

Reached-One :
    (threads : ThisThreadContext) (live : List ℕ) → Reached threads live → One threads live
unfolding destruct_context
Reached-One _ _ begin = record { same = λ t. refl; distinct = tt }
Reached-One _ _
      (constructs sigusr2 threads after live thread c queue polling signalling added closed x r e) =
    subst (AllLeft threads live thread) e (
      construct_context-Left (Reached-One threads live r) sigusr2 thread c queue polling signalling
        added closed)
Reached-One _ _
      (fails sigusr2 threads after live thread c queue polling signalling added closed fds r e) =
    subst (AllLeft threads live thread) e (
      construct_context-Left (Reached-One threads live r) sigusr2 thread c queue polling signalling
        added closed)
Reached-One _ _ (destructs threads thread xs ys x r) =
    let one = Reached-One threads (xs ++ thread ∷ ys) r in
    let (out, rest) = Distinct-extract thread xs ys one.distinct in
    record {
      same = λ t. ground (arith, one.same t, has-append t xs ys, has-append t xs (thread ∷ ys));
      distinct = rest;
    }

occupy-One :
    {threads : ThisThreadContext} {live : List ℕ}
    → One threads live
    → (thread c : ℕ) (x : NetContext) (o : Option ℕ) → threads thread ≡ o
    → ((has thread live ≡ false)
        × ((after : ThisThreadContext) × (occupy threads thread c x o ≡ (built x, after))
            × (after thread ≡ some c)))
      ⊎ ((has thread live ≡ true)
          × (occupy threads thread c x o
              ≡ (only_one_context_per_thread (destroy_selector x.event_selector), threads)))
unfolding occupy
occupy-One one thread c x none e =
    let self : (thread == thread) ≡ true = ground arith in
    inl (ground (arith, one.same thread), (_, refl, rw self refl))
occupy-One one thread c x (some other) e = inr (ground (arith, one.same thread), refl)

-- As long as each context is destroyed by the thread that constructed it, no thread has two. When the
-- selector can be made, the constructor on a thread that has none returns a context, which is the
-- thread's; on a thread that has one it throws, closes the two descriptors of the selector and changes
-- nothing. But when the thread has destroyed a context of another thread, the constructor returns a
-- context to it, whether it has one or not.
pub construct_context-Reached :
    {threads : ThisThreadContext} {live : List ℕ} (sigusr2 thread c : ℕ)
    (queue : ℕ → ContextTaskQueue) (epoll_fd signal_fd k : ℕ) (closed : CallResult)
    (of_another : NetContext)
    → Reached threads live
    → let construct = λ (pointers : ThisThreadContext).
      construct_context sigusr2 pointers thread c queue
        (returned epoll_fd)
        (returned signal_fd)
        (returned k)
        closed in
      let end = construct threads in
      Distinct live
      × (((has thread live ≡ false)
            × ((x : NetContext) × (after : ThisThreadContext) × (end ≡ done (built x, after))
                × (after thread ≡ some c)))
          ⊎ ((has thread live ≡ true)
              × (end ≡ done (only_one_context_per_thread (signal_fd ∷ epoll_fd ∷ []), threads))))
      × ((x : NetContext) × (after : ThisThreadContext) × (construct
              (destruct_context threads thread of_another).0
            ≡ done (built x, after)))
unfolding construct_context destruct_context occupy create_selector destroy_selector
construct_context-Reached {threads} {live} sigusr2 thread c queue epoll_fd signal_fd k closed
      of_another r =
    let one = Reached-One threads live r in
    let cleared : (thread == thread) ≡ true = ground arith in
    let x = with_selector c queue (record {
      epoll_fd = some epoll_fd;
      signal = sigusr2;
      signal_fd = some signal_fd;
      notifier_pool = ListNodeAllocator.create 32 blank_notifier;
    }) in
    (
      one.distinct,
      elim (occupy-One one thread c x (threads thread) refl) [
        | inl (h, (after, e, own)) ↦ inl (h, (x, after, ap done e, own))
        | inr (h, e) ↦ inr (h, ap done e)
      ],
      (x, update (destruct_context threads thread of_another).0 thread (some c), rw cleared refl),
    )
