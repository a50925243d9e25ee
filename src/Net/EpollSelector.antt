-- ===== src/Net/EpollSelector.antt =====
-- ustevent/net/detail/linux/EpollSelector.h and .cpp, and EventNotifier.h: the descriptors that epoll watches,
-- each with a notifier out of a pool. A notifier is the address of its node. The results of the system
-- calls are arguments.
pub mod Notifiers
pub mod Reach
pub mod Dispatch
use ustevent.Prelude.{
  ℕ, zero, suc, Bool, true, false, ◌||◌, Option, none, some, List, [], ◌∷◌, ℤ, pos, ◌==◌, Outcome,
  done, spin, fault, ◌>>=◌, if◌then◌else◌, is_positive, update,
}
use ustevent.Core.BasicSemaphore
use ustevent.Core.BasicSemaphore.{BasicSemaphore, semaphore}
use ustevent.Core.ListNodeAllocator
use ustevent.Core.ListNodeAllocator.{ListNodeAllocator}
use ustevent.Net.Platform.{CallResult, returned, failed}

-- `none` is INVALID_FD. The semaphores are those of EVENT_IN and EVENT_OUT.
pub record EventNotifier : Type 0 where
  pub descriptor : Option ℕ
  pub event_in : BasicSemaphore
  pub event_out : BasicSemaphore

pub record EpollSelector : Type 0 where
  pub epoll_fd : Option ℕ
  pub signal : ℕ
  pub signal_fd : Option ℕ
  pub notifier_pool : ListNodeAllocator EventNotifier

abbrev pub blank_notifier : EventNotifier
unfolding semaphore
blank_notifier = record {
  descriptor = none;
  event_in = semaphore (pos 0);
  event_out = semaphore (pos 0);
}

-- The error of `_initEpollFd`, and the descriptor.
abbrev pub init_epoll_fd : CallResult → ℤ × Option ℕ
init_epoll_fd (returned fd) = (pos 0, some fd)
init_epoll_fd (failed e) = (pos e, none)

-- The errno after `::close`, which is called before it is looked at.
abbrev pub errno_after : ℕ → CallResult → ℕ
errno_after e (returned n) = e
errno_after e (failed later) = later

-- `added` is the result of `::epoll_ctl`. A descriptor that could not be added is closed, and kept.
abbrev pub init_signal_fd : CallResult → CallResult → CallResult → ℤ × Option ℕ
init_signal_fd (failed e) added closed = (pos e, none)
init_signal_fd (returned fd) (returned n) closed = (pos 0, some fd)
init_signal_fd (returned fd) (failed e) closed = (pos (errno_after e closed), some fd)

-- The constructor: `throw;` outside a handler ends the program.
unfoldable pub create_selector :
    ℕ → CallResult → CallResult → CallResult → CallResult → Outcome EpollSelector
unfolding ListNodeAllocator.create
create_selector signal polling signalling added closed =
    let (epoll_error, epoll_fd) = init_epoll_fd polling in
    let (signal_error, signal_fd) = init_signal_fd signalling added closed in
    if is_positive epoll_error || is_positive signal_error
    then fault
    else done (record {
      epoll_fd = epoll_fd;
      signal = signal;
      signal_fd = signal_fd;
      notifier_pool = ListNodeAllocator.create 32 blank_notifier;
    })

-- The descriptors that the destructor closes, in order.
abbrev pub close_fd : Option ℕ → List ℕ → List ℕ
close_fd none fds = fds
close_fd (some fd) fds = fd ∷ fds

unfoldable pub destroy_selector : EpollSelector → List ℕ
destroy_selector s = close_fd s.signal_fd (close_fd s.epoll_fd [])

module _ (s : EpollSelector) where
  -- Writes the notifier `n`.
  abbrev pub set_notifier : ListNodeAllocator EventNotifier → ℕ → EventNotifier → EpollSelector
  set_notifier pool n notifier = record s {
    notifier_pool = record pool { value = update pool.value n notifier };
  }

-- `_freeNotifier` of a notifier that is not null: the semaphores are reset, and the node goes to the pool.
unfoldable pub free_notifier : EpollSelector → ℕ → EpollSelector
unfolding ListNodeAllocator.free
free_notifier s n =
    let notifier = s.notifier_pool.value n in
    let t = set_notifier s s.notifier_pool n (record notifier {
      event_in = (BasicSemaphore.reset notifier.event_in).1;
      event_out = (BasicSemaphore.reset notifier.event_out).1;
    }) in
    record t { notifier_pool = ListNodeAllocator.free t.notifier_pool n }

-- `added` is the result of `::epoll_ctl`. The notifier, or null, and the error.
abbrev pub registered_as : EpollSelector → ℕ → CallResult → Option ℕ × ℤ × EpollSelector
registered_as s n (returned k) = (some n, pos 0, s)
registered_as s n (failed e) = (none, pos e, free_notifier s n)

unfoldable pub register_object :
    EpollSelector → Option ℕ → CallResult → Outcome (Option ℕ × ℤ × EpollSelector)
unfolding ListNodeAllocator.alloc
register_object s descriptor added = ListNodeAllocator.alloc s.notifier_pool >>= λ r. done (
    registered_as (set_notifier s r.1 r.0 (record (r.1.value r.0) { descriptor = descriptor })) r.0
      added)

-- The result of `::epoll_ctl` is not looked at.
unfoldable pub deregister_object : EpollSelector → Option ℕ → EpollSelector
deregister_object s none = s
deregister_object s (some n) =
    free_notifier
      (set_notifier s s.notifier_pool n (record (s.notifier_pool.value n) { descriptor = none })) n

-- An event that `::epoll_wait` returns: what was stored with its descriptor, and its bits.
pub data EventData : Type 0 where
  of_signal_fd : EventData
  of_notifier : Option ℕ → EventData

pub record EpollEvent : Type 0 where
  pub stored : EventData
  pub epollin : Bool
  pub epollout : Bool
  pub epollerr : Bool
  pub epollhup : Bool

-- The two branches, of which the second one is tried when the first is not taken.
unfoldable pub notified : EventNotifier → EpollEvent → EventNotifier
notified notifier e =
    if e.epollin || e.epollerr || e.epollhup
    then record notifier { event_in = (BasicSemaphore.notify notifier.event_in).1 }
    else if e.epollout || e.epollerr || e.epollhup
    then record notifier { event_out = (BasicSemaphore.notify notifier.event_out).1 }
    else notifier

-- `low n` is the pointer `n` read as the descriptor of the same union.
module _ (low : ℕ → ℕ) where
  abbrev pub is_signal : EpollSelector → ℕ → Bool
  is_signal s n = elim s.signal_fd [ none ↦ false | some fd ↦ low n == fd ]

  abbrev pub handle : EpollSelector → EpollEvent → EventData → EpollSelector
  handle s e of_signal_fd = s
  handle s e (of_notifier none) = s
  handle s e (of_notifier (some n)) =
      if is_signal s n
      then s
      else set_notifier s s.notifier_pool n (notified (s.notifier_pool.value n) e)

  -- The loop of `select` over what `::epoll_wait` returns. What `_readSignal` reads is dropped.
  unfoldable pub select : EpollSelector → List EpollEvent → EpollSelector
  select s [] = s
  select s (e ∷ es) = select (handle s e e.stored) es
