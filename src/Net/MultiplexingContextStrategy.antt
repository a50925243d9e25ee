-- ===== src/Net/MultiplexingContextStrategy.antt =====
-- ustevent/net/MultiplexingContextStrategy.h and .cpp: how the thread of a strategy waits for the events of
-- its selector. Times are the nanoseconds of the steady clock, from 0 on. What `mask` returns, the
-- time, the events of `::epoll_wait` and the signal of `notify` are the system's.
pub mod Timeouts
use ustevent.Prelude.{
  ℕ, zero, suc, ◌-◌, ◌/◌, ◌%◌, ◌^◌, Bool, true, false, Option, none, some, List, ℤ, pos, negsuc,
  ◌==◌, leb, ltb, is_positive, is_error, Outcome, done, fault, ◌>>=◌, if◌then◌else◌,
}
use ustevent.Core.Context.{Context, suspend_until}
use ustevent.Core.Fiber
use ustevent.Net.EpollSelector.{EpollSelector, EpollEvent, select}

pub data BlockingFlag : Type 0 where
  blocking : BlockingFlag
  polling : BlockingFlag

-- The selector is shared by the strategies of a context, and is an argument of the calls.
pub record MultiplexingContextStrategy : Type 0 where
  pub blocking_flag : BlockingFlag
  pub this_thread : ℕ

-- The constructor, by what `mask` returns: `throw;` outside a handler ends the program.
unfoldable pub create : BlockingFlag → ℕ × ℤ → Outcome MultiplexingContextStrategy
create flag (thread, error) =
    if is_error error then fault else done (record { blocking_flag = flag; this_thread = thread })

-- `time_point::max()`.
abbrev pub time_point_max : ℕ
time_point_max = 2 ^ 63 - 1

-- -n.
abbrev pub negative : ℕ → ℤ
negative zero = pos 0
negative (suc n) = negsuc n

-- The milliseconds from `now` to a time point, rounded towards 0.
unfoldable pub milliseconds : ℕ → ℕ → ℤ
milliseconds time_point now =
    if leb now time_point
    then pos ((time_point - now) / 1000000)
    else negative ((now - time_point) / 1000000)

-- The conversion of a count to an `int` of 32 bits.
unfoldable pub to_int : ℤ → ℤ
to_int (pos n) =
    let low = n % 2 ^ 32 in if ltb low (2 ^ 31) then pos low else negsuc (2 ^ 32 - 1 - low)
to_int (negsuc n) =
    let low = n % 2 ^ 32 in if ltb low (2 ^ 31) then negsuc low else pos (2 ^ 32 - 1 - low)

abbrev pub at_least_one : ℤ → ℤ
at_least_one timeout = if is_positive timeout then timeout else pos 1

-- The timeout that `onSuspended` gives to `select`.
unfoldable pub timeout_of : BlockingFlag → ℕ → ℕ → ℤ
timeout_of polling time_point now = pos 0
timeout_of blocking time_point now =
    if time_point_max == time_point
    then negsuc 0
    else at_least_one (to_int (milliseconds time_point now))

-- `onSuspended`, with the timeout of `::epoll_wait` and the events that it returns.
unfoldable pub on_suspended :
    (ℕ → ℕ)
    → MultiplexingContextStrategy
    → EpollSelector
    → ℕ
    → ℕ
    → (ℤ → List EpollEvent)
    → EpollSelector
on_suspended low m s time_point now epoll_wait =
    select low s (epoll_wait (timeout_of m.blocking_flag time_point now))

-- `suspend_until` of such a strategy.
unfoldable pub suspend :
    (ℕ → ℕ)
    → MultiplexingContextStrategy
    → EpollSelector
    → ℕ
    → ℕ
    → (ℤ → List EpollEvent)
    → ℕ
    → Context
    → ℕ
    → Outcome (EpollSelector × Context × List Fiber.Effect)
suspend low m s time_point now epoll_wait fuel x c = do
  (waits, y, effects) ← suspend_until fuel x c
  done (if waits then on_suspended low m s time_point now epoll_wait else s, y, effects)
