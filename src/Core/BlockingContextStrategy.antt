-- ===== src/Core/BlockingContextStrategy.antt =====
-- ustevent/core/BlockingContextStrategy.h and .cpp: how the thread of a strategy sleeps until it is
-- notified. What is done under the mutex is one step; a wait on the condition variable ends when it
-- is notified, at its time, or for no reason.
pub mod Wakes
use ustevent.Prelude.{ℕ, suc, ◌-◌, ◌<◌, Bool, true, false, ◌≡◌, Option, none, some, if◌then◌else◌}

-- Where the thread of the strategy stands: it runs, waits on the condition variable without or with
-- a time, or was woken and waits for the mutex.
pub data Sleeper : Type 0 where
  running : Sleeper
  asleep : Bool → Sleeper
  woken : Bool → Sleeper

pub record BlockingContextStrategy : Type 0 where
  pub blocking : Bool
  pub notified : Bool
  pub sleeper : Sleeper
  -- The threads that have set the flag and not yet called `notify_all`.
  pub pending : ℕ

unfoldable pub create : Bool → BlockingContextStrategy
create blocking = record { blocking = blocking; notified = false; sleeper = running; pending = 0 }

-- The test of the predicate in `wait` and `wait_until`, with the reset of the flag behind it.
unfoldable pub test_notified : BlockingContextStrategy → Bool → BlockingContextStrategy
test_notified s timed =
    if s.notified
    then record s { notified = false; sleeper = running }
    else record s { sleeper = asleep timed }

-- `onSuspended`, whose wait has a time unless the time point is the greatest one.
unfoldable pub on_suspended : BlockingContextStrategy → Bool → BlockingContextStrategy
unfolding test_notified
on_suspended s timed = if s.blocking then test_notified s timed else s

-- The waiting thread when it is notified.
abbrev pub rouse : Sleeper → Sleeper
rouse (asleep timed) = woken timed
rouse sleeper = sleeper

-- The two halves of `onNotified`: the flag, and `notify_all`.
unfoldable pub set_notified : BlockingContextStrategy → BlockingContextStrategy
set_notified s = if s.blocking then record s { notified = true; pending = suc s.pending } else s

unfoldable pub notify_all : BlockingContextStrategy → BlockingContextStrategy
notify_all s = record s { sleeper = rouse s.sleeper; pending = s.pending - 1 }

-- The end of a wait at its time.
unfoldable pub end_at_time : BlockingContextStrategy → BlockingContextStrategy
end_at_time s = record s { notified = false; sleeper = running }

pub data Step (s : BlockingContextStrategy) : BlockingContextStrategy → Type 0 where
  suspends : (timed : Bool) → s.sleeper ≡ running → Step s (on_suspended s timed)
  sets : Step s (set_notified s)
  notifies : 0 < s.pending → Step s (notify_all s)
  resumes : (timed : Bool) → s.sleeper ≡ woken timed → Step s (test_notified s timed)
  wakes_up : (timed : Bool) → s.sleeper ≡ asleep timed → Step s (record s { sleeper = woken timed })
  ends : s.sleeper ≡ asleep true → Step s (end_at_time s)
  ends_late : s.sleeper ≡ woken true → Step s (end_at_time s)

pub data Reach (blocking : Bool) : BlockingContextStrategy → Type 0 where
  begin : Reach blocking (create blocking)
  step : {s t : BlockingContextStrategy} → Reach blocking s → Step s t → Reach blocking t
