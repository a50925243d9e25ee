-- ===== src/Core/BlockingContextStrategy/Wakes.antt =====
-- No notification of a BlockingContextStrategy is lost.
use ustevent.Prelude.{◌<◌, Bool, true, false, ◌≡◌, refl, arith}
use ustevent.Core.BlockingContextStrategy.{
  Sleeper, running, asleep, woken, BlockingContextStrategy, create, test_notified, on_suspended,
  rouse, set_notified, notify_all, end_at_time, Step, suspends, sets, notifies, resumes, wakes_up,
  ends, ends_late, Reach, begin, step,
}

abbrev pub is_asleep : Sleeper → Bool
is_asleep (asleep timed) = true
is_asleep _ = false

abbrev pub is_running : Sleeper → Bool
is_running running = true
is_running _ = false

-- A thread sleeps on a notification only while a notifier is between its halves, and one that polls
-- never sleeps.
record Alert (blocking : Bool) (s : BlockingContextStrategy) : Type 0 where
  kind : s.blocking ≡ blocking
  alert : is_asleep s.sleeper ≡ true → s.notified ≡ true → 0 < s.pending
  polls : blocking ≡ false → s.sleeper ≡ running

asleep-not : (b : Sleeper) → is_asleep (rouse b) ≡ false
asleep-not running = refl
asleep-not (asleep t) = refl
asleep-not (woken t) = refl

Step-Alert :
    {blocking : Bool} {s t : BlockingContextStrategy}
    → Step s t
    → Alert blocking s
    → Alert blocking t
unfolding on_suspended test_notified set_notified notify_all end_at_time
Step-Alert (suspends timed at) a = record {
  kind = ground (arith, a.kind);
  alert = λ h k. ground (arith, a.alert);
  polls = λ h. ground (arith, a.kind, a.polls);
}
Step-Alert sets a = record {
  kind = ground (arith, a.kind);
  alert = λ h k. ground (arith, a.alert);
  polls = λ h. ground (arith, a.kind, a.polls);
}
Step-Alert {s} (notifies some_pending) a = record {
  kind = a.kind;
  alert = λ h k. ground (arith, asleep-not s.sleeper);
  polls = λ h. ground (arith, a.polls);
}
Step-Alert (resumes timed at) a = record {
  kind = ground (arith, a.kind);
  alert = λ h k. ground (arith, a.alert);
  polls = λ h. ground (arith, a.kind, a.polls);
}
Step-Alert (wakes_up timed at) a = record {
  kind = a.kind;
  alert = λ h k. ground arith;
  polls = λ h. ground (arith, a.polls);
}
Step-Alert (ends at) a = record { kind = a.kind; alert = λ h k. cc; polls = λ h. refl }
Step-Alert (ends_late at) a = record { kind = a.kind; alert = λ h k. cc; polls = λ h. refl }

Reach-Alert : {blocking : Bool} {s : BlockingContextStrategy} → Reach blocking s → Alert blocking s
unfolding create
Reach-Alert begin = record { kind = refl; alert = λ h k. cc; polls = λ h. refl }
Reach-Alert (step r st) = Step-Alert st (Reach-Alert r)

-- However threads notify a blocking strategy and its thread suspends, wakes up and runs into its
-- times: when it was notified and has not used that, and no notifier is between the flag and
-- notify_all, the thread does not sleep; when it gets the mutex, or suspends itself, it runs on and
-- has used the notification.
pub Reach-alert :
    {s : BlockingContextStrategy} (timed : Bool)
    → Reach true s
    → s.notified ≡ true
    → s.pending ≡ 0
    → (is_asleep s.sleeper ≡ false)
      × ((test_notified s timed).sleeper ≡ running)
      × ((test_notified s timed).notified ≡ false)
      × ((on_suspended s timed).sleeper ≡ running)
unfolding test_notified on_suspended
Reach-alert timed r told quiet =
    let a = Reach-Alert r in
    (ground (arith, a.alert), ground arith, ground arith, ground (arith, a.kind))
