-- ===== src/Core/BasicSemaphore/Threads.antt =====
-- The threads that share a semaphore, as steps.
use ustevent.Prelude.{ℕ, suc, ◌≡◌, pos, true, false}
use ustevent.Core.BasicSemaphore.{BasicSemaphore, semaphore, add_permit, give_permit, enter, wake}

-- A semaphore with the number of its waiting threads, of the calls of `notify` that have done `fetch_add`, of those
-- among them that have yet to do what is under the mutex, and of the threads that passed.
pub record Threads : Type 0 where
  pub shared : BasicSemaphore
  pub waiting : ℕ
  pub notified : ℕ
  pub pending : ℕ
  pub passed : ℕ

abbrev pub start : ℕ → Threads
start k = record { shared = semaphore (pos k); waiting = 0; notified = 0; pending = 0; passed = 0 }

-- One step of one thread.
pub data Step : Threads → Threads → Type 0 where
  notifies :
      (s : BasicSemaphore) (w n r p : ℕ)
      → (add_permit s).0 ≡ false
      → Step
          (record { shared = s; waiting = w; notified = n; pending = r; passed = p })
          (record {
            shared = (add_permit s).1;
            waiting = w;
            notified = suc n;
            pending = r;
            passed = p;
          })
  promises :
      (s : BasicSemaphore) (w n r p : ℕ)
      → (add_permit s).0 ≡ true
      → Step
          (record { shared = s; waiting = w; notified = n; pending = r; passed = p })
          (record {
            shared = (add_permit s).1;
            waiting = w;
            notified = suc n;
            pending = suc r;
            passed = p;
          })
  gives :
      (s : BasicSemaphore) (w n r p : ℕ)
      → Step
          (record { shared = s; waiting = w; notified = n; pending = suc r; passed = p })
          (record { shared = give_permit s; waiting = w; notified = n; pending = r; passed = p })
  passes :
      (s : BasicSemaphore) (w n r p : ℕ)
      → (enter s).0 ≡ true
      → Step
          (record { shared = s; waiting = w; notified = n; pending = r; passed = p })
          (record { shared = (enter s).1; waiting = w; notified = n; pending = r; passed = suc p })
  waits :
      (s : BasicSemaphore) (w n r p : ℕ)
      → (enter s).0 ≡ false
      → Step
          (record { shared = s; waiting = w; notified = n; pending = r; passed = p })
          (record { shared = (enter s).1; waiting = suc w; notified = n; pending = r; passed = p })
  wakes :
      (s : BasicSemaphore) (w n r p : ℕ)
      → (wake s).0 ≡ true
      → Step
          (record { shared = s; waiting = suc w; notified = n; pending = r; passed = p })
          (record { shared = (wake s).1; waiting = w; notified = n; pending = r; passed = suc p })

pub data Reach (k : ℕ) : Threads → Type 0 where
  begin : Reach k (start k)
  step : {a b : Threads} → Reach k a → Step a b → Reach k b
