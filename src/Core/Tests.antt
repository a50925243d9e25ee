-- ===== src/Core/Tests.antt =====
-- The theorems on tasks and semaphores at concrete states.
use ustevent.Prelude.{
  ℕ, ◌+◌, ◌-◌, ◌≡◌, ◌≤◌, refl, true, some, [], ◌∷◌, arith, ◌%◌, ◌^◌, pos, negsuc, List,
}
use ustevent.Core.ContextTaskQueue.{
  Memory, write_task, read_task, load32, acquired_size, description_offset,
}
use ustevent.Core.ContextTaskQueue.Layout.{read_task-write_task}
use ustevent.Core.BasicSemaphore.{semaphore, enter, add_permit, give_permit, notify, time_out, wake}
use ustevent.Core.BasicSemaphore.Threads.{
  Threads, Reach, begin, step, promises, gives, waits, wakes,
}
use ustevent.Core.BasicSemaphore.Permits.{Fits, Reach-passed, Reach-none_lost, notify-time_out}

-- An operation of three bytes with the description "ab" at address 32 of a buffer of zeros.
abbrev zeros : Memory
zeros i = 0

abbrev code : List ℕ
code = 7 ∷ 8 ∷ 9 ∷ []

abbrev text : List ℕ
text = 97 ∷ 98 ∷ []

read_task-write_task_example :
    let m' = write_task zeros 32 code 4096 text in
    (read_task m' 32 ≡ record {
      operation = 32 + 8;
      stack_size = 4096 % 2 ^ 32;
      description = some (32 + description_offset 3);
    })
    × (load32 m' 32 ≡ acquired_size code text)
    × (load32 m' (32 + 8 - 8) ≡ acquired_size code text)
read_task-write_task_example =
    read_task-write_task zeros 32 4096 code text (omega arith) (omega arith)

-- One thread waits, and another has done the first half of a notification.
abbrev between : Threads
between = record {
  shared = record { atomic_count = pos 0; count = pos 0 };
  waiting = 1;
  notified = 1;
  pending = 1;
  passed = 0;
}

between-Reach : Reach 0 between
unfolding semaphore enter add_permit
between-Reach =
    step (step begin (waits (semaphore (pos 0)) 0 0 0 0 refl))
      (promises (record { atomic_count = negsuc 0; count = pos 0 }) 1 0 0 0 refl)

-- The notification ends, and the thread goes on.
abbrev after_one : Threads
after_one = record {
  shared = record { atomic_count = pos 0; count = pos 0 };
  waiting = 0;
  notified = 1;
  pending = 0;
  passed = 1;
}

after_one-Reach : Reach 0 after_one
unfolding semaphore enter add_permit give_permit wake
after_one-Reach =
    step (step between-Reach (gives (record { atomic_count = pos 0; count = pos 0 }) 1 1 0 0))
      (wakes (record { atomic_count = pos 0; count = pos 1 }) 0 1 0 0 refl)

Reach-passed_example :
    (1 ≤ 0 + 1) × Fits after_one.shared.atomic_count × Fits after_one.shared.count
Reach-passed_example = Reach-passed 0 after_one after_one-Reach (omega arith) (omega arith)

-- Between the two halves of the notification.
Reach-none_lost_example :
    (c : ℕ) × (between.shared.count ≡ pos c) × (1 + 0 ≡ c + 1) × (0 + 1 ≡ 0 + 0 + c + 1)
Reach-none_lost_example = Reach-none_lost 0 0 between between-Reach refl

notify-time_out_example :
    notify (time_out (enter (semaphore (pos 0))).1).1 ≡ (true, semaphore (pos 0))
unfolding enter semaphore
notify-time_out_example = notify-time_out (semaphore (pos 0)) refl
