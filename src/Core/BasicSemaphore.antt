-- ===== src/Core/BasicSemaphore.antt =====
-- ustevent/core/detail/BasicSemaphore.h and .hpp: a counting semaphore. `fetch_add`, `fetch_sub`
-- and `exchange` are one definition each, and so is what runs under the mutex; `notify` and `reset`
-- are whole calls, the two halves one after the other. A thread that waits is one that has done
-- `enter` and not yet `wake` or `time_out`. The integers of the model are unbounded, those of the code
-- an `int` each: Permits says when they stay within it.
pub mod Threads
pub mod Permits
use ustevent.Prelude.{ℕ, zero, suc, ℤ, pos, negsuc, Bool, true, false, if◌then◌else◌}

abbrev pub inc : ℤ → ℤ
inc (pos n) = pos (suc n)
inc (negsuc zero) = pos 0
inc (negsuc (suc n)) = negsuc n

abbrev pub dec : ℤ → ℤ
dec (pos zero) = negsuc 0
dec (pos (suc n)) = pos n
dec (negsuc n) = negsuc (suc n)

abbrev pub is_negative : ℤ → Bool
is_negative (pos n) = false
is_negative (negsuc n) = true

abbrev pub above_zero : ℤ → Bool
above_zero (pos zero) = false
above_zero (pos (suc n)) = true
above_zero (negsuc n) = false

pub record BasicSemaphore : Type 0 where
  pub atomic_count : ℤ
  pub count : ℤ

unfoldable pub semaphore : ℤ → BasicSemaphore
semaphore count = record { atomic_count = pos 0; count = count }

-- The `fetch_add` of `notify`: whether the caller goes on to `give_permit`, and the state.
unfoldable pub add_permit : BasicSemaphore → Bool × BasicSemaphore
add_permit s =
    (is_negative s.atomic_count, record { atomic_count = inc s.atomic_count; count = s.count })

-- What `notify` does under the mutex.
unfoldable pub give_permit : BasicSemaphore → BasicSemaphore
give_permit s = record { atomic_count = s.atomic_count; count = inc s.count }

-- A whole call: whether `_cv` is notified, and the state.
unfoldable pub notify : BasicSemaphore → Bool × BasicSemaphore
unfolding add_permit give_permit
notify s =
    if (add_permit s).0 then (true, give_permit (add_permit s).1) else (false, (add_permit s).1)

-- The `exchange` of `reset`: whether the caller goes on to `clear_count`, and the state.
unfoldable pub exchange : BasicSemaphore → Bool × BasicSemaphore
exchange s = (is_negative s.atomic_count, record { atomic_count = pos 0; count = s.count })

-- What `reset` does under the mutex.
unfoldable pub clear_count : BasicSemaphore → BasicSemaphore
clear_count s = record { atomic_count = s.atomic_count; count = pos 0 }

-- A whole call, as `notify`.
unfoldable pub reset : BasicSemaphore → Bool × BasicSemaphore
unfolding exchange clear_count
reset s = if (exchange s).0 then (true, clear_count (exchange s).1) else (false, (exchange s).1)

-- The `fetch_sub` of `wait` and `waitUntil`: whether the thread passes at once, and the state.
unfoldable pub enter : BasicSemaphore → Bool × BasicSemaphore
enter s = (above_zero s.atomic_count, record { atomic_count = dec s.atomic_count; count = s.count })

-- A thread that waits looks at `_count > 0`: whether it goes on, and the state.
unfoldable pub wake : BasicSemaphore → Bool × BasicSemaphore
wake s =
    if above_zero s.count
    then (true, record { atomic_count = s.atomic_count; count = dec s.count })
    else (false, s)

-- The end of `waitUntil` at its point of time: what it returns, and the state.
unfoldable pub time_out : BasicSemaphore → Bool × BasicSemaphore
time_out s = (above_zero s.count, record { atomic_count = s.atomic_count; count = dec s.count })
