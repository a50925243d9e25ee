-- ===== src/Core/BasicSemaphore/Permits.antt =====
-- The permits of a semaphore in every state that threads reach, and the count of those that pass.
use ustevent.Prelude.{
  ℕ, zero, suc, ◌+◌, ◌≡◌, ◌≤◌, ◌<◌, ◌^◌, refl, sym, ap, subst, arith, ℤ, pos, negsuc, true, false,
}
use ustevent.Core.BasicSemaphore.{
  BasicSemaphore, above_zero, inc, dec, is_negative, semaphore, add_permit, give_permit, notify,
  enter, wake, time_out,
}
use ustevent.Core.BasicSemaphore.Threads.{
  Threads, Step, Reach, notifies, promises, gives, passes, waits, wakes, begin, step,
}

abbrev surplus : ℤ → ℕ
surplus (pos n) = n
surplus (negsuc n) = 0

abbrev deficit : ℤ → ℕ
deficit (pos n) = 0
deficit (negsuc n) = suc n

-- The count, a number from zero on, and the permits that are pending balance the waiting threads and the ones that
-- passed.
abbrev Balanced : ℕ → Threads → Type 0
Balanced k t =
    (c : ℕ) × (t.shared.count ≡ pos c)
    × (t.waiting + k ≡ c + t.pending + deficit t.shared.atomic_count)
    × (k + t.notified ≡ surplus t.shared.atomic_count + t.passed + c + t.pending)

abbrev with_counts : ℤ → ℤ → BasicSemaphore
with_counts a x = record { atomic_count = a; count = x }

false≢true : ¬ (false ≡ true)
false≢true h = cc

notifies-Balanced :
    (k w n r p : ℕ) (a x : ℤ)
    → (add_permit (with_counts a x)).0 ≡ false
    → Balanced k
        (record { shared = with_counts a x; waiting = w; notified = n; pending = r; passed = p })
    → Balanced k (record {
      shared = (add_permit (with_counts a x)).1;
      waiting = w;
      notified = suc n;
      pending = r;
      passed = p;
    })
unfolding add_permit
notifies-Balanced k w n r p (pos a) x q (c, e, h, g) = (c, e, omega arith, omega arith)
notifies-Balanced k w n r p (negsuc a) x q h = absurd (false≢true (sym q))

promises-Balanced :
    (k w n r p : ℕ) (a x : ℤ)
    → (add_permit (with_counts a x)).0 ≡ true
    → Balanced k
        (record { shared = with_counts a x; waiting = w; notified = n; pending = r; passed = p })
    → Balanced k (record {
      shared = (add_permit (with_counts a x)).1;
      waiting = w;
      notified = suc n;
      pending = suc r;
      passed = p;
    })
unfolding add_permit
promises-Balanced k w n r p (pos a) x q h = absurd (false≢true q)
promises-Balanced k w n r p (negsuc zero) x q (c, e, h, g) = (c, e, omega arith, omega arith)
promises-Balanced k w n r p (negsuc (suc a)) x q (c, e, h, g) = (c, e, omega arith, omega arith)

gives-Balanced :
    (k w n r p : ℕ) (a x : ℤ)
    → Balanced k (record {
      shared = with_counts a x;
      waiting = w;
      notified = n;
      pending = suc r;
      passed = p;
    })
    → Balanced k (record {
      shared = give_permit (with_counts a x);
      waiting = w;
      notified = n;
      pending = r;
      passed = p;
    })
unfolding give_permit
gives-Balanced k w n r p a x (c, e, h, g) = (suc c, ap inc e, omega arith, omega arith)

passes-Balanced :
    (k w n r p : ℕ) (a x : ℤ)
    → (enter (with_counts a x)).0 ≡ true
    → Balanced k
        (record { shared = with_counts a x; waiting = w; notified = n; pending = r; passed = p })
    → Balanced k (record {
      shared = (enter (with_counts a x)).1;
      waiting = w;
      notified = n;
      pending = r;
      passed = suc p;
    })
unfolding enter
passes-Balanced k w n r p (pos zero) x q h = absurd (false≢true q)
passes-Balanced k w n r p (pos (suc a)) x q (c, e, h, g) = (c, e, omega arith, omega arith)
passes-Balanced k w n r p (negsuc a) x q h = absurd (false≢true q)

waits-Balanced :
    (k w n r p : ℕ) (a x : ℤ)
    → (enter (with_counts a x)).0 ≡ false
    → Balanced k
        (record { shared = with_counts a x; waiting = w; notified = n; pending = r; passed = p })
    → Balanced k (record {
      shared = (enter (with_counts a x)).1;
      waiting = suc w;
      notified = n;
      pending = r;
      passed = p;
    })
unfolding enter
waits-Balanced k w n r p (pos zero) x q (c, e, h, g) = (c, e, omega arith, omega arith)
waits-Balanced k w n r p (pos (suc a)) x q h = absurd (false≢true (sym q))
waits-Balanced k w n r p (negsuc a) x q (c, e, h, g) = (c, e, omega arith, omega arith)

wake-Balanced :
    (k w n r p : ℕ) (a x : ℤ)
    → (wake (with_counts a x)).0 ≡ true
    → Balanced k (record {
      shared = with_counts a x;
      waiting = suc w;
      notified = n;
      pending = r;
      passed = p;
    })
    → Balanced k (record {
      shared = (wake (with_counts a x)).1;
      waiting = w;
      notified = n;
      pending = r;
      passed = suc p;
    })
unfolding wake
wake-Balanced k w n r p a (pos zero) q h = absurd (false≢true q)
wake-Balanced k w n r p a (pos (suc x)) q (c, e, h, g) =
    let f : c ≡ suc x = ap surplus (sym e) in (x, refl, omega arith, omega arith)
wake-Balanced k w n r p a (negsuc x) q h = absurd (false≢true q)

Step-Balanced : (k : ℕ) {a b : Threads} → Step a b → Balanced k a → Balanced k b
unfolding enter add_permit
Step-Balanced k (notifies s w n r p q) h = notifies-Balanced k w n r p s.atomic_count s.count q h
Step-Balanced k (promises s w n r p q) h = promises-Balanced k w n r p s.atomic_count s.count q h
Step-Balanced k (gives s w n r p) h = gives-Balanced k w n r p s.atomic_count s.count h
Step-Balanced k (passes s w n r p q) h = passes-Balanced k w n r p s.atomic_count s.count q h
Step-Balanced k (waits s w n r p q) h = waits-Balanced k w n r p s.atomic_count s.count q h
Step-Balanced k (wakes s w n r p q) h = wake-Balanced k w n r p s.atomic_count s.count q h

Reach-Balanced : (k : ℕ) {t : Threads} → Reach k t → Balanced k t
unfolding semaphore
Reach-Balanced k begin = (k, refl, omega arith, omega arith)
Reach-Balanced k (step r s) = Step-Balanced k s (Reach-Balanced k r)

-- What an `int` of 32 bits holds.
pub Fits : ℤ → Type 0
Fits (pos n) = n < 2 ^ 31
Fits (negsuc n) = n < 2 ^ 31

surplus-Fits : (x : ℤ) → surplus x < 2 ^ 31 → deficit x < 2 ^ 31 → Fits x
unfolding Fits
surplus-Fits (pos n) h g = h
surplus-Fits (negsuc n) h g = omega arith

-- However the atomic operations and the critical sections of threads that call `notify` and `wait` interleave, with no
-- wait that times out and no reset: where the initial count and the notifications together, and the initial count and
-- the waiting threads together, are less than 2^31, the threads that passed are no more than the first of these sums, and
-- both counts are in the range of an `int`.
pub Reach-passed :
    (k : ℕ) (t : Threads)
    → Reach k t
    → k + t.notified < 2 ^ 31
    → t.waiting + k < 2 ^ 31
    → (t.passed ≤ k + t.notified) × Fits t.shared.atomic_count × Fits t.shared.count
unfolding Fits
Reach-passed k t r few narrow =
    let (c, e, h, g) = Reach-Balanced k r in
    (
      omega arith,
      surplus-Fits t.shared.atomic_count (omega arith) (omega arith),
      subst Fits (sym e) (omega arith),
    )

-- In such a run no notification is lost: as long as `_atomic_count` is some `a` from zero on, `_count` and the
-- notifications that have yet to raise it are the waiting threads and the initial count together, so that each waiting
-- thread can go on when these have ended; and with `a` and the threads that passed they make up the initial count and the
-- notifications.
pub Reach-none_lost :
    (k a : ℕ) (t : Threads)
    → Reach k t
    → t.shared.atomic_count ≡ pos a
    → (c : ℕ) × (t.shared.count ≡ pos c)
      × (t.waiting + k ≡ c + t.pending)
      × (k + t.notified ≡ a + t.passed + c + t.pending)
Reach-none_lost k a t r z =
    let (c, e, h, g) = Reach-Balanced k r in
    let d : deficit t.shared.atomic_count ≡ 0 = ap deficit z in
    let u : surplus t.shared.atomic_count ≡ a = ap surplus z in (c, e, omega arith, omega arith)

inc-dec : (x : ℤ) → inc (dec x) ≡ x
inc-dec (pos zero) = refl
inc-dec (pos (suc n)) = refl
inc-dec (negsuc n) = refl

is_negative-dec : (x : ℤ) → above_zero x ≡ false → is_negative (dec x) ≡ true
is_negative-dec (pos zero) h = refl
is_negative-dec (pos (suc n)) h = absurd (false≢true (sym h))
is_negative-dec (negsuc n) h = refl

-- A wait that has to block, times out and is followed by a notification leaves the semaphore as if neither had
-- happened, although the notification asks a waiting thread to go on.
pub notify-time_out :
    (s : BasicSemaphore) → (enter s).0 ≡ false → notify (time_out (enter s).1).1 ≡ (true, s)
unfolding notify add_permit give_permit time_out enter
notify-time_out s h =
    rw (is_negative-dec s.atomic_count h, inc-dec s.atomic_count, inc-dec s.count) refl
