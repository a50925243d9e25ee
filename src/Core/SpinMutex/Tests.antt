-- ===== src/Core/SpinMutex/Tests.antt =====
-- The theorems on SpinMutex for two threads.
use ustevent.Prelude.{ℕ, ◌≡◌, refl, false}
use ustevent.Core.SpinMutex.{
  SpinMutex, create, lock, advance, advance_from, Reach, here, next_step, locks, advances,
}
use ustevent.Core.SpinMutex.Moves.{owns}
use ustevent.Core.SpinMutex.Invariant.{Reach-one}
use ustevent.Core.SpinMutex.Stuck.{Reach-lost}

-- The thread 0 has the lock, and the thread 1 is behind it.
abbrev behind_zero : SpinMutex
behind_zero = lock (lock create 0) 1

-- The thread 1 has linked itself.
abbrev linked : SpinMutex
linked = advance (advance behind_zero 1) 1

linked-Reach : Reach create linked
unfolding lock advance advance_from
linked-Reach =
    next_step (next_step (next_step (next_step here (locks 0 refl)) (locks 1 refl)) (advances 1))
      (advances 1)

Reach-one_example : ◌≡◌ {A = ℕ} 0 0
unfolding lock advance advance_from
Reach-one_example = Reach-one {s = linked} 0 0 linked-Reach refl refl

Reach-lost_example : owns (advance (advance linked 0) 1) 1 ≡ false
unfolding lock advance advance_from
Reach-lost_example =
    Reach-lost {s = linked} {t = advance (advance linked 0) 1} 0 1 1 linked-Reach refl refl
      (next_step here (advances 1))
