-- ===== src/Core/SpinMutex.antt =====
-- ustevent/core/detail/SpinMutex.h and .cpp: a queue lock. A thread and its node are one number; each
-- access to shared memory is one step of a thread.
pub mod Moves
pub mod Invariant
pub mod Stuck
pub mod HandedOver
mod Tests
use ustevent.Prelude.{ℕ, Bool, true, false, Option, none, some, update, ◌==◌, if◌then◌else◌, ◌≡◌}

-- Where a thread stands. `swapped` and `linking` have the node that was the tail before.
pub data Pc : Type 0 where
  idle : Pc
  swapped : ℕ → Pc
  linking : ℕ → Pc
  spinning : Pc
  critical : Pc
  closing : Pc
  awaiting : Pc
  clearing : Pc

-- The tail, the nodes of the threads, and where each thread stands.
pub record SpinMutex : Type 0 where
  pub tail : Option ℕ
  pub locked : ℕ → Bool
  pub next : ℕ → Option ℕ
  pub pc : ℕ → Pc

abbrev pub create : SpinMutex
create = record { tail = none; locked = λ _. true; next = λ _. none; pc = λ _. idle }

abbrev pub goes : SpinMutex → ℕ → Pc → SpinMutex
goes s i p = record s { pc = update s.pc i p }

abbrev pub behind : Option ℕ → Pc
behind none = critical
behind (some p) = swapped p

-- The exchange of `lock`.
unfoldable pub lock : SpinMutex → ℕ → SpinMutex
lock s i = goes (record s { tail = some i }) i (behind s.tail)

unfoldable pub try_lock_at : SpinMutex → ℕ → Option ℕ → SpinMutex
try_lock_at s i none = goes (record s { tail = some i }) i critical
try_lock_at s i (some p) = s

-- The compare-exchange of `try_lock`, which returns whether the thread is critical then.
unfoldable pub try_lock : SpinMutex → ℕ → SpinMutex
unfolding try_lock_at
try_lock s i = try_lock_at s i s.tail

-- The first test of `unlock`.
abbrev pub leaves : Option ℕ → Pc
leaves none = closing
leaves (some j) = idle

abbrev pub is_node : Option ℕ → ℕ → Bool
is_node none i = false
is_node (some p) i = p == i

-- The compare-exchange of `unlock`.
unfoldable pub close : SpinMutex → ℕ → Bool → SpinMutex
close s i true = goes (record s { tail = none }) i idle
close s i false = goes s i awaiting

-- The release of the successor, when it has linked itself.
unfoldable pub hand_over : SpinMutex → ℕ → Option ℕ → SpinMutex
hand_over s i none = s
hand_over s i (some j) = goes (record s { locked = update s.locked j false }) i clearing

-- The next step of a thread in `lock`, or in `unlock`, which a critical thread begins.
unfoldable pub advance_from : SpinMutex → ℕ → Pc → SpinMutex
unfolding close hand_over
advance_from s i idle = s
advance_from s i (swapped p) = goes (record s { locked = update s.locked i true }) i (linking p)
advance_from s i (linking p) = goes (record s { next = update s.next p (some i) }) i spinning
advance_from s i spinning = if s.locked i then s else goes s i critical
advance_from s i critical = goes s i (leaves (s.next i))
advance_from s i closing = close s i (is_node s.tail i)
advance_from s i awaiting = hand_over s i (s.next i)
advance_from s i clearing = goes (record s { next = update s.next i none }) i idle

unfoldable pub advance : SpinMutex → ℕ → SpinMutex
unfolding advance_from
advance s i = advance_from s i (s.pc i)

pub data Step (s : SpinMutex) : SpinMutex → Type 0 where
  locks : (i : ℕ) → s.pc i ≡ idle → Step s (lock s i)
  tries : (i : ℕ) → s.pc i ≡ idle → Step s (try_lock s i)
  advances : (i : ℕ) → Step s (advance s i)

-- The states that lead on from one, the nearest first.
pub data Reach (s : SpinMutex) : SpinMutex → Type 0 where
  here : Reach s s
  next_step : {t u : SpinMutex} → Reach s t → Step t u → Reach s u
