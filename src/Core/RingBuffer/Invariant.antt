-- ===== src/Core/RingBuffer/Invariant.antt =====
-- Which states of MpscRingBuffer its operations reach: where the two barriers may stand, and where
-- the parts of the buffer lie that workers have acquired and not yet produced.
use ustevent.Prelude.{ℕ, ◌+◌, ◌^◌, ◌≤◌, ◌<◌, min, ◌≡◌, ◌⊎◌}
use ustevent.Core.RingBuffer.{MpscRingBuffer, max_offset}

-- Where the readable bytes end while the producers are ahead by a wrap.
abbrev pub limit : MpscRingBuffer → ℕ
limit r = min r.capacity r.end_offset

-- `g` is the end of what the consumer has been handed and may release.
pub data Mode (r : MpscRingBuffer) (g : ℕ) : Type 0 where
  straight : r.consumer_barrier ≤ g → g ≤ r.producer_barrier → r.end_offset ≡ max_offset → Mode r g
  wrapped :
      r.producer_barrier < r.consumer_barrier
      → r.consumer_barrier ≤ g
      → g ≤ limit r
      → (r.end_offset ≡ max_offset) ⊎ (r.end_offset < r.capacity)
      → Mode r g

pub record Bounds (r : MpscRingBuffer) (g : ℕ) : Type 0 where
  pub small : r.capacity < 2 ^ 32
  pub next_in : r.producer_barrier < r.capacity
  pub written_in : r.consumer_barrier < r.capacity
  pub mode : Mode r g

-- A worker whose `_seen` is `s` owns the `n` bytes from `a` on.
pub data Holds (r : MpscRingBuffer) (g s a n : ℕ) : Type 0 where
  ahead :
      r.consumer_barrier ≤ r.producer_barrier
      → g ≤ s
      → a ≡ s
      → a + n ≤ r.producer_barrier
      → s < r.capacity
      → Holds r g s a n
  behind :
      r.producer_barrier < r.consumer_barrier → a ≡ s → a + n ≤ r.producer_barrier → Holds r g s a n
  upper :
      r.producer_barrier < r.consumer_barrier
      → g ≤ s
      → a ≡ s
      → a + n ≤ limit r
      → s < r.capacity
      → Holds r g s a n
  turned :
      r.producer_barrier < r.consumer_barrier
      → a ≡ 0
      → n ≤ r.producer_barrier
      → r.end_offset ≡ s
      → s < r.capacity
      → Holds r g s a n

-- Two ranges of bytes, given by start and length, that do not meet.
abbrev pub Apart : ℕ → ℕ → ℕ → ℕ → Type 0
Apart a n b m = (a + n ≤ b) ⊎ (b + m ≤ a)
