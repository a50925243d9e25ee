-- ===== src/Core/RingBuffer/Grant.antt =====
-- How the invariant moves when `acquire` grants a range: the new range is owned, the other ranges
-- are kept, and the new one meets neither them nor the bytes that are not released yet.
use ustevent.Prelude.{ℕ, ◌+◌, ◌≤◌, ◌<◌, ◌≡◌, ◌⊎◌, inl, inr, arith}
use ustevent.Core.RingBuffer.{MpscRingBuffer, Worker, max_offset, store_seen}
use ustevent.Core.RingBuffer.Invariant.{
  Mode, straight, wrapped, Bounds, limit, Holds, ahead, behind, upper, turned, Apart,
}

-- Byte `x` is produced or being produced, and not released.
abbrev pub Unread : MpscRingBuffer → ℕ → Type 0
Unread r x =
    ((r.consumer_barrier ≤ x) × (x < r.producer_barrier))
    ⊎ ((r.producer_barrier < r.consumer_barrier) × (r.consumer_barrier ≤ x) × (x < limit r))
    ⊎ ((r.producer_barrier < r.consumer_barrier) × (x < r.producer_barrier))

-- The new state `t` grants the `n` bytes from `a` on to a worker with `_seen` equal to `p`.
pub record Grant (r t : MpscRingBuffer) (g p a n : ℕ) : Type 0 where
  pub bounds : Bounds t g
  pub inside : a + n ≤ r.capacity
  pub seen_in : p < r.capacity
  pub own : Holds t g p a n
  pub keep : (s b m : ℕ) → Holds r g s b m → Holds t g s b m
  pub apart : (s b m : ℕ) → Holds r g s b m → Apart a n b m
  pub unread : (x : ℕ) → Unread r x → (x < a) ⊎ (a + n ≤ x)

module _ (r : MpscRingBuffer) (i : ℕ) (w : Worker) (n g : ℕ) (v : Bounds r g) where
  -- The range fits before the consumer, or before the end of the buffer.
  abbrev Fits : Type 0
  Fits =
      (r.producer_barrier + n < r.consumer_barrier)
      ⊎ ((r.consumer_barrier ≤ r.producer_barrier) × (r.producer_barrier + n < r.capacity))

  abbrev grown : MpscRingBuffer
  grown = store_seen (record r { producer_barrier = r.producer_barrier + n }) i w r.producer_barrier

  plain-Mode : Fits → Mode r g → Mode grown g
  plain-Mode c (straight a b e) = straight (omega arith) (omega arith) e
  plain-Mode c (wrapped lt a b e) = wrapped (omega arith) (omega arith) (omega arith) e

  plain_own : Fits → Mode r g → Holds grown g r.producer_barrier r.producer_barrier n
  plain_own c (straight a b e) =
      ahead (omega arith) (omega arith) (omega arith) (omega arith) (omega (arith, v.next_in))
  plain_own c (wrapped lt a b e) = behind (omega arith) (omega arith) (omega arith)

  plain_keep : Fits → (s b m : ℕ) → Holds r g s b m → Holds grown g s b m
  plain_keep c s b m (ahead h1 h2 h3 h4 h5) = ahead (omega arith) h2 h3 (omega arith) h5
  plain_keep c s b m (behind h1 h2 h3) = behind (omega arith) h2 (omega arith)
  plain_keep c s b m (upper h1 h2 h3 h4 h5) = upper (omega arith) h2 h3 h4 h5
  plain_keep c s b m (turned h1 h2 h3 h4 h5) = turned (omega arith) h2 (omega arith) h4 h5

  plain-Apart : Fits → Mode r g → (s b m : ℕ) → Holds r g s b m → Apart r.producer_barrier n b m
  plain-Apart c md s b m (ahead h1 h2 h3 h4 h5) = inr h4
  plain-Apart c md s b m (behind h1 h2 h3) = inr h3
  plain-Apart c (straight k1 k2 k3) s b m (upper h1 h2 h3 h4 h5) = absurd (omega arith)
  plain-Apart c (wrapped k1 k2 k3 k4) s b m (upper h1 h2 h3 h4 h5) = inl (omega arith)
  plain-Apart c md s b m (turned h1 h2 h3 h4 h5) = inr (omega arith)

  pub Grant-plain : Fits → Grant r grown g r.producer_barrier r.producer_barrier n
  Grant-plain c = record {
    bounds = record {
      small = v.small;
      next_in = omega (arith, v.written_in);
      written_in = v.written_in;
      mode = plain-Mode c v.mode;
    };
    inside = omega (arith, v.written_in);
    seen_in = v.next_in;
    own = plain_own c v.mode;
    keep = plain_keep c;
    apart = plain-Apart c v.mode;
    unread = λ x u. ground arith;
  }

  abbrev filled : MpscRingBuffer
  filled = store_seen (record r { producer_barrier = 0 }) i w r.producer_barrier

  straight-Mode :
      r.consumer_barrier ≤ r.producer_barrier
      → Mode r g
      → (r.consumer_barrier ≤ g) × (g ≤ r.producer_barrier) × (r.end_offset ≡ max_offset)
  straight-Mode h (straight a b e) = (a, b, e)
  straight-Mode h (wrapped lt a b e) = absurd (omega arith)

  exact_keep :
      0 < r.consumer_barrier
      → r.consumer_barrier ≤ r.producer_barrier
      → (s b m : ℕ) → Holds r g s b m
      → Holds filled g s b m
  exact_keep p q s b m (ahead h1 h2 h3 h4 h5) =
      upper p h2 h3 (omega (arith, straight-Mode q v.mode, v.next_in, v.small)) h5
  exact_keep p q s b m (behind h1 h2 h3) = absurd (omega arith)
  exact_keep p q s b m (upper h1 h2 h3 h4 h5) = absurd (omega arith)
  exact_keep p q s b m (turned h1 h2 h3 h4 h5) = absurd (omega arith)

  straight_apart :
      r.consumer_barrier ≤ r.producer_barrier
      → (s b m : ℕ) → Holds r g s b m
      → (r.consumer_barrier ≤ b) × (b + m ≤ r.producer_barrier)
  straight_apart q s b m (ahead h1 h2 h3 h4 h5) = omega (arith, straight-Mode q v.mode)
  straight_apart q s b m (behind h1 h2 h3) = absurd (omega arith)
  straight_apart q s b m (upper h1 h2 h3 h4 h5) = absurd (omega arith)
  straight_apart q s b m (turned h1 h2 h3 h4 h5) = absurd (omega arith)

  pub Grant-exact :
      0 < r.consumer_barrier
      → r.consumer_barrier ≤ r.producer_barrier
      → r.producer_barrier + n ≡ r.capacity
      → Grant r filled g r.producer_barrier r.producer_barrier n
  Grant-exact p q e = record {
    bounds = record {
      small = v.small;
      next_in = omega (arith, v.next_in);
      written_in = v.written_in;
      mode =
          wrapped p (straight-Mode q v.mode).0
            (omega (arith, straight-Mode q v.mode, v.next_in, v.small))
            (inl (straight-Mode q v.mode).2);
    };
    inside = omega arith;
    seen_in = v.next_in;
    own =
        upper p (straight-Mode q v.mode).1 (omega arith)
          (omega (arith, straight-Mode q v.mode, v.next_in, v.small)) v.next_in;
    keep = exact_keep p q;
    apart = λ s b m h. inr (straight_apart q s b m h).1;
    unread = λ x u. ground arith;
  }

  abbrev turned_state : MpscRingBuffer
  turned_state =
      store_seen (record r { producer_barrier = n; end_offset = r.producer_barrier }) i w
        r.producer_barrier

  turns_keep :
      n < r.consumer_barrier
      → r.consumer_barrier ≤ r.producer_barrier
      → (s b m : ℕ) → Holds r g s b m
      → Holds turned_state g s b m
  turns_keep p q s b m (ahead h1 h2 h3 h4 h5) = upper p h2 h3 (omega (arith, v.next_in)) h5
  turns_keep p q s b m (behind h1 h2 h3) = absurd (omega arith)
  turns_keep p q s b m (upper h1 h2 h3 h4 h5) = absurd (omega arith)
  turns_keep p q s b m (turned h1 h2 h3 h4 h5) = absurd (omega arith)

  pub Grant-turns :
      n < r.consumer_barrier
      → r.consumer_barrier ≤ r.producer_barrier
      → Grant r turned_state g r.producer_barrier 0 n
  Grant-turns p q = record {
    bounds = record {
      small = v.small;
      next_in = omega (arith, v.next_in);
      written_in = v.written_in;
      mode =
          wrapped p (straight-Mode q v.mode).0 (omega (arith, straight-Mode q v.mode, v.next_in))
            (inr v.next_in);
    };
    inside = omega (arith, v.next_in);
    seen_in = v.next_in;
    own = turned p (omega arith) (omega arith) (omega arith) v.next_in;
    keep = turns_keep p q;
    apart = λ s b m h. inl (omega (arith, straight_apart q s b m h));
    unread = λ x u. ground arith;
  }
