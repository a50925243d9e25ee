-- ===== src/Core/RingBuffer/Acquire.antt =====
-- What `MpscRingBuffer::acquire` does in a state that satisfies the bounds, case by case.
use ustevent.Prelude.{
  ℕ, ◌+◌, ◌≤◌, ◌<◌, ◌≡◌, refl, sym, ap, ◌∙◌, set, set_self, ◌⊎◌, inl, inr, true, false, none, some,
  Option, arith, Outcome, done, ltb, leb, get_elem?, ◌==◌, ◌%◌, ◌^◌, set-set,
}
use native.Mathlib.Decide.{dec_lt}
use ustevent.Core.RingBuffer.{
  MpscRingBuffer, Worker, max_offset, acquire, attempt, exchange, is_locked, get_buffer_index,
  store_seen, place, place_wrapped, lock_wrap_bit, unlock_wrap_bit, worker_at, get_stable_next,
}
use ustevent.Core.RingBuffer.Invariant.{straight, wrapped, Bounds}

-- The four outcomes of `acquire`. `b` is the producers' index at the call.
pub data Acquired (r : MpscRingBuffer) (i : ℕ) (w : Worker) (n : ℕ)
    (out : Outcome (Option ℕ × MpscRingBuffer)) : Type 0 where
  too_large : r.capacity < n → out ≡ done (none, r) → Acquired r i w n out
  refused : out ≡ done (none, r) → Acquired r i w n out
  plain :
      ((r.producer_barrier + n < r.consumer_barrier)
        ⊎ ((r.consumer_barrier ≤ r.producer_barrier) × (r.producer_barrier + n < r.capacity)))
      → out
        ≡ done (
          some r.producer_barrier,
          store_seen
              (record r { producer_barrier = r.producer_barrier + n })
              i
              w
              r.producer_barrier,
        )
      → Acquired r i w n out
  exact :
      0 < r.consumer_barrier
      → r.consumer_barrier ≤ r.producer_barrier
      → r.producer_barrier + n ≡ r.capacity
      → out
        ≡ done (
          some r.producer_barrier,
          store_seen (record r { producer_barrier = 0 }) i w r.producer_barrier,
        )
      → Acquired r i w n out
  turns :
      n < r.consumer_barrier
      → r.consumer_barrier ≤ r.producer_barrier
      → r.capacity < r.producer_barrier + n
      → out
        ≡ done (
          some 0,
          store_seen
              (record r { producer_barrier = n; end_offset = r.producer_barrier })
              i
              w
              r.producer_barrier,
        )
      → Acquired r i w n out

module _ (r : MpscRingBuffer) (i : ℕ) (w : Worker) (n g : ℕ) (v : Bounds r g)
    (at : get_elem? r.workers i ≡ some w) (free : w.seen ≡ max_offset) where
  -- Up to the loop no assertion fails, and the stable offset is the barrier itself.
  acquire-attempt : n ≤ r.capacity → acquire r i n ≡ attempt r i w n r.producer_barrier
  unfolding acquire
  acquire-attempt h =
      rw (not_large, worker_at, at, idle, get_stable_next, unlocked, in_bounds, in_bounds) refl
    where
      open v use {small, next_in}

      not_large : ltb r.capacity n ≡ false
      not_large = ground arith

      idle : (w.seen == max_offset) ≡ true
      idle = ground arith

      unlocked : is_locked r.producer_barrier ≡ false
      unlocked = ground arith

      in_bounds : ltb (get_buffer_index r.producer_barrier) r.capacity ≡ true
      in_bounds = ground arith

  attempt-place :
      n ≤ r.capacity
      → attempt r i w n r.producer_barrier
        ≡ place r i w n r.producer_barrier r.producer_barrier (r.producer_barrier + n)
  unfolding attempt
  attempt-place h = rw (index, sum) refl
    where
      open v use {small, next_in}

      index : get_buffer_index r.producer_barrier ≡ r.producer_barrier
      index = omega arith

      sum : (r.producer_barrier + n) % 2 ^ 64 ≡ r.producer_barrier + n
      sum = omega arith

  exchange-straight :
      (t : ℕ)
      → t ≤ r.capacity
      → exchange
          (store_seen r i w (lock_wrap_bit r.producer_barrier))
          i
          w
          r.producer_barrier
          r.producer_barrier
          t
        ≡ done (
          some r.producer_barrier,
          store_seen (record r { producer_barrier = t }) i w r.producer_barrier,
        )
  unfolding exchange
  exchange-straight t h = rw (met, unlocked, in_bounds, again, set-set) refl
    where
      open v use {small, next_in}

      met : (r.producer_barrier == r.producer_barrier) ≡ true
      met = ground arith

      unlocked : is_locked t ≡ false
      unlocked = ground arith

      in_bounds : leb (get_buffer_index t) r.capacity ≡ true
      in_bounds = ground arith

      again : unlock_wrap_bit (lock_wrap_bit r.producer_barrier) ≡ r.producer_barrier
      again = omega arith

  exchange-turned :
      n ≤ r.capacity
      → r.consumer_barrier ≤ r.producer_barrier
      → r.end_offset ≡ max_offset
      → exchange
          (store_seen r i w (lock_wrap_bit r.producer_barrier))
          i
          w
          r.producer_barrier
          r.producer_barrier
          (lock_wrap_bit n)
        ≡ done (
          some 0,
          store_seen
              (record r { producer_barrier = n; end_offset = r.producer_barrier })
              i
              w
              r.producer_barrier,
        )
  unfolding exchange
  exchange-turned h le e = rw (met, locked, behind, open_end, in_bounds, again, size, set-set) refl
    where
      open v use {small, next_in}

      met : (r.producer_barrier == r.producer_barrier) ≡ true
      met = ground arith

      locked : is_locked (lock_wrap_bit n) ≡ true
      locked = ground arith

      behind : leb r.consumer_barrier r.producer_barrier ≡ true
      behind = ground arith

      open_end : (r.end_offset == max_offset) ≡ true
      open_end = ground arith

      in_bounds : leb (get_buffer_index (lock_wrap_bit n)) r.capacity ≡ true
      in_bounds = ground arith

      again : unlock_wrap_bit (lock_wrap_bit r.producer_barrier) ≡ r.producer_barrier
      again = omega arith

      size : unlock_wrap_bit (lock_wrap_bit n) ≡ n
      size = omega arith

  -- The lock that a failed call put on `_seen` is undone.
  restored : store_seen r i w max_offset ≡ r
  restored =
      ap (λ ws. record r { workers = ws })
        (ap (λ s. set r.workers i (record w { seen = s })) (sym free) ∙ set_self r.workers i w at)

  straight_end : r.consumer_barrier ≤ r.producer_barrier → r.end_offset ≡ max_offset
  straight_end h = elim v.mode [ straight _ _ e ↦ e | wrapped lt _ _ _ ↦ absurd (omega arith) ]

  place-Acquired :
      n ≤ r.capacity
      → Acquired r i w n
          (place r i w n r.producer_barrier r.producer_barrier (r.producer_barrier + n))
  unfolding place place_wrapped
  place-Acquired h = elim (dec_lt r.producer_barrier r.consumer_barrier) [
    | yes p ↦ elim (dec_lt (r.producer_barrier + n) r.consumer_barrier) [
      | yes q ↦
          plain (inl q) (ground (arith, v.written_in, exchange-straight (r.producer_barrier + n)))
      | no q ↦ refused (ground (arith, restored))
    ]
    | no p ↦ elim (dec_lt (r.producer_barrier + n) r.capacity) [
      | yes q ↦
          plain (inr (omega arith, q)) (ground (arith, exchange-straight (r.producer_barrier + n)))
      | no q ↦ elim (dec_lt r.capacity (r.producer_barrier + n)) [
        | yes t ↦ elim (dec_lt n r.consumer_barrier) [
          | yes u ↦ turns u (omega arith) t (ground (arith, v.small, exchange-turned, straight_end))
          | no u ↦ refused (ground (arith, v.small, restored))
        ]
        | no t ↦ elim (dec_lt 0 r.consumer_barrier) [
          | yes u ↦ exact u (omega arith) (omega arith) (ground (arith, exchange-straight 0))
          | no u ↦ refused (ground (arith, restored))
        ]
      ]
    ]
  ]

  acquire-too_large : r.capacity < n → acquire r i n ≡ done (none, r)
  unfolding acquire
  acquire-too_large h = rw large refl
    where
      large : ltb r.capacity n ≡ true
      large = ground arith

  -- `acquire` returns in every state, fails no assertion, and has one of the outcomes above.
  pub acquire-Acquired : Acquired r i w n (acquire r i n)
  acquire-Acquired = elim (dec_lt r.capacity n) [
    | yes h ↦ too_large h (acquire-too_large h)
    | no h ↦
        rw (acquire-attempt (omega arith), attempt-place (omega arith))
          (place-Acquired (omega arith))
  ]
