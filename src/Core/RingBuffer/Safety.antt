-- ===== src/Core/RingBuffer/Safety.antt =====
-- What holds in every state that MpscRingBuffer reaches, one call of any thread at a time.
use ustevent.Prelude.{
  ℕ, ◌+◌, ◌^◌, ◌≤◌, ◌<◌, ◌≡◌, ◌≢◌, refl, sym, ◌⊎◌, inl, inr, true, Option, none, some, arith,
  Outcome, done, get_elem?, subst, not, ◌==◌, All-get_elem?, All,
}
use ustevent.Core.RingBuffer.{
  MpscRingBuffer, Worker, max_offset, acquire, produce, consume, release, get_wrap_counter,
  Consumed, worker_at, store_worker,
}
use ustevent.Core.RingBuffer.Invariant.{Bounds, Holds, ahead, behind, upper, turned, Apart}
use ustevent.Core.RingBuffer.Acquire.{
  acquire-Acquired, Acquired, too_large, refused, plain, exact, turns,
}
use ustevent.Core.RingBuffer.Grant.{Unread}
use ustevent.Core.RingBuffer.Observe.{Clear}
use ustevent.Core.RingBuffer.Consume.{Handed, empty, handed, Readable}
use ustevent.Core.RingBuffer.Rounds.{Returned, consume-Returned, Holds-apart, release_lem}
use ustevent.Core.RingBuffer.System.{System, Reach, start, Inv, Inv-Fine}
use ustevent.Core.RingBuffer.Granted.{acquire-Granted, acquire-refused}
use ustevent.Core.RingBuffer.Steps.{start-Inv, Reach-Inv}

-- The states that a ring buffer of a 32-bit capacity reaches.
abbrev pub Reachable : System → Type 0
Reachable s =
    (capacity producer_num : ℕ) × (0 < capacity)
    × (capacity < 2 ^ 32)
    × Reach (start capacity producer_num) s

Reachable-Inv : {s : System} → Reachable s → Inv s
Reachable-Inv (capacity, producer_num, p, q, r) = Reach-Inv r (start-Inv capacity producer_num p q)

Holds-inside :
    {r : MpscRingBuffer} {g x a n : ℕ} → Bounds r g → Holds r g x a n → a + n ≤ r.capacity
Holds-inside v (ahead h1 h2 h3 h4 h5) = omega (arith, v.next_in)
Holds-inside v (behind h1 h2 h3) = omega (arith, v.next_in)
Holds-inside v (upper h1 h2 h3 h4 h5) = omega arith
Holds-inside v (turned h1 h2 h3 h4 h5) = omega (arith, v.next_in)

Holds-seen : {r : MpscRingBuffer} {g x a n : ℕ} → Bounds r g → Holds r g x a n → x < r.capacity
Holds-seen v (ahead h1 h2 h3 h4 h5) = h5
Holds-seen v (behind h1 h2 h3) = omega (arith, v.next_in)
Holds-seen v (upper h1 h2 h3 h4 h5) = h5
Holds-seen v (turned h1 h2 h3 h4 h5) = h5

-- In every reachable state, the ranges that two workers have acquired and not yet produced lie in
-- the buffer and do not meet.
pub owners-Apart :
    {s : System} (i j a n b m : ℕ)
    → Reachable s
    → i ≢ j
    → s.owner i ≡ some (a, n)
    → s.owner j ≡ some (b, m)
    → (a + n ≤ s.ring.capacity) × Apart a n b m
owners-Apart i j a n b m r d p q =
    let v = Reachable-Inv r in
    let (w, _, _, h) = v.seats.busy i a n p in
    (Holds-inside v.bounds h, v.seats.apart i j a n b m d p q)

-- In every reachable state `acquire`, called by a registered worker that has no range, returns: it
-- waits for nobody and fails no assertion. If it returns false the ring buffer is unchanged; if it
-- returns an address, the range lies in the buffer and holds no byte that is not released yet.
pub acquire_total :
    {s : System} (i n : ℕ) (w : Worker)
    → Reachable s
    → get_elem? s.ring.workers i ≡ some w
    → w.registered ≡ true
    → s.owner i ≡ none
    → (acquire s.ring i n ≡ done (none, s.ring))
      ⊎ ((a : ℕ) × (t : MpscRingBuffer) × (acquire s.ring i n ≡ done (some a, t))
          × (a + n ≤ s.ring.capacity)
          × ((y : ℕ) → Unread s.ring y → (y < a) ⊎ (a + n ≤ y)))
acquire_total {s} i n w r at on idle =
    elim (outcome
      (acquire-Acquired s.ring i w n s.granted v.bounds at (v.seats.idle i w at idle on))) [
        | inl (t, e) ↦ inl (
            subst (λ z. acquire s.ring i n ≡ done (none, z))
              (sym (acquire-refused s v i n 0 w t at on idle e)) e)
        | inr (b, t, e) ↦
            let g = acquire-Granted s v i n b w t at on idle e in
            inr (b, t, e, g.grants.inside, g.grants.unread)
      ]
  where
    v : Inv s
    v = Reachable-Inv r

    outcome :
        Acquired s.ring i w n (acquire s.ring i n)
        → ((t : MpscRingBuffer) × (acquire s.ring i n ≡ done (none, t)))
          ⊎ ((b : ℕ) × (t : MpscRingBuffer) × (acquire s.ring i n ≡ done (some b, t)))
    outcome (too_large h e) = inl (_, e)
    outcome (refused e) = inl (_, e)
    outcome (plain c e) = inr (_, _, e)
    outcome (exact c d h e) = inr (_, _, e)
    outcome (turns c d h e) = inr (_, _, e)

-- The range of a result of `consume`: acquired before, and apart from the unfinished ranges.
abbrev pub Reads : System → ℕ → Option ℕ → MpscRingBuffer → Type 0
Reads s n x t =
    (a : ℕ)
    → x ≡ some a
    → (a + n ≤ t.capacity)
      × ((y : ℕ) → a ≤ y → y < a + n → Unread t y)
      × ((i b m : ℕ) → s.owner i ≡ some (b, m) → Apart a n b m)

module _ (s : System) (v : Inv s) (k : Returned s.ring s.granted (consume s.ring)) where
  Reads-handed :
      (n : ℕ)
      → Readable k.state n
      → All (Clear k.state.consumer_barrier (k.state.consumer_barrier + n)) k.state.workers
      → Reads s n (some k.state.consumer_barrier) k.state
  Reads-handed n m c a e =
      let same : k.state.consumer_barrier ≡ a = ground arith in
      subst
        (λ z.
          (z + n ≤ k.state.capacity)
          × ((y : ℕ) → z ≤ y → y < z + n → Unread k.state y)
          × ((i b l : ℕ) → s.owner i ≡ some (b, l) → Apart z n b l))
        same
        (
          omega (arith, k.bounds.next_in),
          (λ y p q. ground arith),
          λ i b l held.
              let (w, at, on, own) = v.seats.busy i b l held in
              Holds-apart n w.seen b l k.bounds
                (All-get_elem? _ k.state.workers i w c (rw k.same_workers at) on) m
                (k.keep i w b l at on own),
        )

  consumes :
      (out : Outcome Consumed)
      → Handed k.state k.granted out
      → (n : ℕ) × (x : Option ℕ) × (t : MpscRingBuffer) × (out ≡ done (n, x, t)) × Reads s n x t
  consumes out (empty e q) = (0, none, k.state, q, λ a p. absurd (ground arith))
  consumes out (handed n q h m c) =
      (n, some k.state.consumer_barrier, k.state, q, Reads-handed n m c)

-- In every reachable state `consume` returns: its loop ends within two rounds, it waits for nobody
-- and fails no assertion. The bytes that it hands out lie in the buffer, are not released yet, and
-- meet no range that a worker has acquired and not yet produced.
pub consume_total :
    {s : System}
    → Reachable s
    → (n : ℕ) × (x : Option ℕ) × (t : MpscRingBuffer) × (consume s.ring ≡ done (n, x, t))
      × Reads s n x t
consume_total {s} r =
    let v = Reachable-Inv r in
    let k = consume-Returned s.ring s.granted v.bounds (Inv-Fine v) in
    consumes s v k (consume s.ring) k.result

-- In every reachable state a worker can produce the range that it has acquired: no assertion fails.
pub produce_total :
    {s : System} (i a n : ℕ)
    → Reachable s
    → s.owner i ≡ some (a, n)
    → (t : MpscRingBuffer) × (produce s.ring i ≡ done t)
unfolding produce
produce_total {s} i a n r p =
    let v = Reachable-Inv r in
    let (w, at, on, h) = v.seats.busy i a n p in
    let busy : not (w.seen == max_offset) ≡ true =
      ground (arith, Holds-seen v.bounds h, v.bounds.small) in
    (store_worker s.ring i (record w { seen = max_offset }), rw (worker_at, at, on, busy) refl)

-- In every reachable state the consumer can release any part of what it has been handed: no
-- assertion fails.
pub release_total :
    {s : System} (n : ℕ)
    → Reachable s
    → s.ring.consumer_barrier + n ≤ s.granted
    → (t : MpscRingBuffer) × (release s.ring n ≡ done t)
release_total {s} n r h = (_, release_lem s.ring s.granted n (Reachable-Inv r).bounds h)

-- The wrap counter of the producers' barrier is 0 in every reachable state, also after the producers
-- have gone round the buffer.
pub wrap_counter_stays_zero :
    {s : System} → Reachable s → get_wrap_counter s.ring.producer_barrier ≡ 0
wrap_counter_stays_zero r =
    let v = Reachable-Inv r in omega (arith, v.bounds.small, v.bounds.next_in)
