-- ===== src/Core/RingBuffer/Rounds.antt =====
-- `consume` as a whole, and `release`: both return, and what becomes of the ranges of the workers.
use ustevent.Prelude.{
  ℕ, suc, ◌+◌, ◌%◌, ◌^◌, ◌≤◌, ◌<◌, ◌≡◌, refl, ◌⊎◌, inl, inr, true, false, some, arith, Outcome,
  done, ltb, leb, ◌==◌, All, All-map, All-get_elem?, get_elem?, if◌then◌else◌,
}
use native.Mathlib.Decide.{ℕ_discrete}
use ustevent.Core.RingBuffer.{
  MpscRingBuffer, Worker, max_offset, consume_round, consume, consume_loop, wrap_around, release,
  Consumed, is_locked, get_buffer_index, get_stable_next,
}
use ustevent.Core.RingBuffer.Invariant.{
  Mode, straight, wrapped, Bounds, Holds, ahead, behind, upper, turned,
}
use ustevent.Core.RingBuffer.Observe.{Fine}
use ustevent.Core.RingBuffer.Consume.{
  Handed, Readable, RoundEnds, consume_round_lem, wrap_around-Bounds, wrap_around-Holds, granted_in,
}

consume_loop-round :
    (fuel g : ℕ) (r : MpscRingBuffer)
    → Bounds r g
    → consume_loop (suc fuel) r
      ≡ consume_round r (consume_loop fuel (wrap_around r)) r.producer_barrier
unfolding consume_loop
consume_loop-round fuel g r v = rw (get_stable_next, unlocked, in_bounds, index) refl
  where
    open v use {small, next_in}

    unlocked : is_locked r.producer_barrier ≡ false
    unlocked = ground arith

    in_bounds : ltb (get_buffer_index r.producer_barrier) r.capacity ≡ true
    in_bounds = ground arith

    index : get_buffer_index r.producer_barrier ≡ r.producer_barrier
    index = omega arith

-- `consume` hands out bytes of the state `t`: the one it is called in, or that one wrapped around.
pub record Returned (r : MpscRingBuffer) (g : ℕ) (out : Outcome Consumed) : Type 0 where
  pub state : MpscRingBuffer
  pub granted : ℕ
  pub bounds : Bounds state granted
  pub same_workers : state.workers ≡ r.workers
  pub result : Handed state granted out
  pub keep :
      (i : ℕ) (w : Worker) (b m : ℕ)
      → get_elem? r.workers i ≡ some w
      → w.registered ≡ true
      → Holds r g w.seen b m
      → Holds state granted w.seen b m

module _ (r : MpscRingBuffer) (g : ℕ) (v : Bounds r g)
    (f : All (Fine r.consumer_barrier g) r.workers) where
  again_lem :
      r.producer_barrier < r.consumer_barrier
      → Handed (wrap_around r) 0 (consume_loop 1 (wrap_around r))
  again_lem h =
      rw (consume_loop-round 0 0 (wrap_around r) bounds)
        (elim (consume_round_lem (wrap_around r) 0 bounds _ fine) [
          | inl d ↦ d
          | inr t ↦ absurd (omega arith)
        ])
    where
      bounds : Bounds (wrap_around r) 0
      bounds = wrap_around-Bounds r g v h

      fine : All (Fine 0 0) r.workers
      fine = All-map _ _ r.workers (λ w p on. ((p on).0, inr (omega arith))) f

  finish : RoundEnds r g v (consume r) (consume_loop 1 (wrap_around r)) → Returned r g (consume r)
  finish (inl d) = record {
    state = r;
    granted = g;
    bounds = v;
    same_workers = refl;
    result = d;
    keep = λ i w b m at on h. h;
  }
  finish (inr (h, e, again, clear)) = record {
    state = wrap_around r;
    granted = 0;
    bounds = wrap_around-Bounds r g v h;
    same_workers = refl;
    result = rw again (again_lem h);
    keep = λ i w b m at on.
        wrap_around-Holds r g v h w.seen b m (All-get_elem? _ r.workers i w clear at on)
          (omega arith);
  }

  consume-round : consume r ≡ consume_round r (consume_loop 1 (wrap_around r)) r.producer_barrier
  unfolding consume
  consume-round = consume_loop-round 1 g r v

  -- Two rounds are enough, and no assertion fails.
  pub consume-Returned : Returned r g (consume r)
  consume-Returned = finish (rw consume-round (consume_round_lem r g v _ f))

-- The ranges of the workers are after what was handed out.
pub Holds-handed :
    {r : MpscRingBuffer} {g : ℕ} (n s b m : ℕ)
    → Bounds r g
    → (r.consumer_barrier ≤ s → r.consumer_barrier + n ≤ s)
    → Holds r g s b m
    → Holds r (r.consumer_barrier + n) s b m
Holds-handed {r} {g} n s b m v c (ahead h1 h2 h3 h4 h5) =
    ahead h1 (c (omega (arith, granted_in r g v))) h3 h4 h5
Holds-handed n s b m v c (behind h1 h2 h3) = behind h1 h2 h3
Holds-handed {r} {g} n s b m v c (upper h1 h2 h3 h4 h5) =
    upper h1 (c (omega (arith, granted_in r g v))) h3 h4 h5
Holds-handed n s b m v c (turned h1 h2 h3 h4 h5) = turned h1 h2 h3 h4 h5

pub Bounds-handed :
    {r : MpscRingBuffer} {g : ℕ} (n : ℕ)
    → Bounds r g
    → Readable r n
    → Bounds r (r.consumer_barrier + n)
Bounds-handed {r} {g} n v m = record {
  small = v.small;
  next_in = v.next_in;
  written_in = v.written_in;
  mode = moved v.mode m;
}
  where
    moved : Mode r g → Readable r n → Mode r (r.consumer_barrier + n)
    moved (straight a b e) (inl t) = straight (omega arith) t.1 e
    moved (straight a b e) (inr t) = absurd (omega arith)
    moved (wrapped h a b e) (inl t) = absurd (omega arith)
    moved (wrapped h a b e) (inr t) = wrapped h (omega arith) t.1 e

-- A range that was handed out meets none that a worker owns.
pub Holds-apart :
    {r : MpscRingBuffer} {g : ℕ} (n s b m : ℕ)
    → Bounds r g
    → (r.consumer_barrier ≤ s → r.consumer_barrier + n ≤ s)
    → Readable r n
    → Holds r g s b m
    → (r.consumer_barrier + n ≤ b) ⊎ (b + m ≤ r.consumer_barrier)
Holds-apart {r} {g} n s b m v c t (ahead h1 h2 h3 h4 h5) =
    inl (omega (arith, c (omega (arith, granted_in r g v))))
Holds-apart n s b m v c t (behind h1 h2 h3) = inr (omega arith)
Holds-apart {r} {g} n s b m v c t (upper h1 h2 h3 h4 h5) =
    inl (omega (arith, c (omega (arith, granted_in r g v))))
Holds-apart n s b m v c t (turned h1 h2 h3 h4 h5) = inr (omega arith)

module _ (r : MpscRingBuffer) (g n : ℕ) (v : Bounds r g) (h : r.consumer_barrier + n ≤ g) where
  -- The state after `release`, and what the consumer may still release.
  abbrev pub released : MpscRingBuffer
  released = record r {
    consumer_barrier = if r.consumer_barrier + n == r.capacity then 0 else r.consumer_barrier + n;
  }

  abbrev pub still_granted : ℕ
  still_granted = if r.consumer_barrier + n == r.capacity then 0 else g

  granted_small : g ≤ r.capacity
  granted_small = elim v.mode [
    | straight a b e ↦ omega (arith, v.next_in)
    | wrapped lt a b e ↦ omega arith
  ]

  in_end : r.consumer_barrier ≤ r.end_offset
  in_end = elim v.mode [
    | straight a b e ↦ omega (arith, v.written_in, v.small)
    | wrapped lt a b e ↦ omega arith
  ]

  -- No assertion fails.
  pub release_lem : release r n ≡ done released
  unfolding release
  release_lem = rw (sum, below, before, fits) refl
    where
      open v use {small, written_in}

      sum : (r.consumer_barrier + n) % 2 ^ 64 ≡ r.consumer_barrier + n
      sum = omega (arith, granted_small)

      below : leb r.consumer_barrier r.capacity ≡ true
      below = ground arith

      before : leb r.consumer_barrier r.end_offset ≡ true
      before = ground (arith, in_end)

      fits : leb (r.consumer_barrier + n) r.capacity ≡ true
      fits = ground (arith, granted_small)

  pub released-Bounds : Bounds released still_granted
  released-Bounds = elim (ℕ_discrete (r.consumer_barrier + n) r.capacity) [
    | yes e ↦ record {
      small = v.small;
      next_in = v.next_in;
      written_in = ground (arith, v.next_in);
      mode = straight (ground arith) (ground arith) (open_end e);
    }
    | no d ↦ record {
      small = v.small;
      next_in = v.next_in;
      written_in = ground (arith, granted_small);
      mode = elim v.mode [
        | straight a b e ↦ straight (ground arith) (ground arith) e
        | wrapped lt a b e ↦ wrapped (ground arith) (ground arith) (ground arith) e
      ];
    }
  ]
    where
      open_end : r.consumer_barrier + n ≡ r.capacity → r.end_offset ≡ max_offset
      open_end e = elim v.mode [
        | straight a b t ↦ t
        | wrapped lt a b t ↦ grind (arith, granted_small)
      ]

  pub released-Holds : (s b m : ℕ) → Holds r g s b m → Holds released still_granted s b m
  released-Holds s b m t = elim (ℕ_discrete (r.consumer_barrier + n) r.capacity) [
    | yes e ↦ at_end e t
    | no d ↦ inside d t
  ]
    where
      at_end :
          r.consumer_barrier + n ≡ r.capacity → Holds r g s b m → Holds released still_granted s b m
      at_end e (ahead h1 h2 h3 h4 h5) = absurd (omega (arith, granted_small))
      at_end e (behind h1 h2 h3) =
          ahead (ground arith) (ground arith) h2 h3 (omega (arith, v.next_in))
      at_end e (upper h1 h2 h3 h4 h5) = absurd (omega arith)
      at_end e (turned h1 h2 h3 h4 h5) = absurd (omega (arith, (granted_in r g v).1 h1))

      inside :
          ¬ (r.consumer_barrier + n ≡ r.capacity)
          → Holds r g s b m
          → Holds released still_granted s b m
      inside d (ahead h1 h2 h3 h4 h5) =
          ahead (ground (arith, (granted_in r g v).2 h1)) (ground arith) h3 h4 h5
      inside d (behind h1 h2 h3) = behind (ground arith) h2 h3
      inside d (upper h1 h2 h3 h4 h5) = upper (ground arith) (ground arith) h3 h4 h5
      inside d (turned h1 h2 h3 h4 h5) = turned (ground arith) h2 h3 h4 h5
