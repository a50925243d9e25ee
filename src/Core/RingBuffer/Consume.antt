-- ===== src/Core/RingBuffer/Consume.antt =====
-- What `consume` and `release` do in a state that satisfies the invariant.
use ustevent.Prelude.{
  ℕ, ◌+◌, ◌-◌, ◌≤◌, ◌<◌, min, ◌≡◌, refl, subst, ◌⊎◌, inl, inr, true, false, ◌&&◌, none, some, arith,
  Outcome, done, Bool-cases, ltb, leb, ◌==◌, All, All-map, if◌then◌else◌, lt→ltb,
}
use native.Mathlib.Decide.{dec_lt, ℕ_discrete}
use ustevent.Core.RingBuffer.{
  MpscRingBuffer, max_offset, observe, consume_round, cut_off, deliver, wrap_around, Consumed,
}
use ustevent.Core.RingBuffer.Invariant.{
  straight, wrapped, Bounds, limit, Holds, ahead, behind, upper, turned,
}
use ustevent.Core.RingBuffer.Observe.{Fine, Clear, observe-Observed}

-- How far the consumer may read from `written` on.
abbrev pub Readable : MpscRingBuffer → ℕ → Type 0
Readable r n =
    ((r.consumer_barrier ≤ r.producer_barrier) × (r.consumer_barrier + n ≤ r.producer_barrier))
    ⊎ ((r.producer_barrier < r.consumer_barrier) × (r.consumer_barrier + n ≤ limit r))

-- The consumer finds nothing, or is handed `n` bytes that no registered worker is still writing.
pub data Handed (r : MpscRingBuffer) (g : ℕ) (out : Outcome Consumed) : Type 0 where
  empty : r.consumer_barrier ≡ r.producer_barrier → out ≡ done (0, none, r) → Handed r g out
  handed :
      (n : ℕ)
      → out ≡ done (n, some r.consumer_barrier, r)
      → g ≤ r.consumer_barrier + n
      → Readable r n
      → All (Clear r.consumer_barrier (r.consumer_barrier + n)) r.workers
      → Handed r g out

abbrev pub Turns : MpscRingBuffer → Outcome Consumed → Outcome Consumed → Type 0
Turns r out again =
    (r.producer_barrier < r.consumer_barrier)
    × (r.consumer_barrier ≡ limit r)
    × (out ≡ again)
    × All (Clear r.consumer_barrier max_offset) r.workers

module _ (r : MpscRingBuffer) (g : ℕ) (v : Bounds r g) where
  deliver_lem :
      (k : ℕ)
      → r.consumer_barrier ≤ k
      → k ≤ r.capacity
      → deliver r r.consumer_barrier k ≡ done (k - r.consumer_barrier, some r.consumer_barrier, r)
  unfolding deliver
  deliver_lem k h p = ground arith

  pub granted_in :
      (r.consumer_barrier ≤ g)
      × (r.producer_barrier < r.consumer_barrier → g ≤ limit r)
      × (r.consumer_barrier ≤ r.producer_barrier → g ≤ r.producer_barrier)
  granted_in = elim v.mode [
    | straight a b e ↦ (a, (λ h. absurd (omega arith)), (λ _. b))
    | wrapped h a b e ↦ (a, (λ _. b), (λ t. absurd (omega arith)))
  ]

  -- Where the readable range ends at `k`, or at the end of the range if that is before.
  abbrev Ends : ℕ → Outcome Consumed → Type 0
  Ends k out = out ≡ done (k - r.consumer_barrier, some r.consumer_barrier, r)

  Handed-to :
      (k : ℕ) (out : Outcome Consumed)
      → Ends k out
      → g ≤ k
      → Readable r (k - r.consumer_barrier)
      → All (Clear r.consumer_barrier k) r.workers
      → Handed r g out
  Handed-to k out e h m c =
      handed (k - r.consumer_barrier) e (omega (arith, granted_in)) m
        (All-map _ _ r.workers (λ w d on t. omega (arith, d on t, granted_in)) c)

  cut_off-reads :
      (again : Outcome Consumed) (k : ℕ)
      → r.producer_barrier < r.consumer_barrier
      → g ≤ k
      → (k == max_offset && r.consumer_barrier == limit r) ≡ false
      → Ends (min k (limit r)) (cut_off r again k r.producer_barrier)
  unfolding cut_off
  cut_off-reads again k h p e = rw (e, after, above, fits) refl
    where
      in_order : r.consumer_barrier ≤ min k (limit r)
      in_order = omega (arith, granted_in.0, granted_in.1 h)

      after : ltb r.producer_barrier k ≡ true
      after = ground (arith, granted_in.0)

      above : leb r.consumer_barrier (min k (limit r)) ≡ true
      above = ground (arith, in_order)

      fits : leb (min k (limit r) - r.consumer_barrier) r.capacity ≡ true
      fits = ground arith

  cut_off_lem :
      (again : Outcome Consumed) (k : ℕ)
      → r.producer_barrier < r.consumer_barrier
      → g ≤ k
      → All (Clear r.consumer_barrier k) r.workers
      → Handed r g (cut_off r again k r.producer_barrier)
        ⊎ Turns r (cut_off r again k r.producer_barrier) again
  unfolding cut_off
  cut_off_lem again k h p c = elim (Bool-cases (k == max_offset && r.consumer_barrier == limit r)) [
    | inl e ↦
        let full : k ≡ max_offset = ground arith in
        inr (
          h,
          ground arith,
          rw e refl,
          subst (λ t. All (Clear r.consumer_barrier t) r.workers) full c,
        )
    | inr e ↦ inl (
        Handed-to (min k (limit r)) _ (cut_off-reads again k h p e) (omega (arith, granted_in.1 h))
          (omega (arith, granted_in.0, granted_in.1 h))
          (All-map _ _ r.workers (λ w d on t. omega (arith, d on t)) c))
  ]

  below_max : g ≤ max_offset
  below_max = elim (dec_lt r.producer_barrier r.consumer_barrier) [
    | yes h ↦ omega (arith, granted_in.1 h, v.small)
    | no h ↦ omega (arith, granted_in.2 (omega arith), v.small, v.next_in)
  ]

  -- What follows the loop over the workers.
  consume_round-observed :
      (again : Outcome Consumed) (k : ℕ)
      → ¬ (r.consumer_barrier ≡ r.producer_barrier)
      → observe r.consumer_barrier r.workers max_offset ≡ done k
      → consume_round r again r.producer_barrier ≡ (
          if ltb r.producer_barrier r.consumer_barrier
          then cut_off r again k r.producer_barrier
          else deliver r r.consumer_barrier (min k r.producer_barrier))
  unfolding consume_round
  consume_round-observed again k d e = rw (differ, e) refl
    where
      differ : (r.consumer_barrier == r.producer_barrier) ≡ false
      differ = ground arith

  consume_round-empty :
      (again : Outcome Consumed)
      → r.consumer_barrier ≡ r.producer_barrier
      → consume_round r again r.producer_barrier ≡ done (0, none, r)
  unfolding consume_round
  consume_round-empty again e = rw same refl
    where
      same : (r.consumer_barrier == r.producer_barrier) ≡ true
      same = ground arith

  abbrev pub RoundEnds : Outcome Consumed → Outcome Consumed → Type 0
  RoundEnds out again = Handed r g out ⊎ Turns r out again

  straight_lem :
      (k : ℕ)
      → r.consumer_barrier ≤ r.producer_barrier
      → g ≤ k
      → All (Clear r.consumer_barrier k) r.workers
      → Handed r g (deliver r r.consumer_barrier (min k r.producer_barrier))
  straight_lem k h p c =
      Handed-to (min k r.producer_barrier) _
        (deliver_lem (min k r.producer_barrier) (omega (arith, granted_in.0))
          (omega (arith, v.next_in)))
        (omega (arith, granted_in.2 h)) (inl (h, omega (arith, granted_in.0)))
        (All-map _ _ r.workers (λ w d on t. omega (arith, d on t)) c)

  pub consume_round_lem :
      (again : Outcome Consumed)
      → All (Fine r.consumer_barrier g) r.workers
      → RoundEnds (consume_round r again r.producer_barrier) again
  consume_round_lem again f = elim (ℕ_discrete r.consumer_barrier r.producer_barrier) [
    | yes e ↦ inl (empty e (consume_round-empty again e))
    | no d ↦
        let (k, e, p, q, c) =
          observe-Observed r.consumer_barrier g max_offset r.workers f granted_in.0 below_max in
        rw (consume_round-observed again k d e)
          (elim (dec_lt r.producer_barrier r.consumer_barrier) [
            | yes h ↦ rw (lt→ltb _ _ h) (cut_off_lem again k h p c)
            | no h ↦
                let past : ltb r.producer_barrier r.consumer_barrier ≡ false = ground arith in
                rw past (inl (straight_lem k (omega arith) p c))
          ])
  ]

-- The second round, after the consumer has gone round to zero.
module _ (r : MpscRingBuffer) (g : ℕ) (v : Bounds r g)
    (h : r.producer_barrier < r.consumer_barrier) where
  pub wrap_around-Bounds : Bounds (wrap_around r) 0
  wrap_around-Bounds = record {
    small = v.small;
    next_in = v.next_in;
    written_in = omega (arith, v.written_in);
    mode = straight (omega arith) (omega arith) refl;
  }

  pub wrap_around-Holds :
      (s b m : ℕ)
      → (r.consumer_barrier ≤ s → max_offset ≤ s)
      → r.consumer_barrier ≤ limit r
      → Holds r g s b m
      → Holds (wrap_around r) 0 s b m
  wrap_around-Holds s b m c l (ahead h1 h2 h3 h4 h5) = absurd (omega arith)
  wrap_around-Holds s b m c l (behind h1 h2 h3) =
      ahead (omega arith) (omega arith) h2 h3 (omega (arith, v.next_in))
  wrap_around-Holds s b m c l (upper h1 h2 h3 h4 h5) =
      absurd (omega (arith, c (omega (arith, granted_in r g v)), v.small))
  wrap_around-Holds s b m c l (turned h1 h2 h3 h4 h5) =
      absurd (omega (arith, c (omega arith), v.small))
