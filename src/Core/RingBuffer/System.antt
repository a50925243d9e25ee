-- ===== src/Core/RingBuffer/System.antt =====
-- Any number of registered workers and one consumer, each call of MpscRingBuffer taken as one step.
-- `owner i` is the range that worker `i` has acquired and not produced, and `granted` is the end of
-- what the consumer has been handed and may release.
use ustevent.Prelude.{
  ℕ, ◌+◌, ◌^◌, ◌≤◌, ◌<◌, ◌≡◌, ◌≢◌, ◌⊎◌, inl, inr, true, Option, none, some, arith, done, get_elem?,
  get_elem?-set, set, update, ◌==◌, if◌then◌else◌, All-of_get_elem?, All, subst, Option-cases,
}
use native.Mathlib.Decide.{ℕ_discrete}
use ustevent.Core.RingBuffer.{
  MpscRingBuffer, Worker, max_offset, create, register_worker, unregister_worker, acquire, produce,
  consume, release,
}
use ustevent.Core.RingBuffer.Invariant.{
  Mode, straight, wrapped, Bounds, Holds, ahead, behind, upper, turned, Apart,
}
use ustevent.Core.RingBuffer.Observe.{Fine}

pub record System : Type 0 where
  pub ring : MpscRingBuffer
  pub granted : ℕ
  pub owner : ℕ → Option (ℕ × ℕ)

pub data Step (s : System) : System → Type 0 where
  register :
      (i : ℕ) (t : MpscRingBuffer)
      → s.owner i ≡ none
      → register_worker s.ring i ≡ done t
      → Step s (record s { ring = t; owner = update s.owner i none })
  unregister :
      (i : ℕ) (t : MpscRingBuffer)
      → s.owner i ≡ none
      → unregister_worker s.ring i ≡ done t
      → Step s (record s { ring = t; owner = update s.owner i none })
  grant :
      (i n a : ℕ) (w : Worker) (t : MpscRingBuffer)
      → get_elem? s.ring.workers i ≡ some w
      → w.registered ≡ true
      → s.owner i ≡ none
      → acquire s.ring i n ≡ done (some a, t)
      → Step s (record s { ring = t; owner = update s.owner i (some (a, n)) })
  refuse :
      (i n : ℕ) (w : Worker) (t : MpscRingBuffer)
      → get_elem? s.ring.workers i ≡ some w
      → w.registered ≡ true
      → s.owner i ≡ none
      → acquire s.ring i n ≡ done (none, t)
      → Step s (record s { ring = t })
  finish :
      (i a n : ℕ) (t : MpscRingBuffer)
      → s.owner i ≡ some (a, n)
      → produce s.ring i ≡ done t
      → Step s (record s { ring = t; owner = update s.owner i none })
  read :
      (n : ℕ) (address : Option ℕ) (t : MpscRingBuffer)
      → consume s.ring ≡ done (n, address, t)
      → Step s (record s { ring = t; granted = t.consumer_barrier + n })
  give_back :
      (n : ℕ) (t : MpscRingBuffer)
      → s.ring.consumer_barrier + n ≤ s.granted
      → release s.ring n ≡ done t
      → Step s (record s {
        ring = t;
        granted = if s.ring.consumer_barrier + n == s.ring.capacity then 0 else s.granted;
      })

pub data Reach (s : System) : System → Type 0 where
  here : Reach s s
  next : {t u : System} → Reach s t → Step t u → Reach s u

abbrev pub start : ℕ → ℕ → System
start capacity producer_num = record {
  ring = create capacity producer_num;
  granted = 0;
  owner = λ _. none;
}

-- Every worker without a range has no `_seen`, and the ranges are where `Holds` says and apart.
pub record Seats (r : MpscRingBuffer) (g : ℕ) (owner : ℕ → Option (ℕ × ℕ)) : Type 0 where
  pub idle :
      (i : ℕ) (w : Worker)
      → get_elem? r.workers i ≡ some w
      → owner i ≡ none
      → w.registered ≡ true
      → w.seen ≡ max_offset
  pub busy :
      (i a n : ℕ)
      → owner i ≡ some (a, n)
      → (w : Worker) × (get_elem? r.workers i ≡ some w)
        × (w.registered ≡ true)
        × Holds r g w.seen a n
  pub apart :
      (i j a n b m : ℕ) → i ≢ j → owner i ≡ some (a, n) → owner j ≡ some (b, m) → Apart a n b m

pub record Inv (s : System) : Type 0 where
  pub bounds : Bounds s.ring s.granted
  pub seats : Seats s.ring s.granted s.owner

-- The workers stay as they are.
pub Seats-move :
    (r t : MpscRingBuffer) (g h : ℕ) (o : ℕ → Option (ℕ × ℕ))
    → Seats r g o
    → t.workers ≡ r.workers
    → ((i : ℕ) (w : Worker) (b m : ℕ)
        → get_elem? r.workers i ≡ some w
        → w.registered ≡ true
        → Holds r g w.seen b m
        → Holds t h w.seen b m)
    → Seats t h o
Seats-move r t g h o s e keep = record {
  idle = λ i w at. s.idle i w (rw e at at);
  busy = λ i a n p. let (w, at, on, d) = s.busy i a n p in (w, rw e at, on, keep i w a n at on d);
  apart = s.apart;
}

module _ (r t : MpscRingBuffer) (g h i : ℕ) (o : ℕ → Option (ℕ × ℕ)) (w w' : Worker)
    (s : Seats r g o) (at : get_elem? r.workers i ≡ some w) (e : t.workers ≡ set r.workers i w')
    (keep : (x b m : ℕ) → Holds r g x b m → Holds t h x b m) where
  stored : (j : ℕ) → get_elem? t.workers j ≡ (if i == j then some w' else get_elem? r.workers j)
  stored j = rw e (get_elem?-set r.workers i j w' w at)

  -- Worker `i` has no range now.
  pub Seats-none : (w'.registered ≡ true → w'.seen ≡ max_offset) → Seats t h (update o i none)
  Seats-none free = record {
    idle = λ j u p q on. elim (ℕ_discrete i j) [
      | yes d ↦
          let same : w' ≡ u = ground (arith, stored j) in
          subst (λ x. x.registered ≡ true → x.seen ≡ max_offset) same free on
      | no d ↦ s.idle j u (ground (arith, stored j)) (ground arith) on
    ];
    busy = λ j a n p.
        let (u, q, on, d) = s.busy j a n (ground arith) in
        (u, ground (arith, stored j), on, keep u.seen a n d);
    apart = λ j k a n b m d p q. s.apart j k a n b m d (ground arith) (ground arith);
  }

  -- Worker `i` has the range of `n` bytes from `a` on now.
  pub Seats-some :
      (a n : ℕ)
      → o i ≡ none
      → w'.registered ≡ true
      → Holds t h w'.seen a n
      → ((x b m : ℕ) → Holds r g x b m → Apart a n b m)
      → Seats t h (update o i (some (a, n)))
  Seats-some a n free on own away = record {
    idle = λ j u p q yes_on. elim (ℕ_discrete i j) [
      | yes d ↦ absurd (ground arith)
      | no d ↦ s.idle j u (ground (arith, stored j)) (ground arith) yes_on
    ];
    busy = λ j b m p. elim (ℕ_discrete i j) [
      | yes d ↦
          let first : a ≡ b = ground arith in
          let second : n ≡ m = ground arith in
          (
            w',
            ground (arith, stored j),
            on,
            subst (λ x. Holds t h w'.seen x m) first
                (subst (λ x. Holds t h w'.seen a x) second own),
          )
      | no d ↦
          let (u, q, is_on, k) = s.busy j b m (ground arith) in
          (u, ground (arith, stored j), is_on, keep u.seen b m k)
    ];
    apart = λ j k b m c l d p q. elim (ℕ_discrete i j) [
      | yes f ↦
          let (u, _, _, x) = s.busy k c l (ground arith) in
          let first : a ≡ b = ground arith in
          let second : n ≡ m = ground arith in
          let off : Apart a n c l = away u.seen c l x in omega arith
      | no f ↦ elim (ℕ_discrete i k) [
        | yes f' ↦
            let (u, _, _, x) = s.busy j b m (ground arith) in
            let first : a ≡ c = ground arith in
            let second : n ≡ l = ground arith in
            let off : Apart a n b m = away u.seen b m x in omega arith
        | no f' ↦ s.apart j k b m c l d (ground arith) (ground arith)
      ]
    ];
  }

granted_below : {r : MpscRingBuffer} {g : ℕ} → Bounds r g → (g ≤ r.capacity) × (r.capacity < 2 ^ 32)
granted_below {r} {g} v = elim v.mode [
  | straight a b e ↦ (omega (arith, v.next_in), v.small)
  | wrapped lt a b e ↦ (omega arith, v.small)
]

seen_fine :
    {r : MpscRingBuffer} {g x a n : ℕ}
    → Bounds r g
    → Holds r g x a n
    → (x < 2 ^ 63) × ((x < r.consumer_barrier) ⊎ (g ≤ x))
seen_fine v (ahead h1 h2 h3 h4 h5) = (omega (arith, v.small), inr h2)
seen_fine v (behind h1 h2 h3) = (omega (arith, v.small, v.written_in), inl (omega arith))
seen_fine v (upper h1 h2 h3 h4 h5) = (omega (arith, v.small), inr h2)
seen_fine {r} {g} {x} v (turned h1 h2 h3 h4 h5) =
    (omega (arith, v.small), inr (granted_in_end v.mode (omega arith)))
  where
    granted_in_end : Mode r g → r.producer_barrier < r.consumer_barrier → g ≤ x
    granted_in_end (straight a b e) h = absurd (omega arith)
    granted_in_end (wrapped lt a b e) h = omega arith

-- What `consume` relies on follows from the invariant.
pub Inv-Fine : {s : System} → Inv s → All (Fine s.ring.consumer_barrier s.granted) s.ring.workers
Inv-Fine {s} v = All-of_get_elem? _ s.ring.workers λ i w at on. elim (Option-cases (s.owner i)) [
  | inl free ↦
      let off : w.seen ≡ max_offset = v.seats.idle i w at free on in
      (omega arith, inr (omega (arith, granted_below v.bounds)))
  | inr ((a, n), held) ↦
      let (u, at', _, h) = v.seats.busy i a n held in
      let same : u ≡ w = ground arith in
      seen_fine (v.bounds) (subst (λ x. Holds s.ring s.granted x.seen a n) same h)
]
