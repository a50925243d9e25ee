-- ===== src/Core/RingBuffer/Steps.antt =====
-- Every step of the system keeps the invariant.
use ustevent.Prelude.{
  ℕ, zero, suc, ◌+◌, ◌^◌, ◌<◌, ◌≡◌, refl, inl, inr, true, false, Option, none, some, arith, done,
  get_elem?, update, subst, Option-cases, All-get_elem?, All-of_get_elem?, All,
}
use ustevent.Core.RingBuffer.{
  MpscRingBuffer, Worker, max_offset, create, register_worker, unregister_worker, produce, consume,
  store_worker, fresh_workers,
}
use ustevent.Core.RingBuffer.Invariant.{
  Mode, straight, wrapped, Holds, ahead, behind, upper, turned,
}
use ustevent.Core.RingBuffer.Observe.{Clear}
use ustevent.Core.RingBuffer.Consume.{Handed, empty, handed, Readable}
use ustevent.Core.RingBuffer.Rounds.{
  Returned, consume-Returned, Holds-handed, Bounds-handed, released, still_granted, release_lem,
  released-Bounds, released-Holds,
}
use ustevent.Core.RingBuffer.System.{
  System, Step, register, unregister, grant, refuse, finish, read, give_back, Reach, here, next,
  start, Inv, Seats-move, Seats-none, Inv-Fine,
}
use ustevent.Core.RingBuffer.Granted.{acquire-Granted, grant-Inv, acquire-refused}

register_worker-Replaced :
    (r : MpscRingBuffer) (i : ℕ) (t : MpscRingBuffer)
    → register_worker r i ≡ done t
    → (w : Worker) × (get_elem? r.workers i ≡ some w)
      × (store_worker r i (record { seen = max_offset; registered = true }) ≡ t)
unfolding register_worker
register_worker-Replaced r i t e = elim (Option-cases (get_elem? r.workers i)) [
  | inl h ↦ absurd (ground arith)
  | inr (w, h) ↦ (w, h, ground arith)
]

unregister_worker-Replaced :
    (r : MpscRingBuffer) (i : ℕ) (t : MpscRingBuffer)
    → unregister_worker r i ≡ done t
    → (w : Worker) × (get_elem? r.workers i ≡ some w)
      × (store_worker r i (record w { registered = false }) ≡ t)
unfolding unregister_worker
unregister_worker-Replaced r i t e = elim (Option-cases (get_elem? r.workers i)) [
  | inl h ↦ absurd (ground arith)
  | inr (w, h) ↦ (w, h, ground arith)
]

produce-Replaced :
    (r : MpscRingBuffer) (i : ℕ) (t : MpscRingBuffer)
    → produce r i ≡ done t
    → (w : Worker) × (get_elem? r.workers i ≡ some w)
      × (store_worker r i (record w { seen = max_offset }) ≡ t)
unfolding produce
produce-Replaced r i t e = elim (Option-cases (get_elem? r.workers i)) [
  | inl h ↦ absurd (ground arith)
  | inr (w, h) ↦ (w, h, ground arith)
]

-- The operation replaced worker `i`, which has no range afterwards.
freed-Inv :
    (s : System) (v : Inv s) (i : ℕ) (t : MpscRingBuffer) (w w' : Worker)
    → get_elem? s.ring.workers i ≡ some w
    → (w'.registered ≡ true → w'.seen ≡ max_offset)
    → store_worker s.ring i w' ≡ t
    → Inv (record s { ring = t; owner = update s.owner i none })
freed-Inv s v i t w w' at free e =
    subst (λ x. Inv (record s { ring = x; owner = update s.owner i none })) e
      (record {
        bounds = record {
          small = v.bounds.small;
          next_in = v.bounds.next_in;
          written_in = v.bounds.written_in;
          mode = same_mode v.bounds.mode;
        };
        seats =
            Seats-none s.ring (store_worker s.ring i w') s.granted s.granted i s.owner w w' v.seats
              at refl same_holds free;
      })
  where
    same_mode : Mode s.ring s.granted → Mode (store_worker s.ring i w') s.granted
    same_mode (straight a b c) = straight a b c
    same_mode (wrapped h a b c) = wrapped h a b c

    same_holds :
        (x b m : ℕ)
        → Holds s.ring s.granted x b m
        → Holds (store_worker s.ring i w') s.granted x b m
    same_holds x b m (ahead h1 h2 h3 h4 h5) = ahead h1 h2 h3 h4 h5
    same_holds x b m (behind h1 h2 h3) = behind h1 h2 h3
    same_holds x b m (upper h1 h2 h3 h4 h5) = upper h1 h2 h3 h4 h5
    same_holds x b m (turned h1 h2 h3 h4 h5) = turned h1 h2 h3 h4 h5

-- What a result of `consume` says of the state that it leaves, when it is empty also.
pub Handed-facts :
    (r : MpscRingBuffer) (g n : ℕ) (x : Option ℕ) (t : MpscRingBuffer)
    → Handed r g (done (n, x, t))
    → (r ≡ t) × Readable r n × All (Clear r.consumer_barrier (r.consumer_barrier + n)) r.workers
Handed-facts r g n x t (empty e q) = (
  ground arith,
  inl (omega arith, ground arith),
  All-of_get_elem? _ r.workers (λ i w at on below. ground arith),
)
Handed-facts r g n x t (handed n' q h m c) =
    let same : n' ≡ n = ground arith in
    (
      ground arith,
      subst (Readable r) same m,
      subst (λ y. All (Clear r.consumer_barrier (r.consumer_barrier + y)) r.workers) same c,
    )

-- What `consume` hands out is granted to the consumer.
Handed-Inv :
    (s : System) (v : Inv s) (k : Returned s.ring s.granted (consume s.ring))
    → (n : ℕ) (x : Option ℕ) (t : MpscRingBuffer) → Handed k.state k.granted (done (n, x, t))
    → Inv (record s { ring = t; granted = t.consumer_barrier + n })
Handed-Inv s v k n x t d =
    let (same, m, c) = Handed-facts k.state k.granted n x t d in
    subst (λ y. Inv (record s { ring = y; granted = y.consumer_barrier + n })) same
      (record {
        bounds = Bounds-handed n k.bounds m;
        seats =
            Seats-move s.ring k.state s.granted _ s.owner v.seats k.same_workers
              (λ i w b l at on own.
                Holds-handed n w.seen b l k.bounds
                  (All-get_elem? _ k.state.workers i w c (rw k.same_workers at) on)
                  (k.keep i w b l at on own));
      })

pub Step-Inv : {s t : System} → Step s t → Inv s → Inv t
Step-Inv {s} (register i t idle e) v =
    let (w, at, q) = register_worker-Replaced s.ring i t e in
    freed-Inv s v i t w (record { seen = max_offset; registered = true }) at (λ _. refl) q
Step-Inv {s} (unregister i t idle e) v =
    let (w, at, q) = unregister_worker-Replaced s.ring i t e in
    freed-Inv s v i t w (record w { registered = false }) at (λ on. cc) q
Step-Inv {s} (grant i n a w t at on idle e) v =
    grant-Inv s v i n a w t at on idle (acquire-Granted s v i n a w t at on idle e)
Step-Inv {s} (refuse i n w t at on idle e) v =
    subst (λ x. Inv (record s { ring = x })) (acquire-refused s v i n 0 w t at on idle e) v
Step-Inv {s} (finish i a n t held e) v =
    let (w, at, q) = produce-Replaced s.ring i t e in
    freed-Inv s v i t w (record w { seen = max_offset }) at (λ _. refl) q
Step-Inv {s} (read n x t e) v =
    let k = consume-Returned s.ring s.granted v.bounds (Inv-Fine v) in
    Handed-Inv s v k n x t (subst (Handed k.state k.granted) e k.result)
Step-Inv {s} (give_back n t h e) v =
    subst (λ x. Inv (record s { ring = x; granted = still_granted s.ring s.granted n v.bounds h }))
      same
      (record {
        bounds = released-Bounds s.ring s.granted n v.bounds h;
        seats =
            Seats-move s.ring (released s.ring s.granted n v.bounds h) s.granted _ s.owner v.seats
              refl (λ i w b m _ _. released-Holds s.ring s.granted n v.bounds h w.seen b m);
      })
  where
    same : released s.ring s.granted n v.bounds h ≡ t
    same = ground (arith, release_lem s.ring s.granted n v.bounds h)

pub start-Inv :
    (capacity producer_num : ℕ)
    → 0 < capacity
    → capacity < 2 ^ 32
    → Inv (start capacity producer_num)
unfolding create
start-Inv capacity producer_num p q = record {
  bounds = record {
    small = q;
    next_in = p;
    written_in = p;
    mode = straight (omega arith) (omega arith) refl;
  };
  seats = record {
    idle = λ i w at _ on. absurd (fresh producer_num i w at on);
    busy = λ i a n e. absurd (ground arith);
    apart = λ i j a n b m d e _. absurd (ground arith);
  };
}
  where
    fresh :
        (k i : ℕ) (w : Worker) → get_elem? (fresh_workers k) i ≡ some w → w.registered ≡ true → ⊥
    fresh zero i w at on = cc
    fresh (suc k) zero w at on = ground arith
    fresh (suc k) (suc i) w at on = fresh k i w at on

pub Reach-Inv : {s t : System} → Reach s t → Inv s → Inv t
Reach-Inv here v = v
Reach-Inv (next r st) v = Step-Inv st (Reach-Inv r v)
