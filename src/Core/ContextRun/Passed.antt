-- ===== src/Core/ContextRun/Passed.antt =====
-- The threads that have passed the barrier of a context, and those that wait there.
use ustevent.Prelude.{
  ℕ, zero, suc, ◌+◌, ◌-◌, ◌^◌, ◌<◌, ◌≤◌, ◌≡◌, refl, sym, ap, subst, arith, Bool, true, false, inl,
  inr, none, some, List, ◌∷◌, Outcome, done, spin, fault, ◌>>=◌, ◌==◌, length, get_elem?, All,
  length-replicate, get_elem?-replicate, All-middle, ◌⊎◌, ◌++◌,
}
use ustevent.Core.FiberDebugInfo.{Unwinder}
use ustevent.Core.BasicBarrier.{barrier, goes_on}
use ustevent.Core.ContextStrategy.{
  ContextStrategy, Strategies, ReadyQueue, Kinds, create, pick_next,
}
use ustevent.Core.ContextStrategy.Ready.{QueueLaws, Full}
use ustevent.Core.ContextStrategy.Steals.{others}
use ustevent.Core.ContextStrategy.Picks.{Picks, pick_next-Picked}
use ustevent.Core.ContextRun.{
  ContextRun, begin_context, enter_run, terminate_run, make_strategy, Step, enters, makes, arrives,
  passes, awakens, picks, terminates, ends_run, Reach, begins, then_step,
}
use ustevent.Core.ContextRun.Table.{Made, awakened-Made, Leaves, LeavesWith}
use ustevent.Core.ContextRun.Steals.{pick_next-Made}
use ustevent.Core.ContextRun.Started.{
  index, After, Running, create-Made, stored, arrive-Running, pass-Running, leave-Running,
  other-Running,
}

abbrev Starts : {Q : Type 0} → (ContextRun Q → Type 0) → Outcome (ContextRun Q) → Type 0
Starts P spin = Unit
Starts P fault = Unit
Starts P (done r) = P r

begin-Running :
    (Q : Type 0) (threads : ℕ) (debug_on : Bool)
    → Starts {Q = Q} (Running threads) (begin_context threads debug_on)
unfolding begin_context barrier
begin-Running Q zero debug_on = tt
begin-Running Q (suc n) debug_on =
    let z : (suc n == 0) ≡ false = ground arith in
    rw z (record {
      table = record {
        next = omega arith;
        size = length-replicate (suc n) none;
        made_at = λ k low. absurd (omega arith);
        numbered = λ k s at. let z = get_elem?-replicate (suc n) k none (some s) at in cc;
      };
      fits = omega arith;
      first = tt;
      phase =
          inl
            (record { count = n; counts = refl; absent = omega arith; none_passed = omega arith });
    })

module _ (rq : ReadyQueue) (kinds : Kinds) (u : Unwinder) (threads : ℕ)
    (small : threads < 2 ^ 64) where
  make-Running :
      {r : ContextRun rq.Queue}
      → Running threads r
      → 0 < r.entered
      → Starts (Running threads) (make_strategy rq kinds r)
  unfolding make_strategy
  make-Running {r} v some_entered = made (create rq kinds r.store) (create-Made rq kinds v.table)
    where
      made :
          (o : Outcome (Strategies rq.Queue))
          → Leaves (λ t. Made threads (suc (index r)) t × (index r < threads)) o
          → Starts
              (Running threads)
              (o >>= λ w. done (record r { store = w; entered = r.entered - 1; made = suc r.made }))
      made spin h = tt
      made fault h = tt
      made (done w) (m, low) = record {
        table = subst (λ n. Made threads n w) (omega arith) m;
        fits = omega (arith, low);
        first = v.first;
        phase = elim v.phase [
          | inl b ↦ inl (record {
            count = b.count;
            counts = b.counts;
            absent = b.absent;
            none_passed = b.none_passed;
          })
          | inr a ↦ absurd (omega (arith, a.present))
        ];
      }

  Step-Running :
      {r t : ContextRun rq.Queue} → Step rq kinds u r t → Running threads r → Running threads t
  unfolding enter_run terminate_run
  Step-Running {r} enters v = other-Running v r.is_done (suc r.entered)
  Step-Running (makes some_entered e) v =
      subst (Starts (Running threads)) e (make-Running v some_entered)
  Step-Running (arrives some_made) v = arrive-Running small v some_made
  Step-Running (passes before after gen split free) v = pass-Running v before after gen split free
  Step-Running (awakens {w} k c d s at e) v =
      stored v w (subst (Leaves (Made threads _)) e (awakened-Made rq kinds v.table k c d s at))
  Step-Running (picks {w} k active s draws cursor at some_passed e) v = stored v w (
      subst (LeavesWith (Made threads _)) e
        (pick_next-Made rq kinds u v.table k s active draws cursor at))
  Step-Running {r} terminates v = other-Running v true r.entered
  Step-Running (ends_run some_passed over) v = leave-Running v some_passed

  Reach-Running :
      {debug_on : Bool} {r : ContextRun rq.Queue}
      → Reach rq kinds u threads debug_on r
      → Running threads r
  Reach-Running {debug_on} (begins e) =
      subst (Starts (Running threads)) e (begin-Running rq.Queue threads debug_on)
  Reach-Running (then_step reach st) = Step-Running st (Reach-Running reach)

  -- The number of a thread that passed, and the table that it finds.
  passed-After :
      {r : ContextRun rq.Queue} → Running threads r → 0 < r.passed + r.returned → After threads r
  passed-After v some_passed = elim v.phase [
    | inl b ↦ absurd (omega (arith, b.none_passed))
    | inr a ↦ a
  ]

  -- However the threads of a context of fewer than 2^64 threads run, its strategies are called
  -- and it is terminated: when a thread has passed the barrier, every strategy of the context is
  -- made and has its number, and, without the debug flag, its pick_next ends without a fault,
  -- when as many numbers of other strategies are drawn as there are strategies; its result is
  -- ready once less, and no other context is lost.
  pub Reach-Picks :
      {debug_on : Bool} {r : ContextRun rq.Queue} (laws : QueueLaws rq kinds) (k active : ℕ)
      (cursor : u.Cursor) (draws : List ℕ)
      → Reach rq kinds u threads debug_on r
      → 0 < r.passed + r.returned
      → k < threads
      → r.store.debug_on ≡ false
      → threads ≤ others k draws
      → All (λ n. n < threads) draws
      → (s : ContextStrategy rq.Queue) × (get_elem? r.store.strategies k ≡ some (some s))
        × (s.id ≡ k)
        × Picks laws r.store (pick_next rq kinds u r.store s active draws cursor)
  Reach-Picks {r} laws k active cursor draws reach some_passed low off many bounded =
      let v = Reach-Running reach in
      let a = passed-After v some_passed in
      let m = subst (λ n. Made threads n r.store) a.present v.table in
      let (s, at) = m.made_at k low in
      let full : Full r.store.strategies = λ j h. m.made_at j (omega (arith, m.size)) in
      (
        s,
        at,
        m.numbered k s at,
        pick_next-Picked laws r.store k s at (m.numbered k s at) full u active cursor draws off
            (omega (arith, m.size))
            (subst (λ (l : ℕ). All (λ n. n < l) draws) (sym m.size) bounded),
      )

  -- A thread that waits at the barrier of a context of fewer than 2^64 threads goes on when all
  -- its threads have made their strategies and arrived; otherwise some are not there yet, none
  -- has passed, and it does not go on.
  pub Reach-passes :
      {debug_on : Bool} {r : ContextRun rq.Queue} (before after : List ℕ) (gen : ℕ)
      → Reach rq kinds u threads debug_on r
      → r.waiting ≡ before ++ gen ∷ after
      → ((index r ≡ threads) × (r.made ≡ 0) × (goes_on r.barrier gen ≡ true))
        ⊎ ((length r.waiting < threads) × (r.passed ≡ 0) × (goes_on r.barrier gen ≡ false))
  unfolding goes_on
  Reach-passes {r} before after gen reach split =
      let v = Reach-Running reach in
      let (zero_gen, rest) =
        All-middle (λ g. g ≡ 0) before gen after (subst (All (λ g. g ≡ 0)) split v.first) in
      elim v.phase [
        | inl b ↦
            let z : r.barrier.generation ≡ 0 = ap (λ x. x.generation) b.counts in
            inr (omega (arith, b.absent), omega (arith, b.none_passed), ground arith)
        | inr a ↦
            let z : r.barrier.generation ≡ 1 = ap (λ x. x.generation) a.next_round in
            inl (a.present, a.none_made, ground arith)
      ]
