-- ===== src/Core/ContextRun/Started.antt =====
-- What holds while the threads of a context run.
use mathlib.Core.Option.{some-injective}
use ustevent.Prelude.{
  ℕ, zero, suc, ◌+◌, ◌^◌, ◌<◌, ◌≤◌, ◌≡◌, ◌⊎◌, ◌∙◌, refl, sym, ap, subst, arith, Bool, true,
  Bool-cases, inl, inr, some, List, ◌∷◌, ◌++◌, ltb, ◌==◌, length, get_elem?, set, length-set,
  get_elem?-set_self, get_elem?-set_ne, All, length-middle, All-middle,
}
use ustevent.Core.BasicBarrier.{arrive, goes_on}
use ustevent.Core.BasicBarrier.Rounds.{counting, not_last, last_one}
use ustevent.Core.ContextStrategy.{ContextStrategy, Strategies, ReadyQueue, Kinds, create}
use ustevent.Core.ContextRun.{ContextRun, arrived, arrive_at_barrier, pass_barrier, leave_run}
use ustevent.Core.ContextRun.Table.{Made, Leaves}

module _ (rq : ReadyQueue) {threads made : ℕ} where
  -- The entries of a table after a strategy has been made.
  pub create-Made :
      (kinds : Kinds) {w : Strategies rq.Queue}
      → Made threads made w
      → Leaves (λ t. Made threads (suc made) t × (made < threads)) (create rq kinds w)
  unfolding create
  create-Made kinds {w} m = elim (Bool-cases (ltb w.next_strategy_index (length w.strategies))) [
    | inr e ↦ rw e tt
    | inl e ↦ rw e (
      record {
        next = ap suc m.next;
        size = length-set w.strategies w.next_strategy_index _ ∙ m.size;
        made_at = λ k low. elim (Bool-cases (w.next_strategy_index == k)) [
          | inl same ↦ (new, at_next k (ground arith) (ground arith))
          | inr other ↦
              let (s, at) = m.made_at k (ground (arith, m.next)) in
              (s, get_elem?-set_ne w.strategies (some new) (λ q. ground arith) ∙ at)
        ];
        numbered = λ k s at. elim (Bool-cases (w.next_strategy_index == k)) [
          | inl same ↦
              let both : some (some new) ≡ some (some s) =
                sym (at_next k (ground arith) (ground arith)) ∙ at in
              ground (
                arith,
                ap (λ t. t.id) (some-injective new s (some-injective (some new) (some s) both)),
              )
          | inr other ↦
              m.numbered k s
                (sym (get_elem?-set_ne w.strategies (some new) (λ q. ground arith)) ∙ at)
        ];
      },
      ground (arith, m.next, m.size),
    )
  ]
    where
      new : ContextStrategy rq.Queue
      new = record {
        id = w.next_strategy_index;
        waiting_fibers_head = w.fresh;
        waiting_fibers_tail = w.fresh;
        ready_queue = rq.new;
      }

      at_next :
          (k : ℕ)
          → w.next_strategy_index < length w.strategies
          → w.next_strategy_index ≡ k
          → get_elem? (set w.strategies w.next_strategy_index (some new)) k ≡ some (some new)
      at_next k low same =
          subst
            (λ j. get_elem? (set w.strategies w.next_strategy_index (some new)) j ≡ some (some new))
            same (get_elem?-set_self w.strategies w.next_strategy_index (some new) low)

module _ {Q : Type 0} where
  -- The threads that have made their strategy.
  abbrev pub index : ContextRun Q → ℕ
  index r = r.made + length r.waiting + r.passed + r.returned

  -- Until as many threads as the context has are at the barrier, nobody passes it.
  pub record Before (threads : ℕ) (r : ContextRun Q) : Type 0 where
    pub count : ℕ
    pub counts : r.barrier ≡ counting threads (suc count) 0
    pub absent : suc count + length r.waiting ≡ threads
    pub none_passed : r.passed + r.returned ≡ 0

  pub record After (threads : ℕ) (r : ContextRun Q) : Type 0 where
    pub next_round : r.barrier ≡ counting threads threads 1
    pub none_made : r.made ≡ 0
    pub present : index r ≡ threads

  pub record Running (threads : ℕ) (r : ContextRun Q) : Type 0 where
    pub table : Made threads (index r) r.store
    pub fits : index r ≤ threads
    pub first : All (λ gen. gen ≡ 0) r.waiting
    pub phase : Before threads r ⊎ After threads r

  -- A change of the store alone.
  pub stored :
      {threads : ℕ} {r : ContextRun Q}
      → Running threads r
      → (w : Strategies Q) → Made threads (index r) w
      → Running threads (record r { store = w })
  stored v w m = record {
    table = m;
    fits = v.fits;
    first = v.first;
    phase = elim v.phase [
      | inl b ↦ inl (record {
        count = b.count;
        counts = b.counts;
        absent = b.absent;
        none_passed = b.none_passed;
      })
      | inr a ↦
          inr (record { next_round = a.next_round; none_made = a.none_made; present = a.present })
    ];
  }

  pub arrive-Running :
      {threads : ℕ} {r : ContextRun Q}
      → threads < 2 ^ 64
      → Running threads r
      → 0 < r.made
      → Running threads (arrive_at_barrier r)
  unfolding arrive_at_barrier
  arrive-Running {threads} {r} small v some_made = elim v.phase [
    | inr a ↦ absurd (omega (arith, a.none_made))
    | inl b ↦
        subst (λ out. Running threads (arrived r out)) (sym (ap arrive b.counts))
          (counted b.count b.counts b.absent b.none_passed)
  ]
    where
      counted :
          (k : ℕ)
          → r.barrier ≡ counting threads (suc k) 0
          → suc k + length r.waiting ≡ threads
          → r.passed + r.returned ≡ 0
          → Running threads (arrived r (arrive (counting threads (suc k) 0)))
      counted zero counts absent nobody = rw (last_one threads 0) (record {
        table = subst (λ n. Made threads n r.store) (omega arith) v.table;
        fits = omega (arith, v.fits);
        first = v.first;
        phase = inr (record {
          next_round = refl;
          none_made = omega (arith, v.fits);
          present = omega (arith, v.fits);
        });
      })
      counted (suc k) counts absent nobody = rw (not_last threads k 0 (omega arith)) (record {
        table = subst (λ n. Made threads n r.store) (omega arith) v.table;
        fits = omega (arith, v.fits);
        first = (ap (λ x. x.generation) counts, v.first);
        phase =
            inl (record { count = k; counts = refl; absent = omega arith; none_passed = nobody });
      })

  pub pass-Running :
      {threads : ℕ} {r : ContextRun Q}
      → Running threads r
      → (before after : List ℕ) (gen : ℕ) → r.waiting ≡ before ++ gen ∷ after
      → goes_on r.barrier gen ≡ true
      → Running threads (pass_barrier r before after)
  unfolding pass_barrier goes_on
  pass-Running {threads} {r} v before after gen split free =
      let (zero_gen, rest) =
        All-middle (λ g. g ≡ 0) before gen after (subst (All (λ g. g ≡ 0)) split v.first) in
      let many = ap length split ∙ length-middle before gen after in
      elim v.phase [
        | inl b ↦
            let z : r.barrier.generation ≡ 0 = ap (λ x. x.generation) b.counts in
            absurd (ground arith)
        | inr a ↦ record {
          table = subst (λ n. Made threads n r.store) (omega (arith, many)) v.table;
          fits = omega (arith, v.fits, many);
          first = rest;
          phase = inr (record {
            next_round = a.next_round;
            none_made = a.none_made;
            present = omega (arith, a.present, many);
          });
        }
      ]

  pub leave-Running :
      {threads : ℕ} {r : ContextRun Q}
      → Running threads r
      → 0 < r.passed
      → Running threads (leave_run r)
  unfolding leave_run
  leave-Running {threads} {r} v some_passed = elim v.phase [
    | inl b ↦ absurd (omega (arith, b.none_passed))
    | inr a ↦ record {
      table = subst (λ n. Made threads n r.store) (omega arith) v.table;
      fits = omega (arith, v.fits);
      first = v.first;
      phase = inr (record {
        next_round = a.next_round;
        none_made = a.none_made;
        present = omega (arith, a.present);
      });
    }
  ]

  -- A change of `is_done` and of the number of threads that have entered.
  pub other-Running :
      {threads : ℕ} {r : ContextRun Q}
      → Running threads r
      → (b : Bool) (n : ℕ) → Running threads (record r { is_done = b; entered = n })
  other-Running v b n = record {
    table = v.table;
    fits = v.fits;
    first = v.first;
    phase = elim v.phase [
      | inl b ↦ inl (record {
        count = b.count;
        counts = b.counts;
        absent = b.absent;
        none_passed = b.none_passed;
      })
      | inr a ↦
          inr (record { next_round = a.next_round; none_made = a.none_made; present = a.present })
    ];
  }
