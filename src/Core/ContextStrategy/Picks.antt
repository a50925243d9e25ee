-- ===== src/Core/ContextStrategy/Picks.antt =====
-- pick_next of ContextStrategy over the ready queues of all strategies of a context.
use ustevent.Prelude.{
  ℕ, ◌<◌, ◌≤◌, ◌+◌, ◌≡◌, ◌∙◌, refl, sym, ap, subst, arith, Bool, true, false, Bool-cases, inl, inr,
  Option, none, some, List, Outcome, done, if◌then◌else◌, update, length, get_elem?, length-set,
  All, ltb, Option-cases,
}
use ustevent.Core.FiberDebugInfo.{Unwinder}
use ustevent.Core.ContextStrategy.{
  ContextStrategy, Strategies, ReadyQueue, Kinds, with_strategy, pick_next, picked, recorded,
  steal_loop, stolen, pick, attach,
}
use ustevent.Core.ContextStrategy.Ready.{hit, QueueLaws, ready, ready-set, Full, Full-set}
use ustevent.Core.ContextStrategy.Steals.{others, Taken, steal_loop-Taken}

module _ {rq : ReadyQueue} {kinds : Kinds} (laws : QueueLaws rq kinds) where
  -- The victim is attached, if it is not pinned, and nobody else.
  abbrev pub attaches : Option ℕ → (ℕ → Bool) → ℕ → Bool
  attaches none f = f
  attaches (some c) f = if kinds.is_pinned c then f else update f c true

  -- How `pick_next` ends: the contexts that are ready after it are those before it less the victim.
  pub record Picked (w : Strategies rq.Queue) (v : Option ℕ) (t : Strategies rq.Queue)
      : Type 0 where
    pub kept : (c : ℕ) → ready laws w.strategies c ≡ ready laws t.strategies c + hit v c
    pub full : Full t.strategies
    pub attached : t.attached ≡ attaches v w.attached
    pub debug : t.debug_on ≡ w.debug_on

  stolen-end :
      (w t : Strategies rq.Queue) (v : Option ℕ) (id : ℕ) (draws : List ℕ)
      → ltb 1 (length w.strategies) ≡ true
      → steal_loop rq kinds (length w.strategies) (length w.strategies) id 0 draws w ≡ done (v, t)
      → Taken laws w v t
      → (t' : Strategies rq.Queue) × (stolen rq kinds w id draws ≡ done (v, t')) × Picked w v t'
  unfolding stolen
  stolen-end w t none id draws many run tk = (
    t,
    rw (many, stolen) (rw run refl),
    record { kept = tk.kept; full = tk.full; attached = tk.attached; debug = tk.debug },
  )
  stolen-end w t (some c) id draws many run tk =
      let free = tk.free c refl in
      (
        attach rq kinds t c,
        rw (many, stolen) (rw run (rw free refl)),
        record {
          kept = tk.kept;
          full = tk.full;
          attached = rw free (ap (λ f. update f c true) tk.attached);
          debug = tk.debug;
        },
      )

  stolen-Picked :
      (w : Strategies rq.Queue) (id : ℕ) (draws : List ℕ)
      → Full w.strategies
      → length w.strategies ≤ others id draws
      → All (λ n. n < length w.strategies) draws
      → (v : Option ℕ) × (t : Strategies rq.Queue) × (stolen rq kinds w id draws ≡ done (v, t))
        × Picked w v t
  unfolding stolen
  stolen-Picked w id draws full many b = elim (Bool-cases (ltb 1 (length w.strategies))) [
    | inl more ↦
        let (v, t, run, tk) =
          steal_loop-Taken laws (length w.strategies) id 0 (length w.strategies) draws w full refl
            (omega arith) (ground arith) many b in
        let (t', run', pk) = stolen-end w t v id draws more run tk in (v, t', run', pk)
    | inr one ↦ (
      none,
      w,
      rw (one, stolen) refl,
      record { kept = λ c. omega arith; full = full; attached = refl; debug = refl },
    )
  ]

  abbrev pub Picks : Strategies rq.Queue → Outcome (Option ℕ × Strategies rq.Queue) → Type 0
  Picks w o = (v : Option ℕ) × (t : Strategies rq.Queue) × (o ≡ done (v, t)) × Picked w v t

  recorded-off :
      (self : ℕ) (u : Unwinder) (active : ℕ) (cursor : u.Cursor) (v : Option ℕ)
      (t : Strategies rq.Queue)
      → t.debug_on ≡ false
      → recorded rq kinds u self active cursor (v, t) ≡ done (v, t)
  unfolding recorded
  recorded-off self u active cursor none t off = refl
  recorded-off self u active cursor (some c) t off = simp off refl

  module _ (w : Strategies rq.Queue) (k : ℕ) (s : ContextStrategy rq.Queue)
      (at : get_elem? w.strategies k ≡ some (some s)) (numbered : s.id ≡ k)
      (full : Full w.strategies) where
    abbrev rest : ContextStrategy rq.Queue
    rest = record s { ready_queue = (rq.pop s.ready_queue).1 }

    at_id : get_elem? w.strategies s.id ≡ some (some s)
    at_id = subst (λ n. get_elem? w.strategies n ≡ some (some s)) (sym numbered) at

    abbrev after : Strategies rq.Queue
    after = with_strategy rq kinds w rest

    ready_after :
        (c : ℕ)
        → ready laws w.strategies c ≡ ready laws after.strategies c + hit (rq.pop s.ready_queue).0 c
    ready_after c = omega (
      arith,
      ready-set laws w.strategies s.id (some s) (some rest) c at_id,
      laws.pop_law s.ready_queue c,
    )

    full_after : Full after.strategies
    full_after = Full-set w.strategies s.id s rest at_id full

    kept_after :
        (v : Option ℕ)
        → (rq.pop s.ready_queue).0 ≡ v
        → (c : ℕ) → ready laws w.strategies c ≡ ready laws after.strategies c + hit v c
    kept_after v e c = omega (arith, ready_after c, ap (λ x. hit x c) e)

    own-Picked :
        (c : ℕ) (draws : List ℕ)
        → (rq.pop s.ready_queue).0 ≡ some c
        → Picks w (pick rq kinds w s draws)
    unfolding pick
    own-Picked c draws e = (
      some c,
      (if kinds.is_pinned c then after else attach rq kinds after c),
      ap (picked rq kinds after s.id draws) e,
      elim (Bool-cases (kinds.is_pinned c)) [
        | inl p ↦ rw p (record {
          kept = kept_after (some c) e;
          full = full_after;
          attached = rw p refl;
          debug = refl;
        })
        | inr p ↦ rw p (record {
          kept = kept_after (some c) e;
          full = full_after;
          attached = rw p refl;
          debug = refl;
        })
      ],
    )

    pick-Picked :
        (draws : List ℕ)
        → length w.strategies ≤ others k draws
        → All (λ n. n < length w.strategies) draws
        → Picks w (pick rq kinds w s draws)
    unfolding pick
    pick-Picked draws many b = elim (Option-cases ((rq.pop s.ready_queue).0)) [
      | inr (c, e) ↦ own-Picked c draws e
      | inl e ↦
          let size = length-set w.strategies s.id (some rest) in
          let (v, t, run, pk) =
            stolen-Picked after s.id draws full_after
              (omega (arith, size, ap (λ n. others n draws) numbered))
              (subst (λ (l : ℕ). All (λ n. n < l) draws) (sym size) b) in
          (
            v,
            t,
            ap (picked rq kinds after s.id draws) e ∙ run,
            record {
              kept = λ c. omega (arith, kept_after none e c, pk.kept c);
              full = pk.full;
              attached = pk.attached;
              debug = pk.debug;
            },
          )
    ]

    -- Without the debug flag, pick_next of a strategy ends without a fault when every strategy of
    -- the context is made and as many numbers of other strategies are drawn as there are strategies.
    -- Of the contexts that were ready at all strategies together, its result, if there is one, is
    -- ready once less, and all others are ready as often as before; the result is attached unless it
    -- is pinned, and nothing else is attached or detached.
    pub pick_next-Picked :
        (u : Unwinder) (active : ℕ) (cursor : u.Cursor) (draws : List ℕ)
        → w.debug_on ≡ false
        → length w.strategies ≤ others k draws
        → All (λ n. n < length w.strategies) draws
        → Picks w (pick_next rq kinds u w s active draws cursor)
    unfolding pick_next
    pick_next-Picked u active cursor draws off many b =
        let (v, t, run, pk) = pick-Picked draws many b in
        (v, t, rw run (recorded-off s.id u active cursor v t (pk.debug ∙ off)), pk)
