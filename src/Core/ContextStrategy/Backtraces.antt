-- ===== src/Core/ContextStrategy/Backtraces.antt =====
-- The constructor, awakened and _recordBacktrace of ContextStrategy, and the lists of waiting fibers.
use ustevent.Prelude.{
  ℕ, suc, ◌<◌, ◌≤◌, ◌≡◌, ◌∙◌, refl, sym, ap, subst, arith, true, false, Bool-cases, inl, inr, none,
  some, List, [], ◌∷◌, ◌++◌, done, ◌==◌, update, set, get_elem?-set, Option-cases,
}
use ustevent.Core.FiberDebugInfo
use ustevent.Core.FiberDebugInfo.{FiberDebugInfo, backtrace_size, Unwinder}
use ustevent.Core.FiberDebugInfo.Frames.{update_frame-Ends}
use ustevent.Core.ListNodeAllocator.Chains.{has-Below}
use ustevent.Core.ContextStrategy.{
  ContextStrategy, Strategies, ReadyQueue, Kinds, append_waiting, record_info, record_backtrace,
  record_properties, erased, awakened,
}
use ustevent.Core.ContextStrategy.Chains.{remove}
use ustevent.Core.ContextStrategy.Waiting.{At, Outside, Tracked, Tracked-change}
use ustevent.Core.ContextStrategy.Links.{same_links-Tracked}
use ustevent.Core.ContextStrategy.Lists.{Mine, append-Change, erase_backtrace-Tracked}

-- The strategies keep the lists `ws`, the debug infos in use are below `fresh`, and the entries of
-- the table from the next number on are null.
pub record Waiting {Q : Type 0} (w : Strategies Q) (ws : ℕ → List ℕ) : Type 0 where
  pub tracked : Tracked w.infos w.strategies w.fresh ws
  pub known : (c d : ℕ) → w.properties c ≡ some d → d < w.fresh
  pub unborn : (k : ℕ) (s : ContextStrategy Q) → At w.strategies k s → k < w.next_strategy_index

module _ (rq : ReadyQueue) (kinds : Kinds) {w : Strategies rq.Queue} {ws : ℕ → List ℕ}
    (wt : Waiting w ws) (k : ℕ) (s : ContextStrategy rq.Queue) (at : At w.strategies k s) where
  born :
      (s' : ContextStrategy rq.Queue) (j : ℕ) (r : ContextStrategy rq.Queue)
      → At (set w.strategies k (some s')) j r
      → j < w.next_strategy_index
  born s' j r e = elim (Bool-cases (k == j)) [
    | inl h ↦ ground (arith, wt.unborn k s at)
    | inr h ↦ wt.unborn j r (ground (arith, get_elem?-set w.strategies k j (some s') (some s) at))
  ]

  entry : (s' : ContextStrategy rq.Queue) → At (set w.strategies k (some s')) k s'
  entry s' =
      let self : (k == k) ≡ true = ground arith in
      get_elem?-set w.strategies k k (some s') (some s) at ∙ rw self refl

  -- With the debug flag on, a fiber that is woken at its strategy leaves the list of the strategy,
  -- is detached and goes to the ready queue; the other lists stay.
  pub awakened-Waiting :
      (c d : ℕ)
      → w.debug_on ≡ true
      → kinds.is_pinned c ≡ false
      → Mine wt.tracked k s at d
      → (t : Strategies rq.Queue) × (awakened rq kinds w s c d ≡ done t)
        × Waiting t (update ws k (remove d (ws k)))
        × (t.attached c ≡ false)
        × ((s' : ContextStrategy rq.Queue) × At t.strategies k s'
            × (s'.ready_queue ≡ rq.push c s.ready_queue))
  unfolding awakened erased
  awakened-Waiting c d on free mine =
      let (m', tail, run, tr) =
        erase_backtrace-Tracked wt.tracked k s at d (rq.push c s.ready_queue) mine in
      let s' = record s { waiting_fibers_tail = tail; ready_queue = rq.push c s.ready_queue } in
      let after : ℕ → Strategies rq.Queue = λ n. record w {
        infos = m';
        strategies = set w.strategies n (some s');
        attached = update w.attached c false;
      } in
      (
        after k,
        simp (free, on)
            (simp run
              (ap (λ n. done (record (after n) { debug_on = true })) (wt.tracked.numbered k s at))),
        record { tracked = tr; known = wt.known; unborn = born s' },
        ground arith,
        (s', entry s', refl),
      )

  -- `record_info` of a fiber that does not wait puts it at the end of the list.
  record_info-Waiting :
      (u : Unwinder) (cursor : u.Cursor) (d : ℕ)
      → Outside w.strategies ws d
      → d < w.fresh
      → ((w.infos d).terminated) ≡ false
      → (t : Strategies rq.Queue) × (record_info rq kinds u w s d cursor ≡ done t)
        × Waiting t (update ws k (ws k ++ d ∷ []))
        × (t.properties ≡ w.properties)
  unfolding record_info append_waiting
  record_info-Waiting u cursor d out low live =
      let (info, run, _, _, long, _, p, n, _, _) =
        update_frame-Ends u cursor (w.infos d) (wt.tracked.sized d) in
      let m1 = update w.infos d info in
      let tr1 : Tracked m1 w.strategies w.fresh ws =
        same_links-Tracked wt.tracked m1 w.fresh
          (λ a. elim (Bool-cases (d == a)) [
            | inl e ↦
                let d_a : d ≡ a = ground arith in
                rw e (
                  subst (λ x. (info.prev ≡ (w.infos x).prev) × (info.next ≡ (w.infos x).next)) d_a
                    (p, n))
            | inr e ↦ rw e (refl, refl)
          ])
          (λ a. elim (Bool-cases (d == a)) [
            | inl e ↦ rw e long
            | inr e ↦ rw e (wt.tracked.sized a)
          ])
          (omega arith) in
      let s' = record s { waiting_fibers_tail = d } in
      let m2 = (append_waiting m1 s.waiting_fibers_tail d).0 in
      let after : ℕ → Strategies rq.Queue =
        λ n. record w { infos = m2; strategies = set w.strategies n (some s') } in
      (
        after k,
        simp (live, run) (ap (λ n. done (after n)) (wt.tracked.numbered k s at)),
        record {
          tracked =
              Tracked-change tr1 at (append-Change tr1 k s at d out) low (λ j r e ne. out j r e);
          known = wt.known;
          unborn = born s';
        },
        refl,
      )

module _ (rq : ReadyQueue) (kinds : Kinds) {w : Strategies rq.Queue} {ws : ℕ → List ℕ}
    (wt : Waiting w ws) where
  -- A debug info from `fresh` on is in no list.
  pub fresh-Outside : (d : ℕ) → w.fresh ≤ d → Outside w.strategies ws d
  fresh-Outside d low k s at =
      has-Below w.fresh d (s.waiting_fibers_head ∷ ws k) (wt.tracked.used k s at) low

  -- The next address is taken: its info is new.
  pub taken-Tracked :
      Tracked (update w.infos w.fresh FiberDebugInfo.create) w.strategies (suc w.fresh) ws
  taken-Tracked =
      let (p, n) = wt.tracked.idle w.fresh (fresh-Outside w.fresh (omega arith)) in
      same_links-Tracked wt.tracked (update w.infos w.fresh FiberDebugInfo.create) (suc w.fresh)
        (λ a. elim (Bool-cases (w.fresh == a)) [
          | inl e ↦
              let f_a : w.fresh ≡ a = ground arith in
              rw e (
                sym (subst (λ x. (w.infos x).prev ≡ none) f_a p),
                sym (subst (λ x. (w.infos x).next ≡ none) f_a n),
              )
          | inr e ↦ rw e (refl, refl)
        ])
        (λ a. elim (Bool-cases (w.fresh == a)) [
          | inl e ↦ rw e refl
          | inr e ↦ rw e (wt.tracked.sized a)
        ])
        (omega arith)

  -- _recordBacktrace for a worker that does not wait and has not ended puts its debug info, which
  -- is made if it has none, at the end of the list of the strategy; the other lists stay.
  pub record_backtrace-Waiting :
      (u : Unwinder) (cursor : u.Cursor) (k : ℕ) (s : ContextStrategy rq.Queue) (active : ℕ)
      → At w.strategies k s
      → ((d : ℕ)
          → w.properties active ≡ some d
          → Outside w.strategies ws d × ((w.infos d).terminated ≡ false))
      → (t : Strategies rq.Queue) × (d : ℕ) × (record_backtrace rq kinds u w s active cursor
          ≡ done t)
        × (t.properties active ≡ some d)
        × Waiting t (update ws k (ws k ++ d ∷ []))
  unfolding record_backtrace
  record_backtrace-Waiting u cursor k s active at rested =
      elim (Option-cases (w.properties active)) [
        | inl e ↦
            let here : (w.fresh == w.fresh) ≡ true = ground arith in
            let self : (active == active) ≡ true = ground arith in
            let w' = record w {
              infos = update w.infos w.fresh FiberDebugInfo.create;
              properties = update w.properties active (some w.fresh);
              fresh = suc w.fresh;
            } in
            let wt' : Waiting w' ws = record {
              tracked = taken-Tracked;
              known = λ c d h. elim (Bool-cases (active == c)) [
                | inl y ↦ ground arith
                | inr y ↦ ground (arith, wt.known c d)
              ];
              unborn = wt.unborn;
            } in
            let (t, run, wt'', same) =
              record_info-Waiting rq kinds wt' k s at u cursor w.fresh
                (fresh-Outside w.fresh (omega arith)) (omega arith) (rw here refl) in
            (
              t,
              w.fresh,
              ap (record_properties rq kinds u w s active cursor) e ∙ run,
              ap (λ f. f active) same ∙ rw self refl,
              wt'',
            )
        | inr (d, e) ↦
            let (out, live) = rested d e in
            let (t, run, wt', same) =
              record_info-Waiting rq kinds wt k s at u cursor d out (wt.known active d e) live in
            (
              t,
              d,
              ap (record_properties rq kinds u w s active cursor) e ∙ run,
              ap (λ f. f active) same ∙ e,
              wt',
            )
      ]
