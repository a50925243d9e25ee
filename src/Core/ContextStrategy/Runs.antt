-- ===== src/Core/ContextStrategy/Runs.antt =====
-- Runs of ContextStrategy: strategies are made, workers begin to wait in pick_next and are woken.
use mathlib.Core.Option.{some-injective}
use ustevent.Prelude.{
  ℕ, ◌<◌, ◌≡◌, ◌∙◌, refl, sym, ap, subst, true, false, Bool-cases, ltb, length, ◌≢◌, ◌⊎◌, inl, inr,
  some, List, [], ◌∷◌, ◌++◌, Outcome, done, spin, fault, update,
}
use ustevent.Core.FiberDebugInfo.{Unwinder}
use ustevent.Core.ListNodeAllocator.Chains.{has}
use ustevent.Core.ContextStrategy.{
  ContextStrategy, Strategies, ReadyQueue, Kinds, record_backtrace, awakened, create,
}
use ustevent.Core.ContextStrategy.Chains.{remove}
use ustevent.Core.ContextStrategy.Waiting.{At, Outside}
use ustevent.Core.ContextStrategy.Backtraces.{Waiting, awakened-Waiting, record_backtrace-Waiting}
use ustevent.Core.ContextStrategy.Births.{create-Waiting, start, start-Waiting}

abbrev pub value_or : {A : Type 0} → A → Outcome A → A
value_or a (done b) = b
value_or a spin = a
value_or a fault = a

pub done-injective : {A : Type 0} (a b : A) → done a ≡ done b → a ≡ b
done-injective a b e = ap (value_or a) e

fault-ne-done : {A : Type 0} (a : A) → fault ≢ done a
fault-ne-done a e = cc

-- The states of a context with the flag DEBUG_ON, each with the debug infos of the workers that
-- wait at each strategy, in the order in which they began to. A worker begins to wait where it is
-- active, when it does not wait and has not ended; it is woken at the strategy where it waits, and
-- a new one at any.
pub data Reach (rq : ReadyQueue) (kinds : Kinds) (u : Unwinder) (count : ℕ)
    : Strategies rq.Queue → (ℕ → List ℕ) → Type 0 where
  begin : Reach rq kinds u count (start count true) (λ _. [])
  makes :
      {w t : Strategies rq.Queue} {ws : ℕ → List ℕ}
      → Reach rq kinds u count w ws
      → create rq kinds w ≡ done t
      → Reach rq kinds u count t (update ws w.next_strategy_index [])
  waits :
      {w t : Strategies rq.Queue} {ws : ℕ → List ℕ}
      → Reach rq kinds u count w ws
      → (k : ℕ) (s : ContextStrategy rq.Queue) (active d : ℕ) (cursor : u.Cursor)
      → At w.strategies k s
      → ((e : ℕ)
          → w.properties active ≡ some e
          → Outside w.strategies ws e × ((w.infos e).terminated ≡ false))
      → record_backtrace rq kinds u w s active cursor ≡ done t
      → t.properties active ≡ some d
      → Reach rq kinds u count t (update ws k (ws k ++ d ∷ []))
  wakes :
      {w t : Strategies rq.Queue} {ws : ℕ → List ℕ}
      → Reach rq kinds u count w ws
      → (k : ℕ) (s : ContextStrategy rq.Queue) (c d : ℕ) → At w.strategies k s
      → w.debug_on ≡ true
      → kinds.is_pinned c ≡ false
      → (has d (ws k) ≡ true) ⊎ (Outside w.strategies ws d × (d < w.fresh))
      → awakened rq kinds w s c d ≡ done t
      → Reach rq kinds u count t (update ws k (remove d (ws k)))

create-full :
    (rq : ReadyQueue) (kinds : Kinds) (w : Strategies rq.Queue)
    → ltb w.next_strategy_index (length w.strategies) ≡ false
    → create rq kinds w ≡ fault
unfolding create
create-full rq kinds w full = rw full refl

module _ {rq : ReadyQueue} {kinds : Kinds} {u : Unwinder} {count : ℕ} where
  pub Reach-Waiting :
      {w : Strategies rq.Queue} {ws : ℕ → List ℕ} → Reach rq kinds u count w ws → Waiting w ws
  Reach-Waiting begin = start-Waiting count true
  Reach-Waiting (makes {w} {t} {ws} r run) =
      elim (Bool-cases (ltb w.next_strategy_index (length w.strategies))) [
        | inl room ↦
            let (t', run', wt) = create-Waiting rq kinds (Reach-Waiting r) room in
            subst (λ x. Waiting x (update ws w.next_strategy_index []))
              (done-injective t' t (sym run' ∙ run)) wt
        | inr full ↦ absurd (fault-ne-done t (sym (create-full rq kinds w full) ∙ run))
      ]
  Reach-Waiting (waits {t} {ws} r k s active d cursor at rested run has_d) =
      let (t', d', run', has_d', wt) =
        record_backtrace-Waiting rq kinds (Reach-Waiting r) u cursor k s active at rested in
      let same : t' ≡ t = done-injective t' t (sym run' ∙ run) in
      let same_d : d' ≡ d =
        some-injective d' d (sym has_d' ∙ ap (λ x. x.properties active) same ∙ has_d) in
      subst (λ x. Waiting t (update ws k (ws k ++ x ∷ []))) same_d
        (subst (λ x. Waiting x (update ws k (ws k ++ d' ∷ []))) same wt)
  Reach-Waiting (wakes {t} {ws} r k s c d at on free mine run) =
      let (t', run', wt, _, _) =
        awakened-Waiting rq kinds (Reach-Waiting r) k s at c d on free mine in
      subst (λ x. Waiting x (update ws k (remove d (ws k)))) (done-injective t' t (sym run' ∙ run))
        wt
