-- ===== src/Core/ContextRun/Table.antt =====
-- The table of the strategies of a context under the calls of its strategies.
use mathlib.Core.Option.{some-injective}
use ustevent.Prelude.{
  ℕ, ◌<◌, ◌≡◌, ◌∙◌, refl, sym, ap, subst, arith, Bool, true, false, Bool-cases, inl, inr, some,
  Outcome, done, spin, fault, ◌>>=◌, ◌==◌, if◌then◌else◌, length, get_elem?, set, length-set,
  get_elem?-set, update,
}
use ustevent.Core.ContextStrategy.{
  ContextStrategy, Strategies, ReadyQueue, Kinds, awakened, erased, erase_backtrace, with_strategy,
  Infos,
}

-- A table for `threads` strategies, of which the first `made` ones are made; each has its number.
pub record Made {Q : Type 0} (threads made : ℕ) (w : Strategies Q) : Type 0 where
  pub next : w.next_strategy_index ≡ made
  pub size : length w.strategies ≡ threads
  pub made_at :
      (k : ℕ) → k < made → (s : ContextStrategy Q) × (get_elem? w.strategies k ≡ some (some s))
  pub numbered :
      (k : ℕ) (s : ContextStrategy Q) → get_elem? w.strategies k ≡ some (some s) → s.id ≡ k

-- What a call leaves, if it returns.
abbrev pub Leaves : {Q : Type 0} → (Strategies Q → Type 0) → Outcome (Strategies Q) → Type 0
Leaves P spin = Unit
Leaves P fault = Unit
Leaves P (done w) = P w

abbrev pub LeavesWith :
    {A Q : Type 0} → (Strategies Q → Type 0) → Outcome (A × Strategies Q) → Type 0
LeavesWith P spin = Unit
LeavesWith P fault = Unit
LeavesWith P (done (a, w)) = P w

-- A strategy writes itself.
pub Made-set :
    {Q : Type 0} {threads made : ℕ} {w : Strategies Q}
    → Made threads made w
    → (k : ℕ) (s s' : ContextStrategy Q) → get_elem? w.strategies k ≡ some (some s)
    → s'.id ≡ k
    → Made threads made (record w { strategies = set w.strategies k (some s') })
Made-set {w = w} m k s s' at id = record {
  next = m.next;
  size = length-set w.strategies k (some s') ∙ m.size;
  made_at = λ j low. elim (Bool-cases (k == j)) [
    | inl e ↦ (s', lookup j ∙ rw e refl)
    | inr e ↦ let (r, old) = m.made_at j low in (r, lookup j ∙ rw e old)
  ];
  numbered = λ j r new. elim (Bool-cases (k == j)) [
    | inl e ↦
        let same : s' ≡ r =
          some-injective s' r (some-injective (some s') (some r) (ground (arith, lookup j))) in
        ground (arith, ap (λ t. t.id) same)
    | inr e ↦ m.numbered j r (ground (arith, lookup j))
  ];
}
  where
    lookup :
        (j : ℕ)
        → get_elem? (set w.strategies k (some s')) j
          ≡ (if k == j then some (some s') else get_elem? w.strategies j)
    lookup j = get_elem?-set w.strategies k j (some s') (some s) at

module _ (rq : ReadyQueue) (kinds : Kinds) {threads made : ℕ} where
  pub with_strategy-Made :
      {w : Strategies rq.Queue}
      → Made threads made w
      → (k : ℕ) (s s' : ContextStrategy rq.Queue) → get_elem? w.strategies k ≡ some (some s)
      → s'.id ≡ s.id
      → Made threads made (with_strategy rq kinds w s')
  with_strategy-Made {w} m k s s' at same =
      let id : s'.id ≡ k = same ∙ m.numbered k s at in
      subst (λ n. Made threads made (record w { strategies = set w.strategies n (some s') }))
        (sym id) (Made-set m k s s' at id)

  -- `awakened` of a context that is not pinned.
  erased-Made :
      {w : Strategies rq.Queue}
      → Made threads made w
      → (k c : ℕ) (s : ContextStrategy rq.Queue) (d : ℕ) → get_elem? w.strategies k ≡ some (some s)
      → Leaves (Made threads made) (
          erased rq kinds w s d >>= λ (w', s').
          done (with_strategy rq kinds w' (record s' { ready_queue = rq.push c s'.ready_queue })))
  unfolding erased
  erased-Made {w} m k c s d at = branch w.debug_on
    where
      pushed : Strategies rq.Queue × ContextStrategy rq.Queue → Outcome (Strategies rq.Queue)
      pushed (w', s') =
          done (with_strategy rq kinds w' (record s' { ready_queue = rq.push c s'.ready_queue }))

      unlinked :
          (o : Outcome (Infos × ℕ))
          → Leaves (Made threads made) (
              (o >>= λ (infos, tail).
              done (record w { infos = infos }, record s { waiting_fibers_tail = tail }))
              >>= pushed)
      unlinked spin = tt
      unlinked fault = tt
      unlinked (done (infos, tail)) =
          with_strategy-Made {w = record w { infos = infos }}
            (record { next = m.next; size = m.size; made_at = m.made_at; numbered = m.numbered }) k
            s (record s { waiting_fibers_tail = tail; ready_queue = rq.push c s.ready_queue }) at
            refl

      branch :
          (b : Bool)
          → Leaves (Made threads made) (
              (if b
                then (erase_backtrace w.infos s.waiting_fibers_tail d >>= λ (infos, tail).
                    done (record w { infos = infos }, record s { waiting_fibers_tail = tail }))
                else done (w, s))
              >>= pushed)
      branch true = unlinked (erase_backtrace w.infos s.waiting_fibers_tail d)
      branch false =
          with_strategy-Made m k s (record s { ready_queue = rq.push c s.ready_queue }) at refl

  pub awakened-Made :
      {w : Strategies rq.Queue}
      → Made threads made w
      → (k c d : ℕ) (s : ContextStrategy rq.Queue) → get_elem? w.strategies k ≡ some (some s)
      → Leaves (Made threads made) (awakened rq kinds w s c d)
  unfolding awakened
  awakened-Made {w} m k c d s at = elim (Bool-cases (kinds.is_pinned c)) [
    | inl p ↦
        simp p
          (with_strategy-Made m k s (record s { ready_queue = rq.push c s.ready_queue }) at refl)
    | inr p ↦ simp p (
        erased-Made {w = record w { attached = update w.attached c false }}
          (record { next = m.next; size = m.size; made_at = m.made_at; numbered = m.numbered }) k c
          s d at)
  ]
