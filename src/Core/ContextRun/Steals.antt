-- ===== src/Core/ContextRun/Steals.antt =====
-- The table of the strategies of a context under `pick_next`, with and without the debug flag.
use ustevent.Prelude.{
  ℕ, zero, suc, ◌≡◌, ◌∙◌, refl, sym, ap, Bool, true, false, ◌&&◌, Bool-cases, inl, inr, Option,
  none, some, Option-cases, List, Outcome, done, spin, fault, ◌>>=◌, ltb, if◌then◌else◌, length,
  get_elem?, update,
}
use ustevent.Core.FiberDebugInfo
use ustevent.Core.FiberDebugInfo.{FiberDebugInfo, Unwinder}
use ustevent.Core.ContextStrategy.{
  ContextStrategy, Strategies, ReadyQueue, Kinds, steal_from, steal_at, steal_loop, draw, stolen,
  picked, pick, pick_next, recorded, record_at, record_backtrace, record_properties, record_info,
  with_strategy, attach, append_waiting,
}
use ustevent.Core.ContextRun.Table.{Made, Made-set, with_strategy-Made, Leaves, LeavesWith}

-- A call by the outcome of an earlier one.
LeavesWith-bind :
    {A B Q : Type 0} (P : Strategies Q → Type 0) (o : Outcome (A × Strategies Q))
    (f : A × Strategies Q → Outcome (B × Strategies Q))
    → LeavesWith P o
    → ((a : A) (w : Strategies Q) → P w → LeavesWith P (f (a, w)))
    → LeavesWith P (o >>= f)
LeavesWith-bind P spin f h k = tt
LeavesWith-bind P fault f h k = tt
LeavesWith-bind P (done (a, w)) f h k = k a w h

module _ (rq : ReadyQueue) (kinds : Kinds) where
  -- What is done with a victim.
  abbrev attached : Option ℕ × Strategies rq.Queue → Outcome (Option ℕ × Strategies rq.Queue)
  attached (victim, t) = elim victim [
    | none ↦ done (none, t)
    | some c ↦ if kinds.is_pinned c then fault else done (some c, attach rq kinds t c)
  ]

  -- How the loop goes on after a steal, by what it does if it goes on.
  abbrev next :
      Bool
      → Outcome (Option ℕ × Strategies rq.Queue)
      → Option ℕ
      → Strategies rq.Queue
      → Outcome (Option ℕ × Strategies rq.Queue)
  next more again victim t = elim victim [
    | some c ↦ done (some c, t)
    | none ↦ if more then again else done (none, t)
  ]

module _ (rq : ReadyQueue) (kinds : Kinds) {threads made : ℕ} where
  -- What the store holds beside the table does not matter.
  like :
      {w t : Strategies rq.Queue}
      → Made threads made w
      → t.next_strategy_index ≡ w.next_strategy_index
      → t.strategies ≡ w.strategies
      → Made threads made t
  like {w} m next table = record {
    next = next ∙ m.next;
    size = ap length table ∙ m.size;
    made_at = λ k low. let (s, at) = m.made_at k low in (s, ap (λ x. get_elem? x k) table ∙ at);
    numbered = λ k s at. m.numbered k s (ap (λ x. get_elem? x k) (sym table) ∙ at);
  }

  steal_at-Made :
      {w : Strategies rq.Queue}
      → Made threads made w
      → (n : ℕ) (o : Option (Option (ContextStrategy rq.Queue))) → get_elem? w.strategies n ≡ o
      → LeavesWith (Made threads made) (steal_at rq kinds w n o)
  unfolding steal_at
  steal_at-Made m n none at = tt
  steal_at-Made m n (some none) at = tt
  steal_at-Made m n (some (some s)) at =
      Made-set m n s (record s { ready_queue = (rq.steal s.ready_queue).1 }) at (m.numbered n s at)

  next-Made :
      (more : Bool) (again : Outcome (Option ℕ × Strategies rq.Queue)) (victim : Option ℕ)
      (t : Strategies rq.Queue)
      → LeavesWith (Made threads made) again
      → Made threads made t
      → LeavesWith (Made threads made) (next rq kinds more again victim t)
  next-Made more again (some c) t h m = m
  next-Made true again none t h m = h
  next-Made false again none t h m = m

  steal_loop-Made :
      (fuel count id i : ℕ) (draws : List ℕ) (w : Strategies rq.Queue)
      → Made threads made w
      → LeavesWith (Made threads made) (steal_loop rq kinds fuel count id i draws w)
  unfolding steal_loop steal_from
  steal_loop-Made zero count id i draws w m = tt
  steal_loop-Made (suc fuel) count id i draws w m = elim (Option-cases (draw id i draws)) [
    | inl e ↦ rw (e, steal_loop) tt
    | inr ((n, j, rest), e) ↦
        rw (e, steal_loop)
          (LeavesWith-bind (Made threads made) (steal_at rq kinds w n (get_elem? w.strategies n))
            (λ (victim, t).
              next rq kinds (ltb j count) (steal_loop rq kinds fuel count id j rest t) victim t)
            (steal_at-Made m n (get_elem? w.strategies n) refl)
            (λ victim t m'.
              next-Made (ltb j count) (steal_loop rq kinds fuel count id j rest t) victim t
                (steal_loop-Made fuel count id j rest t m') m'))
  ]

  attached-Made :
      (victim : Option ℕ) (t : Strategies rq.Queue)
      → Made threads made t
      → LeavesWith (Made threads made) (attached rq kinds (victim, t))
  attached-Made none t m = m
  attached-Made (some c) t m = elim (Bool-cases (kinds.is_pinned c)) [
    | inl p ↦ rw p tt
    | inr p ↦ rw p (like m refl refl)
  ]

  stolen-Made :
      {w : Strategies rq.Queue}
      → Made threads made w
      → (id : ℕ) (draws : List ℕ) → LeavesWith (Made threads made) (stolen rq kinds w id draws)
  unfolding stolen
  stolen-Made {w} m id draws = elim (Bool-cases (ltb 1 (length w.strategies))) [
    | inr one ↦ rw one m
    | inl more ↦ simp more (
        LeavesWith-bind (Made threads made)
          (steal_loop rq kinds (length w.strategies) (length w.strategies) id 0 draws w)
          (attached rq kinds)
          (steal_loop-Made (length w.strategies) (length w.strategies) id 0 draws w m)
          attached-Made)
  ]

  picked-Made :
      {w : Strategies rq.Queue}
      → Made threads made w
      → (id : ℕ) (draws : List ℕ) (victim : Option ℕ)
      → LeavesWith (Made threads made) (picked rq kinds w id draws victim)
  unfolding picked
  picked-Made m id draws none = stolen-Made m id draws
  picked-Made m id draws (some c) = elim (Bool-cases (kinds.is_pinned c)) [
    | inl p ↦ rw p m
    | inr p ↦ rw p (like m refl refl)
  ]

  pick-Made :
      {w : Strategies rq.Queue}
      → Made threads made w
      → (k : ℕ) (s : ContextStrategy rq.Queue) (draws : List ℕ)
      → get_elem? w.strategies k ≡ some (some s)
      → LeavesWith (Made threads made) (pick rq kinds w s draws)
  unfolding pick
  pick-Made m k s draws at =
      picked-Made
        (with_strategy-Made rq kinds m k s (record s { ready_queue = (rq.pop s.ready_queue).1 }) at
          refl)
        s.id draws (rq.pop s.ready_queue).0

  -- The same with the backtrace.
  module _ (u : Unwinder) where
    record_info-Made :
        {w : Strategies rq.Queue}
        → Made threads made w
        → (k : ℕ) (s : ContextStrategy rq.Queue) (d : ℕ) (cursor : u.Cursor)
        → get_elem? w.strategies k ≡ some (some s)
        → Leaves (Made threads made) (record_info rq kinds u w s d cursor)
    unfolding record_info
    record_info-Made {w} m k s d cursor at = elim (Bool-cases ((w.infos d).terminated)) [
      | inl e ↦ simp e m
      | inr e ↦ simp e (written (FiberDebugInfo.update_frame u cursor (w.infos d)))
    ]
      where
        written :
            (o : Outcome FiberDebugInfo)
            → Leaves (Made threads made) (
                o >>= λ info.
                let (infos, tail) =
                  append_waiting (update w.infos d info) s.waiting_fibers_tail d in
                done (
                  with_strategy rq kinds
                    (record w { infos = infos })
                    (record s { waiting_fibers_tail = tail })))
        written spin = tt
        written fault = tt
        written (done info) =
            let (infos, tail) = append_waiting (update w.infos d info) s.waiting_fibers_tail d in
            with_strategy-Made rq kinds (like {t = record w { infos = infos }} m refl refl) k s
              (record s { waiting_fibers_tail = tail }) at refl

    record_properties-Made :
        {w : Strategies rq.Queue}
        → Made threads made w
        → (k : ℕ) (s : ContextStrategy rq.Queue) (active : ℕ) (cursor : u.Cursor) (o : Option ℕ)
        → get_elem? w.strategies k ≡ some (some s)
        → Leaves (Made threads made) (record_properties rq kinds u w s active cursor o)
    unfolding record_properties
    record_properties-Made m k s active cursor (some d) at = record_info-Made m k s d cursor at
    record_properties-Made {w} m k s active cursor none at =
        record_info-Made (like m refl refl) k s w.fresh cursor at

    record_at-Made :
        {t : Strategies rq.Queue}
        → Made threads made t
        → (self : ℕ) (o : Option (Option (ContextStrategy rq.Queue))) (active : ℕ)
          (cursor : u.Cursor)
        → get_elem? t.strategies self ≡ o
        → Leaves (Made threads made) (record_at rq kinds u t o active cursor)
    unfolding record_at record_backtrace
    record_at-Made m self none active cursor at = tt
    record_at-Made m self (some none) active cursor at = tt
    record_at-Made {t} m self (some (some s)) active cursor at =
        record_properties-Made m self s active cursor (t.properties active) at

    recorded-Made :
        (self active : ℕ) (cursor : u.Cursor) (victim : Option ℕ) (t : Strategies rq.Queue)
        → Made threads made t
        → LeavesWith (Made threads made) (recorded rq kinds u self active cursor (victim, t))
    unfolding recorded
    recorded-Made self active cursor none t m = m
    recorded-Made self active cursor (some c) t m =
        elim (Bool-cases (t.debug_on && kinds.is_worker active)) [
          | inl e ↦ rw e (
              kept_with c (record_at rq kinds u t (get_elem? t.strategies self) active cursor)
                (record_at-Made m self (get_elem? t.strategies self) active cursor refl))
          | inr e ↦ rw e m
        ]
      where
        kept_with :
            (c : ℕ) (o : Outcome (Strategies rq.Queue))
            → Leaves (Made threads made) o
            → LeavesWith (Made threads made) (o >>= λ t'. done (some c, t'))
        kept_with c spin h = tt
        kept_with c fault h = tt
        kept_with c (done w) h = h

    -- Whether its flag is set or not, pick_next keeps the table.
    pub pick_next-Made :
        {w : Strategies rq.Queue}
        → Made threads made w
        → (k : ℕ) (s : ContextStrategy rq.Queue) (active : ℕ) (draws : List ℕ) (cursor : u.Cursor)
        → get_elem? w.strategies k ≡ some (some s)
        → LeavesWith (Made threads made) (pick_next rq kinds u w s active draws cursor)
    unfolding pick_next
    pick_next-Made {w} m k s active draws cursor at =
        LeavesWith-bind (Made threads made) (pick rq kinds w s draws)
          (recorded rq kinds u s.id active cursor) (pick-Made m k s draws at)
          (recorded-Made s.id active cursor)
