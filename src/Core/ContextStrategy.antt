-- ===== src/Core/ContextStrategy.antt =====
-- ustevent/core/ContextStrategy.h and .cpp: the scheduler of one thread of a context. The strategies
-- of a context share the table of strategies and the debug infos of the fibers, in one store. A
-- fiber context of Boost and a debug info are addresses. Boost's queue of ready contexts, its
-- kinds of contexts and the random numbers are parameters; each call is one step.
pub mod Chains
pub mod Waiting
pub mod Links
pub mod Lists
pub mod Backtraces
pub mod Births
pub mod Runs
pub mod Ready
pub mod Steals
pub mod Picks
use ustevent.Prelude.{
  ℕ, zero, suc, ◌+◌, Bool, true, false, ◌&&◌, ◌||◌, not, Option, none, some, List, [], ◌∷◌, Outcome,
  done, spin, fault, ◌>>=◌, ltb, ◌==◌, if◌then◌else◌, length, set, get_elem?, update,
}
use ustevent.Core.FiberDebugInfo
use ustevent.Core.FiberDebugInfo.{FiberDebugInfo, Unwinder}

-- `boost::fibers::detail::context_spmc_queue`.
pub record ReadyQueue : Type 1 where
  pub Queue : Type 0
  pub new : Queue
  pub push : ℕ → Queue → Queue
  pub pop : Queue → Option ℕ × Queue
  pub steal : Queue → Option ℕ × Queue
  pub is_empty : Queue → Bool

-- `boost::fibers::context`: the tests of the kinds of a context.
pub record Kinds : Type 0 where
  pub is_pinned : ℕ → Bool
  pub is_worker : ℕ → Bool

pub record ContextStrategy (Q : Type 0) : Type 0 where
  pub id : ℕ
  pub waiting_fibers_head : ℕ
  pub waiting_fibers_tail : ℕ
  pub ready_queue : Q

-- The part of a Context that its strategies use, with the debug infos.
pub record Strategies (Q : Type 0) : Type 0 where
  pub next_strategy_index : ℕ
  pub strategies : List (Option (ContextStrategy Q))
  pub debug_on : Bool
  pub infos : ℕ → FiberDebugInfo
  -- The debug info of a context, if it has one.
  pub properties : ℕ → Option ℕ
  pub fresh : ℕ
  -- The contexts that a scheduler has attached.
  pub attached : ℕ → Bool

abbrev pub Infos : Type 0
Infos = ℕ → FiberDebugInfo

abbrev pub set_next : Infos → ℕ → Option ℕ → Infos
set_next infos a v = update infos a (record (infos a) { next = v })

abbrev pub set_prev : Infos → ℕ → Option ℕ → Infos
set_prev infos a v = update infos a (record (infos a) { prev = v })

-- The writes that append `d` behind the tail, which it becomes.
unfoldable pub append_waiting : Infos → ℕ → ℕ → Infos × ℕ
append_waiting infos tail d = (set_prev (set_next infos tail (some d)) d (some tail), d)

-- The writes of `_eraseBacktrace`, by the successor and the predecessor of `d`: the infos and the
-- tail.
unfoldable pub unlink : Infos → ℕ → ℕ → Option ℕ → Option ℕ → Outcome (Infos × ℕ)
unlink infos tail d none none = done (infos, tail)
unlink infos tail d none (some p) =
    done (set_next (set_prev (set_next infos p none) d none) d none, p)
unlink infos tail d (some n) none = fault
unlink infos tail d (some n) (some p) =
    let linked = set_prev (set_next infos p (some n)) n (some p) in
    done (set_next (set_prev linked d none) d none, tail)

unfoldable pub erase_backtrace : Infos → ℕ → ℕ → Outcome (Infos × ℕ)
unfolding unlink
erase_backtrace infos tail d = unlink infos tail d ((infos d).next) ((infos d).prev)

-- A draw of a strategy other than `id`: its number, the count `i` and the numbers left.
unfoldable pub draw : ℕ → ℕ → List ℕ → Option (ℕ × ℕ × List ℕ)
draw id i [] = none
draw id i (n ∷ rest) =
    let again = draw id (suc i) rest in if n == id then again else some (n, suc i, rest)

module _ (rq : ReadyQueue) (kinds : Kinds) where
  open rq use {Queue, new, push, pop, steal, is_empty}
  open kinds use {is_pinned, is_worker}

  -- The constructor: the strategy takes the next number, and its head is a node of its own. Writing
  -- beyond the table is a fault.
  unfoldable pub create : Strategies Queue → Outcome (Strategies Queue)
  create w =
      if ltb w.next_strategy_index (length w.strategies)
      then done (record w {
        next_strategy_index = suc w.next_strategy_index;
        strategies = set w.strategies w.next_strategy_index (
            some (record {
              id = w.next_strategy_index;
              waiting_fibers_head = w.fresh;
              waiting_fibers_tail = w.fresh;
              ready_queue = new;
            }));
        infos = update w.infos w.fresh FiberDebugInfo.create;
        fresh = suc w.fresh;
      })
      else fault

  abbrev pub with_strategy : Strategies Queue → ContextStrategy Queue → Strategies Queue
  with_strategy w s = record w { strategies = set w.strategies s.id (some s) }

  unfoldable pub erased :
      Strategies Queue
      → ContextStrategy Queue
      → ℕ
      → Outcome (Strategies Queue × ContextStrategy Queue)
  erased w s d =
      if w.debug_on
      then (erase_backtrace w.infos s.waiting_fibers_tail d >>= λ (infos, tail).
          done (record w { infos = infos }, record s { waiting_fibers_tail = tail }))
      else done (w, s)

  unfoldable pub awakened :
      Strategies Queue → ContextStrategy Queue → ℕ → ℕ → Outcome (Strategies Queue)
  awakened w s c d =
      if is_pinned c
      then done (with_strategy w (record s { ready_queue = push c s.ready_queue }))
      else (erased (record w { attached = update w.attached c false }) s d >>= λ (w', s').
          done (with_strategy w' (record s' { ready_queue = push c s'.ready_queue })))

  -- `steal` of the strategy with the number `n`, at its entry of the table.
  unfoldable pub steal_at :
      Strategies Queue
      → ℕ
      → Option (Option (ContextStrategy Queue))
      → Outcome (Option ℕ × Strategies Queue)
  steal_at w n none = fault
  steal_at w n (some none) = fault
  steal_at w n (some (some s)) =
      let (victim, q) = steal s.ready_queue in
      done
        (victim, record w { strategies = set w.strategies n (some (record s { ready_queue = q })) })

  unfoldable pub steal_from : Strategies Queue → ℕ → Outcome (Option ℕ × Strategies Queue)
  unfolding steal_at
  steal_from w n = steal_at w n (get_elem? w.strategies n)

  -- The outer loop of `pick_next` in a context of `count` strategies, on fuel. It waits when the
  -- numbers run out.
  unfoldable pub steal_loop :
      ℕ → ℕ → ℕ → ℕ → List ℕ → Strategies Queue → Outcome (Option ℕ × Strategies Queue)
  steal_loop zero count id i draws w = spin
  steal_loop (suc fuel) count id i draws w = elim (draw id i draws) [
    | none ↦ spin
    | some (n, j, rest) ↦ steal_from w n >>= λ (victim, t).
        let again = steal_loop fuel count id j rest t in
        elim victim [
          | some c ↦ done (some c, t)
          | none ↦ if ltb j count then again else done (none, t)
        ]
  ]

  abbrev pub attach : Strategies Queue → ℕ → Strategies Queue
  attach w c = record w { attached = update w.attached c true }

  unfoldable pub stolen : Strategies Queue → ℕ → List ℕ → Outcome (Option ℕ × Strategies Queue)
  stolen w id draws =
      if ltb 1 (length w.strategies)
      then (steal_loop (length w.strategies) (length w.strategies) id 0 draws w >>= λ (victim, t).
          elim victim [
            | none ↦ done (none, t)
            | some c ↦ if is_pinned c then fault else done (some c, attach t c)
          ])
      else done (none, w)

  -- `pick_next` up to the backtrace, by the context that was popped.
  unfoldable pub picked :
      Strategies Queue → ℕ → List ℕ → Option ℕ → Outcome (Option ℕ × Strategies Queue)
  picked t id draws (some c) = done (some c, if is_pinned c then t else attach t c)
  picked t id draws none = stolen t id draws

  unfoldable pub pick :
      Strategies Queue → ContextStrategy Queue → List ℕ → Outcome (Option ℕ × Strategies Queue)
  unfolding picked
  pick w s draws =
      let (victim, q) = pop s.ready_queue in
      picked (with_strategy w (record s { ready_queue = q })) s.id draws victim

  unfoldable pub has_ready_fibers : ContextStrategy Queue → Bool
  has_ready_fibers s = not (is_empty s.ready_queue)

  module _ (u : Unwinder) where
    open u use {Cursor}

    unfoldable pub record_info :
        Strategies Queue → ContextStrategy Queue → ℕ → Cursor → Outcome (Strategies Queue)
    record_info w s d cursor =
        if (w.infos d).terminated
        then done w
        else (FiberDebugInfo.update_frame u cursor (w.infos d) >>= λ info.
            let (infos, tail) = append_waiting (update w.infos d info) s.waiting_fibers_tail d in
            done (
              with_strategy (record w { infos = infos }) (record s { waiting_fibers_tail = tail })))

    -- `_recordBacktrace` for the active context, by the debug info that it has.
    unfoldable pub record_properties :
        Strategies Queue
        → ContextStrategy Queue
        → ℕ
        → Cursor
        → Option ℕ
        → Outcome (Strategies Queue)
    record_properties w s active cursor (some d) = record_info w s d cursor
    record_properties w s active cursor none =
        record_info
          (record w {
            infos = update w.infos w.fresh FiberDebugInfo.create;
            properties = update w.properties active (some w.fresh);
            fresh = suc w.fresh;
          })
          s w.fresh cursor

    unfoldable pub record_backtrace :
        Strategies Queue → ContextStrategy Queue → ℕ → Cursor → Outcome (Strategies Queue)
    unfolding record_properties
    record_backtrace w s active cursor = record_properties w s active cursor (w.properties active)

    -- The backtrace of the active worker; the strategy's fields are read after the steals.
    unfoldable pub record_at :
        Strategies Queue
        → Option (Option (ContextStrategy Queue))
        → ℕ
        → Cursor
        → Outcome (Strategies Queue)
    record_at t none active cursor = fault
    record_at t (some none) active cursor = fault
    record_at t (some (some s)) active cursor = record_backtrace t s active cursor

    unfoldable pub recorded :
        ℕ → ℕ → Cursor → Option ℕ × Strategies Queue → Outcome (Option ℕ × Strategies Queue)
    recorded self active cursor (none, t) = done (none, t)
    recorded self active cursor (some c, t) =
        if t.debug_on && is_worker active
        then (record_at t (get_elem? t.strategies self) active cursor >>= λ t'. done (some c, t'))
        else done (some c, t)

    -- `pick_next` of the strategy `s`, while the context `active` runs.
    unfoldable pub pick_next :
        Strategies Queue
        → ContextStrategy Queue
        → ℕ
        → List ℕ
        → Cursor
        → Outcome (Option ℕ × Strategies Queue)
    pick_next w s active draws cursor = pick w s draws >>= recorded s.id active cursor
