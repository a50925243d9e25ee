-- ===== src/Core/ContextStrategy/Births.antt =====
-- The constructor of ContextStrategy and the lists of waiting fibers.
use mathlib.Core.Option.{some-injective}
use ustevent.Prelude.{
  ℕ, zero, suc, ◌<◌, ◌≡◌, ◌∙◌, refl, sym, subst, arith, Bool, true, false, Bool-cases, inl, inr,
  ◌⊎◌, none, some, List, [], ◌∷◌, done, ◌==◌, if◌then◌else◌, update, length, replicate, get_elem?,
  set, get_elem?-set, ltb,
}
use ustevent.Core.FiberDebugInfo
use ustevent.Core.FiberDebugInfo.{FiberDebugInfo, backtrace_size, Unwinder}
use ustevent.Core.ListNodeAllocator.Chains.{has, Below}
use ustevent.Core.ContextStrategy.{Infos, ContextStrategy, Strategies, ReadyQueue, Kinds, create}
use ustevent.Core.ContextStrategy.Waiting.{Table, Kept, At, Outside, Tracked}
use ustevent.Core.ContextStrategy.Backtraces.{Waiting, fresh-Outside, taken-Tracked}

unborn-null :
    {Q : Type 0} (table : Table Q) (n : ℕ)
    → ltb n (length table) ≡ true
    → ((s : ContextStrategy Q) → ¬ At table n s)
    → get_elem? table n ≡ some none
unborn-null [] n h o = absurd (ground arith)
unborn-null (none ∷ xs) zero h o = refl
unborn-null (some s ∷ xs) zero h o = absurd (o s refl)
unborn-null (x ∷ xs) (suc n) h o = unborn-null xs n (ground arith) o

module _ {Q : Type 0} {m : Infos} {table : Table Q} {fresh : ℕ} {ws : ℕ → List ℕ}
    (tr : Tracked m table fresh ws) (n : ℕ) (s : ContextStrategy Q)
    (null : get_elem? table n ≡ some none) (id : s.id ≡ n)
    (head : s.waiting_fibers_tail ≡ s.waiting_fibers_head)
    (out : Outside table ws s.waiting_fibers_head) (low : s.waiting_fibers_head < fresh) where
  abbrev changed : Table Q
  changed = set table n (some s)

  lookup : (j : ℕ) → get_elem? changed j ≡ (if n == j then some (some s) else get_elem? table j)
  lookup j = get_elem?-set table n j (some s) none null

  found :
      (j : ℕ) (r : ContextStrategy Q)
      → At changed j r
      → (((n == j) ≡ true) × (s ≡ r)) ⊎ (((n == j) ≡ false) × At table j r)
  found j r e = elim (Bool-cases (n == j)) [
    | inl h ↦
        inl (h, some-injective s r (some-injective (some s) (some r) (ground (arith, lookup j))))
    | inr h ↦ inr (h, ground (arith, lookup j))
  ]

  -- No old list has the new head.
  apart_head :
      (j : ℕ) (r : ContextStrategy Q)
      → At table j r
      → (a : ℕ) → has a (r.waiting_fibers_head ∷ ws j) ≡ true
      → has a (s.waiting_fibers_head ∷ []) ≡ false
  apart_head j r old a i = elim (Bool-cases (a == s.waiting_fibers_head)) [
    | inl e ↦
        let same : a ≡ s.waiting_fibers_head = ground arith in
        absurd (cc (out j r old, subst (λ x. has x (r.waiting_fibers_head ∷ ws j) ≡ true) same i))
    | inr e ↦ ground arith
  ]

  is_new :
      (j : ℕ)
      → (n == j) ≡ true
      → (P : ℕ → ContextStrategy Q → List ℕ → Type 0) → (r : ContextStrategy Q) → s ≡ r
      → P n s []
      → P j r (update ws n [] j)
  is_new j h P r same p =
      let n_j : n ≡ j = ground arith in
      rw h (subst (λ x. P j x []) same (subst (λ x. P x s []) n_j p))

  born-Tracked : Tracked m changed fresh (update ws n [])
  born-Tracked = record {
    kept = λ j r e. elim (found j r e) [
      | inl (h, same) ↦
          is_new j h (λ i x xs. Kept m x xs) r same
            (record {
              chain = (tr.idle s.waiting_fibers_head out).1;
              distinct = (refl, tt);
              tail = head;
            })
      | inr (h, old) ↦ rw h (tr.kept j r old)
    ];
    numbered = λ j r e. elim (found j r e) [
      | inl (h, same) ↦ is_new j h (λ i x xs. x.id ≡ i) r same id
      | inr (h, old) ↦ tr.numbered j r old
    ];
    used = λ j r e. elim (found j r e) [
      | inl (h, same) ↦
          is_new j h (λ i x xs. Below fresh (x.waiting_fibers_head ∷ xs)) r same (low, tt)
      | inr (h, old) ↦ rw h (tr.used j r old)
    ];
    apart = λ i j q r e f ne a. elim (found i q e) [
      | inl (h, same) ↦ elim (found j r f) [
        | inl (h', same') ↦ absurd (ground arith)
        | inr (h', old') ↦
            rw (h, h')
              λ y. elim (Bool-cases (has a (r.waiting_fibers_head ∷ ws j))) [
                | inl z ↦ absurd (
                    cc (
                      apart_head j r old' a z,
                      subst (λ x. has a (x.waiting_fibers_head ∷ []) ≡ true) (sym same) y,
                    ))
                | inr z ↦ z
              ]
      ]
      | inr (h, old) ↦ elim (found j r f) [
        | inl (h', same') ↦
            rw (h, h')
              λ y.
                subst (λ x. has a (x.waiting_fibers_head ∷ []) ≡ false) same'
                  (apart_head i q old a y)
        | inr (h', old') ↦ rw (h, h') λ y. tr.apart i j q r old old' ne a y
      ]
    ];
    idle = λ a o. tr.idle a λ j r old. elim (Bool-cases (n == j)) [
      | inl h ↦
          let n_j : n ≡ j = ground arith in
          absurd (cc (subst (λ x. get_elem? table x ≡ some none) n_j null, old))
      | inr h ↦ rw h at (o j r (lookup j ∙ rw h old))
    ];
    sized = tr.sized;
  }

-- The constructor of a strategy, in a table that has room, takes the next entry and starts an empty
-- list; the other lists stay.
pub create-Waiting :
    (rq : ReadyQueue) (kinds : Kinds) {w : Strategies rq.Queue} {ws : ℕ → List ℕ}
    → Waiting w ws
    → ltb w.next_strategy_index (length w.strategies) ≡ true
    → (t : Strategies rq.Queue) × (create rq kinds w ≡ done t)
      × Waiting t (update ws w.next_strategy_index [])
unfolding create
create-Waiting rq kinds {w} {ws} wt room =
    let n = w.next_strategy_index in
    let null =
      unborn-null w.strategies n room
        (λ s at. absurd (omega (arith, wt.unborn w.next_strategy_index s at))) in
    let s : ContextStrategy rq.Queue = record {
      id = n;
      waiting_fibers_head = w.fresh;
      waiting_fibers_tail = w.fresh;
      ready_queue = rq.new;
    } in
    let out = fresh-Outside rq kinds wt w.fresh (omega arith) in
    (
      record w {
        next_strategy_index = suc n;
        strategies = set w.strategies n (some s);
        infos = update w.infos w.fresh FiberDebugInfo.create;
        fresh = suc w.fresh;
      },
      rw room refl,
      record {
        tracked = born-Tracked (taken-Tracked rq kinds wt) n s null refl refl out (omega arith);
        known = λ c d e. omega (arith, wt.known c d e);
        unborn = λ j r e.
            elim (found (taken-Tracked rq kinds wt) n s null refl refl out (omega arith) j r e) [
              | inl (h, same) ↦ ground arith
              | inr (h, old) ↦ omega (arith, wt.unborn j r old)
            ];
      },
    )

-- A context of `count` strategies that are not yet made.
abbrev pub start : {Q : Type 0} → ℕ → Bool → Strategies Q
start count debug_on = record {
  next_strategy_index = 0;
  strategies = replicate count none;
  debug_on = debug_on;
  infos = λ _. FiberDebugInfo.create;
  properties = λ _. none;
  fresh = 0;
  attached = λ _. false;
}

empty-null : {Q : Type 0} (count k : ℕ) (s : ContextStrategy Q) → ¬ At (replicate count none) k s
empty-null zero k s e = cc
empty-null (suc count) zero s e = cc
empty-null (suc count) (suc k) s e = empty-null count k s e

pub start-Waiting :
    {Q : Type 0} (count : ℕ) (debug_on : Bool) → Waiting (start {Q = Q} count debug_on) (λ _. [])
start-Waiting count debug_on = record {
  tracked = record {
    kept = λ k s e. absurd (empty-null count k s e);
    numbered = λ k s e. absurd (empty-null count k s e);
    used = λ k s e. absurd (empty-null count k s e);
    apart = λ j k r s e f. absurd (empty-null count k s f);
    idle = λ a o. (refl, refl);
    sized = λ a. refl;
  };
  known = λ c d e. cc;
  unborn = λ k s e. absurd (empty-null count k s e);
}
