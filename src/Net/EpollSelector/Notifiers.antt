-- ===== src/Net/EpollSelector/Notifiers.antt =====
-- The notifiers that registerObject and deregisterObject of EpollSelector have given out.
use mathlib.Core.List.{append_assoc, append-nil}
use ustevent.Prelude.{
  ℕ, ◌≡◌, refl, sym, subst, arith, true, false, Bool-cases, inl, inr, Option, none, some, List, [],
  ◌∷◌, ◌++◌, ◌==◌, pos, done,
}
use ustevent.Core.BasicSemaphore
use ustevent.Core.BasicSemaphore.{BasicSemaphore, is_negative, semaphore}
use ustevent.Core.ListNodeAllocator
use ustevent.Core.ListNodeAllocator.{ListNodeAllocator}
use ustevent.Core.ListNodeAllocator.Chains.{
  has, Distinct, Below, has-append, Distinct-extract, Distinct-apart', Below-extract,
}
use ustevent.Core.ListNodeAllocator.Alloc.{Pool, alloc-Taken, free-Pool}
use ustevent.Net.Platform.{returned, failed}
use ustevent.Net.EpollSelector.{
  EventNotifier, EpollSelector, set_notifier, free_notifier, register_object, deregister_object,
}

-- Both `_atomic_count`s are 0.
abbrev pub Clean : EventNotifier → Type 0
Clean w = (w.event_in.atomic_count ≡ pos 0) × (w.event_out.atomic_count ≡ pos 0)

-- The notifiers `used` are apart from each other and from the free ones, and every other notifier is clean.
pub record Serving (s : EpollSelector) (used : List ℕ) : Type 0 where
  pub f : ℕ
  pub fs : List ℕ
  pub pool : Pool s.notifier_pool used f fs
  pub clean : (a : ℕ) → has a used ≡ false → Clean (s.notifier_pool.value a)

Pool-value :
    {A : Type 0} (p : ListNodeAllocator A) (v : ℕ → A) (q : List ℕ) (f : ℕ) (fs : List ℕ)
    → Pool p q f fs
    → Pool (record p { value = v }) q f fs
Pool-value p v q f fs h = record {
  size = h.size;
  first = h.first;
  final = h.final;
  free_chain = h.free_chain;
  distinct = h.distinct;
  below = h.below;
}

reset-atomic_count : (s : BasicSemaphore) → (BasicSemaphore.reset s).1.atomic_count ≡ pos 0
unfolding BasicSemaphore.reset
reset-atomic_count s = elim (Bool-cases (is_negative s.atomic_count)) [
  | inl e ↦ simp e refl
  | inr e ↦ simp e refl
]

-- A notifier of the middle of the list that is freed.
free_notifier-Serving :
    (s : EpollSelector) (n : ℕ) (xs ys : List ℕ)
    → Serving s (xs ++ n ∷ ys)
    → Serving (free_notifier s n) (xs ++ ys)
unfolding free_notifier ListNodeAllocator.free
free_notifier-Serving s n xs ys h =
    let p = h.pool in
    let free_nodes = h.f ∷ h.fs in
    let t = record s.notifier_pool { value = (free_notifier s n).notifier_pool.value } in
    record {
      f = h.f;
      fs = h.fs ++ n ∷ [];
      pool =
          free-Pool t (xs ++ ys) n h.f h.fs p.size p.first p.final p.free_chain
            (subst (λ l. Distinct (n ∷ l)) (sym (append_assoc xs ys free_nodes))
              (Distinct-extract n xs (ys ++ free_nodes)
                (subst Distinct (append_assoc xs (n ∷ ys) free_nodes) p.distinct)))
            (subst (λ l. Below s.notifier_pool.fresh (n ∷ l)) (sym (append_assoc xs ys free_nodes))
              (Below-extract s.notifier_pool.fresh n xs (ys ++ free_nodes) (
                subst (Below s.notifier_pool.fresh) (append_assoc xs (n ∷ ys) free_nodes)
                  p.below)));
      clean = λ a i. elim (Bool-cases (n == a)) [
        | inl e ↦ simp e (
          reset-atomic_count (s.notifier_pool.value n).event_in,
          reset-atomic_count (s.notifier_pool.value n).event_out,
        )
        | inr e ↦ simp e (h.clean a (ground (arith, has-append a xs ys, has-append a xs (n ∷ ys))))
      ];
    }

-- A write to a notifier that is given out.
pub set_notifier-Serving :
    (s : EpollSelector) (n : ℕ) (w : EventNotifier) (used : List ℕ)
    → has n used ≡ true
    → Serving s used
    → Serving (set_notifier s s.notifier_pool n w) used
set_notifier-Serving s n w used i h = record {
  f = h.f;
  fs = h.fs;
  pool = Pool-value s.notifier_pool _ used h.f h.fs h.pool;
  clean = λ a j. elim (Bool-cases (n == a)) [
    | inl e ↦
        let same : n ≡ a = ground arith in
        let z : has a used ≡ true = subst (λ k. has k used ≡ true) same i in absurd (ground arith)
    | inr e ↦ simp e (h.clean a j)
  ];
}

pub deregister_object-Serving :
    (s : EpollSelector) (n : ℕ) (xs ys : List ℕ)
    → Serving s (xs ++ n ∷ ys)
    → Serving (deregister_object s (some n)) (xs ++ ys)
unfolding deregister_object
deregister_object-Serving s n xs ys h =
    free_notifier-Serving
      (set_notifier s s.notifier_pool n (record (s.notifier_pool.value n) { descriptor = none })) n
      xs ys
      (set_notifier-Serving s n (record (s.notifier_pool.value n) { descriptor = none })
        (xs ++ n ∷ ys) (ground (arith, has-append n xs (n ∷ ys))) h)

-- `alloc` gives a clean notifier out, into which the descriptor is written.
allocated-Serving :
    (s : EpollSelector) (descriptor : Option ℕ) (used : List ℕ)
    → Serving s used
    → (n : ℕ) × (pool : ListNodeAllocator EventNotifier) × (ListNodeAllocator.alloc s.notifier_pool
        ≡ done (n, pool))
      × (has n used ≡ false)
      × Clean (pool.value n)
      × Serving
          (set_notifier s pool n (record (pool.value n) { descriptor = descriptor }))
          (used ++ n ∷ [])
allocated-Serving s descriptor used h =
    let (n, pool, e, g) = alloc-Taken s.notifier_pool used h.f h.fs h.pool in
    let free_nodes = g.f ∷ g.fs in
    let out : has n used ≡ false =
      Distinct-apart' used (n ∷ free_nodes) n g.distinct (ground arith) in
    let clean : (a : ℕ) → has a used ≡ false → Clean (pool.value a) =
      subst (λ v. (a : ℕ) → has a used ≡ false → Clean (v a)) (sym g.same_value) h.clean in
    (
      n,
      pool,
      e,
      out,
      clean n out,
      record {
        f = g.f;
        fs = g.fs;
        pool = record {
          size = g.size;
          first = g.first;
          final = g.final;
          free_chain = g.free_chain;
          distinct = subst Distinct (sym (append_assoc used (n ∷ []) free_nodes)) g.distinct;
          below = subst (Below pool.fresh) (sym (append_assoc used (n ∷ []) free_nodes)) g.below;
        };
        clean = λ a i. elim (Bool-cases (n == a)) [
          | inl q ↦ absurd (ground (arith, has-append a used (n ∷ [])))
          | inr q ↦ simp q (clean a (ground (arith, has-append a used (n ∷ []))))
        ];
      },
    )

-- `registerObject`, where `::epoll_ctl` succeeds and where it fails.
pub register_object-Serving :
    (s : EpollSelector) (descriptor : Option ℕ) (k : ℕ) (used : List ℕ)
    → Serving s used
    → (n : ℕ) × (t : EpollSelector) × (register_object s descriptor (returned k)
        ≡ done (some n, pos 0, t))
      × (has n used ≡ false)
      × Clean (t.notifier_pool.value n)
      × ((t.notifier_pool.value n).descriptor ≡ descriptor)
      × Serving t (used ++ n ∷ [])
unfolding register_object
register_object-Serving s descriptor k used h =
    let (n, pool, e, out, clean, g) = allocated-Serving s descriptor used h in
    let here : (n == n) ≡ true = ground arith in
    (
      n,
      set_notifier s pool n (record (pool.value n) { descriptor = descriptor }),
      rw e refl,
      out,
      simp here clean,
      simp here refl,
      g,
    )

pub register_object-failed :
    (s : EpollSelector) (descriptor : Option ℕ) (e : ℕ) (used : List ℕ)
    → Serving s used
    → (t : EpollSelector) × (register_object s descriptor (failed e) ≡ done (none, pos e, t))
      × Serving t used
unfolding register_object
register_object-failed s descriptor e used h =
    let (n, pool, q, out, clean, g) = allocated-Serving s descriptor used h in
    let u = set_notifier s pool n (record (pool.value n) { descriptor = descriptor }) in
    (
      free_notifier u n,
      rw q refl,
      subst (Serving (free_notifier u n)) (append-nil used) (free_notifier-Serving u n used [] g),
    )
