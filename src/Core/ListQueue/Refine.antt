-- ===== src/Core/ListQueue/Refine.antt =====
-- Whatever is called on a queue of linked nodes, it answers as the list of its elements.
use mathlib.Core.List.{append_assoc}
use ustevent.Prelude.{
  ℕ, ◌≡◌, ◌∙◌, refl, sym, ap, subst, arith, false, Option, none, some, Outcome, done, spin, fault,
  update, List, [], ◌∷◌, ◌++◌, map,
}
use ustevent.Core.ListNodeAllocator.{create, free}
use ustevent.Core.ListNodeAllocator.Chains.{
  has, Distinct, Linked, last, Below, has-last, Linked-update, Linked-append, Linked-same,
  Distinct-left, Distinct-apart, Distinct-apart', last-append,
}
use ustevent.Core.ListNodeAllocator.Alloc.{Pool, alloc-Taken, free-Pool, free-next}
use ustevent.Core.ListQueue.{
  ListQueue, create_queue, enqueue_sp, enqueue_mp, take_next, dequeue_sc, dequeue_mc,
  dequeue_mc_weak, Call, put_sp, put_mp, take_sc, take_mc, take_mc_weak, perform_call, run, fill,
  append_node,
}
use ustevent.Core.ListQueue.Fifo.{answer, answers}

-- The queue holds the elements `xs`: its chain is the dummy `t` and the nodes `ns` of the elements.
pub record Holds {A : Type 0} (q : ListQueue A) (xs : List A) : Type 0 where
  pub t : ℕ
  pub ns : List ℕ
  pub f : ℕ
  pub fs : List ℕ
  pub pool : Pool q (t ∷ ns) f fs
  pub chain : Linked q.next (t ∷ ns)
  pub tail : q.tail ≡ some t
  pub head : q.head ≡ last t ns
  pub elements : map q.value ns ≡ xs

module _ {A : Type 0} where
  map-update :
      (v : ℕ → A) (n : ℕ) (x : A) (ns : List ℕ)
      → has n ns ≡ false
      → map (update v n x) ns ≡ map v ns
  map-update v n x [] h = refl
  map-update v n x (p ∷ ns) h = ground (arith, map-update v n x ns)

  map-append : (v : ℕ → A) (ns ms : List ℕ) → map v (ns ++ ms) ≡ map v ns ++ map v ms
  map-append v [] ms = refl
  map-append v (n ∷ ns) ms = ap (◌∷◌ (v n)) (map-append v ns ms)

  create_queue-Holds : (blank : A) → Holds (create_queue blank) []
  unfolding create_queue create
  create_queue-Holds blank = record {
    t = 0;
    ns = [];
    f = 1;
    fs = [];
    pool = record {
      size = omega arith;
      first = refl;
      final = refl;
      free_chain = refl;
      distinct = (refl, (refl, tt));
      below = (omega arith, (omega arith, tt));
    };
    chain = refl;
    tail = refl;
    head = refl;
    elements = refl;
  }

  enqueue_sp-Holds :
      (q : ListQueue A) (x : A) (xs : List A)
      → Holds q xs
      → (t : ListQueue A) × (enqueue_sp q x ≡ done t) × Holds t (xs ++ x ∷ [])
  unfolding enqueue_sp
  enqueue_sp-Holds q x xs h =
      let (n, t, e, got) = alloc-Taken q (h.t ∷ h.ns) h.f h.fs h.pool in
      let own = h.t ∷ h.ns in
      let rest = got.f ∷ got.fs in
      let out : has n own ≡ false = Distinct-apart' own (n ∷ rest) n got.distinct (ground arith) in
      let at : t.head ≡ last h.t h.ns = got.same_head ∙ h.head in
      let apart : has (last h.t h.ns) (n ∷ rest) ≡ false =
        Distinct-apart own (n ∷ rest) (last h.t h.ns) got.distinct (has-last h.t h.ns) in
      (
        append_node (fill t n x) n,
        rw e refl,
        record {
          t = h.t;
          ns = h.ns ++ n ∷ [];
          f = got.f;
          fs = got.fs;
          pool = record {
            size = got.size;
            first = got.first;
            final = got.final;
            free_chain =
                subst (λ a. Linked (update t.next a (some n)) rest) (sym at)
                  (Linked-update t.next (last h.t h.ns) (some n) rest (ground arith)
                    got.free_chain);
            distinct = subst Distinct (sym (append_assoc own (n ∷ []) rest)) got.distinct;
            below = subst (Below t.fresh) (sym (append_assoc own (n ∷ []) rest)) got.below;
          };
          chain =
              subst (λ a. Linked (update t.next a (some n)) (own ++ n ∷ [])) (sym at)
                (Linked-append t.next n h.t h.ns out (Distinct-left own (n ∷ rest) got.distinct)
                  got.blank (Linked-same q.next t.next own got.same_next h.chain));
          tail = got.same_tail ∙ h.tail;
          head = sym (last-append h.t n h.ns);
          elements =
              map-append (update t.value n x) h.ns (n ∷ [])
              ∙ ap (λ ys. ys ++ update t.value n x n ∷ [])
                  (map-update t.value n x h.ns (ground arith)
                    ∙ ap (λ v. map v h.ns) got.same_value
                    ∙ h.elements)
              ∙ ap (λ y. xs ++ y ∷ []) (ground arith);
        },
      )

  take_next-none : (q : ListQueue A) (t : ℕ) → q.next t ≡ none → take_next q t ≡ (none, q)
  unfolding take_next
  take_next-none q t e =
      ap
        (λ o. elim o as (λ _. Option A × ListQueue A) [
          | none ↦ (none, q)
          | some n ↦ (some (q.value n), free (record q { tail = some n }) t)
        ])
        e

  take_next-some :
      (q : ListQueue A) (t n : ℕ)
      → q.next t ≡ some n
      → take_next q t ≡ (some (q.value n), free (record q { tail = some n }) t)
  unfolding take_next
  take_next-some q t n e =
      ap
        (λ o. elim o as (λ _. Option A × ListQueue A) [
          | none ↦ (none, q)
          | some n ↦ (some (q.value n), free (record q { tail = some n }) t)
        ])
        e

  -- What dequeuing a queue that holds `xs` may return: the element of the list, and a queue of the rest.
  abbrev Takes : List A → Option A × ListQueue A → Type 0
  Takes xs (out, t) = (out ≡ (answer xs take_sc).0) × Holds t (answer xs take_sc).1

  take_next-cases :
      (q : ListQueue A) (t : ℕ) (ns : List ℕ) (f : ℕ) (fs : List ℕ)
      → Pool q (t ∷ ns) f fs
      → Linked q.next (t ∷ ns)
      → q.tail ≡ some t
      → q.head ≡ last t ns
      → Takes (map q.value ns) (take_next q t)
  unfolding answer free
  take_next-cases q t [] f fs p l tail head = subst (Takes []) (sym (take_next-none q t l)) (
    refl,
    record {
      t = t;
      ns = [];
      f = f;
      fs = fs;
      pool = p;
      chain = l;
      tail = tail;
      head = head;
      elements = refl;
    },
  )
  take_next-cases q t (n ∷ ns) f fs p l tail head =
      subst (Takes (map q.value (n ∷ ns))) (sym (take_next-some q t n l.0)) (
        refl,
        record {
          t = n;
          ns = ns;
          f = f;
          fs = fs ++ t ∷ [];
          pool =
              free-Pool (record q { tail = some n }) (n ∷ ns) t f fs p.size p.first p.final
                p.free_chain p.distinct p.below;
          chain =
              Linked-same q.next (free (record q { tail = some n }) t).next (n ∷ ns)
                (free-next (record q { tail = some n }) (n ∷ ns) t f fs p.final p.distinct) l.1;
          tail = refl;
          head = head;
          elements = refl;
        },
      )

  take_next-Holds : (q : ListQueue A) (xs : List A) (h : Holds q xs) → Takes xs (take_next q h.t)
  take_next-Holds q xs h =
      subst (λ ys. Takes ys (take_next q h.t)) h.elements
        (take_next-cases q h.t h.ns h.f h.fs h.pool h.chain h.tail h.head)

  -- A dequeue that does `absent` where the tail is taken away.
  abbrev dequeue_or :
      ListQueue A → Outcome (Option A × ListQueue A) → Option ℕ → Outcome (Option A × ListQueue A)
  dequeue_or q absent none = absent
  dequeue_or q absent (some t) = done (take_next q t)

  dequeues :
      (q : ListQueue A) (xs : List A)
      → Holds q xs
      → (absent : Outcome (Option A × ListQueue A))
      → (t : ListQueue A) × (dequeue_or q absent q.tail ≡ done ((answer xs take_sc).0, t))
        × Holds t (answer xs take_sc).1
  dequeues q xs h absent =
      let (e, g) = take_next-Holds q xs h in
      (
        (take_next q h.t).1,
        ap (dequeue_or q absent) h.tail ∙ ap (λ out. done (out, (take_next q h.t).1)) e,
        g,
      )

  -- Each call on a queue that holds `xs` returns what the list answers, and leaves what the list leaves.
  perform_call-Holds :
      (q : ListQueue A) (xs : List A) (c : Call A)
      → Holds q xs
      → (t : ListQueue A) × (perform_call q c ≡ done ((answer xs c).0, t)) × Holds t (answer xs c).1
  unfolding perform_call enqueue_mp dequeue_sc dequeue_mc dequeue_mc_weak answer enqueue_sp
  perform_call-Holds q xs (put_sp x) h =
      let (t, e, g) = enqueue_sp-Holds q x xs h in (t, rw e refl, g)
  perform_call-Holds q xs (put_mp x) h =
      let (t, e, g) = enqueue_sp-Holds q x xs h in (t, rw e refl, g)
  perform_call-Holds q xs take_sc h = dequeues q xs h fault
  perform_call-Holds q xs take_mc h = dequeues q xs h spin
  perform_call-Holds q xs take_mc_weak h = dequeues q xs h (done (none, q))

  run-Holds :
      (q : ListQueue A) (xs : List A) (cs : List (Call A))
      → Holds q xs
      → run q cs ≡ done (answers xs cs)
  unfolding run answers
  run-Holds q xs [] h = refl
  run-Holds q xs (c ∷ cs) h =
      let (t, e, g) = perform_call-Holds q xs c h in rw (e, run-Holds t (answer xs c).1 cs g) refl

  -- A new queue cannot be told from a list: to every sequence of calls, by one producer or many and with all three kinds
  -- of dequeue, it answers what a first-in-first-out list of the elements answers, and no call waits or fails.
  pub run-create_queue :
      (blank : A) (cs : List (Call A)) → run (create_queue blank) cs ≡ done (answers [] cs)
  run-create_queue blank cs = run-Holds (create_queue blank) [] cs (create_queue-Holds blank)
