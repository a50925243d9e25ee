-- ===== src/Core/ListNodeAllocator/Alloc.antt =====
-- What `alloc` and `free` do to the free list and to the nodes outside it.
use mathlib.Core.List.{append_assoc}
use ustevent.Prelude.{
  ℕ, suc, ◌+◌, ◌-◌, ◌<◌, ◌≤◌, ◌≡◌, ◌∙◌, inl, refl, sym, ap, subst, true, false, Option, none, some,
  done, ltb, update, List, [], ◌∷◌, ◌++◌, arith,
}
use ustevent.Core.ListNodeAllocator.{
  ListNodeAllocator, blank_nodes, try_dequeue_free_list, link_nodes, grow, alloc, free,
}
use ustevent.Core.ListNodeAllocator.Chains.{
  has, Distinct, Linked, last, Below, has-append, has-last, Below-has, Distinct-rotate,
  Linked-update, update-outside, Linked-append, Distinct-append, Distinct-left, Distinct-right,
  Distinct-apart, Distinct-apart', Below-append, Below-left, Below-right, Below-le, down, has-down,
  Distinct-down, Below-down, last-down, link_nodes-Linked, link_nodes-outside, last-append,
}

-- The free list is `f ∷ fs`, and the nodes `q` are apart from it.
pub record Pool {A : Type 0} (s : ListNodeAllocator A) (q : List ℕ) (f : ℕ) (fs : List ℕ)
    : Type 0 where
  pub size : 2 ≤ s.alloc_size
  pub first : s.free_list_tail ≡ some f
  pub final : s.free_list_head ≡ last f fs
  pub free_chain : Linked s.next (f ∷ fs)
  pub distinct : Distinct (q ++ f ∷ fs)
  pub below : Below s.fresh (q ++ f ∷ fs)

-- A node `n` that `alloc` has returned, in the state `t`: it is neither one of `q` nor in the free list and points
-- nowhere, and the nodes of `q` keep their pointers.
pub record Taken {A : Type 0} (s t : ListNodeAllocator A) (q : List ℕ) (n : ℕ) : Type 0 where
  pub f : ℕ
  pub fs : List ℕ
  pub size : 2 ≤ t.alloc_size
  pub first : t.free_list_tail ≡ some f
  pub final : t.free_list_head ≡ last f fs
  pub free_chain : Linked t.next (f ∷ fs)
  pub blank : t.next n ≡ none
  pub distinct : Distinct (q ++ n ∷ f ∷ fs)
  pub below : Below t.fresh (q ++ n ∷ f ∷ fs)
  pub same_next : (a : ℕ) → has a q ≡ true → t.next a ≡ s.next a
  pub same_value : t.value ≡ s.value
  pub same_head : t.head ≡ s.head
  pub same_tail : t.tail ≡ s.tail

module _ {A : Type 0} (s : ListNodeAllocator A) (q : List ℕ) where
  take_free :
      (f g : ℕ) (fs : List ℕ)
      → Pool s q f (g ∷ fs)
      → (t : ListNodeAllocator A) × (alloc s ≡ done (f, t)) × Taken s t q f
  unfolding alloc try_dequeue_free_list
  take_free f g fs p =
      let d = Distinct-right q (f ∷ g ∷ fs) p.distinct in
      (
        record s { free_list_tail = some g; next = update s.next f none },
        rw (p.first, p.free_chain.0) refl,
        record {
          f = g;
          fs = fs;
          size = p.size;
          first = refl;
          final = p.final;
          same_next = λ a.
              update-outside s.next f none q a
                (Distinct-apart' q (f ∷ g ∷ fs) f p.distinct (ground arith));
          free_chain = Linked-update s.next f none (g ∷ fs) d.0 p.free_chain.1;
          blank = ground arith;
          distinct = p.distinct;
          below = p.below;
          same_value = refl;
          same_head = refl;
          same_tail = refl;
        },
      )

  abbrev grown : ListNodeAllocator A
  grown = record s {
    next =
        update (link_nodes s.fresh (s.alloc_size - 1) (blank_nodes s.next s.fresh s.alloc_size))
          s.free_list_head (some (s.fresh + (s.alloc_size - 1)));
    free_list_head = s.fresh + 1;
    fresh = s.fresh + s.alloc_size;
    storage = s.storage ++ (s.fresh, s.alloc_size) ∷ [];
  }

  -- The pointers after the loop, on the new nodes and on the old ones.
  module _ (k : ℕ) (e : s.alloc_size ≡ suc (suc k)) where
    abbrev looped : ℕ → Option ℕ
    looped = link_nodes s.fresh (suc k) (blank_nodes s.next s.fresh s.alloc_size)

    looped-old : (a : ℕ) → a < s.fresh → looped a ≡ s.next a
    looped-old a h =
        link_nodes-outside s.fresh (suc k) a (blank_nodes s.next s.fresh s.alloc_size) (omega arith)
        ∙ ground arith

    looped-new : Linked looped (down s.fresh (suc k))
    looped-new =
        link_nodes-Linked s.fresh k (blank_nodes s.next s.fresh s.alloc_size) (ground arith)

    looped-first : looped s.fresh ≡ none
    looped-first =
        link_nodes-outside s.fresh (suc k) s.fresh (blank_nodes s.next s.fresh s.alloc_size)
          (omega arith)
        ∙ ground arith

    Distinct-grown : (f : ℕ) → Pool s q f [] → Distinct (q ++ s.fresh ∷ f ∷ down s.fresh (suc k))
    Distinct-grown f p =
        let fresh_f : f < s.fresh = (Below-right s.fresh q (f ∷ []) p.below).0 in
        Distinct-append q (s.fresh ∷ f ∷ down s.fresh (suc k)) (Distinct-left q (f ∷ []) p.distinct)
          (
            ground (arith, has-down s.fresh (suc k) s.fresh (inl (omega arith))),
            (has-down s.fresh (suc k) f (inl (omega arith)), Distinct-down s.fresh (suc k)),
          )
          (λ a i.
            let apart = Distinct-apart q (f ∷ []) a p.distinct i in
            let low = Below-has s.fresh a q (Below-left s.fresh q (f ∷ []) p.below) i in
            let out = has-down s.fresh (suc k) a (inl (omega arith)) in ground arith)

  grow_free :
      (f : ℕ)
      → Pool s q f []
      → (t : ListNodeAllocator A) × (alloc s ≡ done (s.fresh, t)) × Taken s t q s.fresh
  unfolding alloc try_dequeue_free_list grow
  grow_free f p =
      let k = s.alloc_size - 2 in
      let e : s.alloc_size ≡ suc (suc k) = omega (arith, p.size) in
      let e1 : s.alloc_size - 1 ≡ suc k = omega (arith, p.size) in
      let fresh_f : f < s.fresh = (Below-right s.fresh q (f ∷ []) p.below).0 in
      let same : grown.next ≡ update (looped k e) f (some (s.fresh + suc k)) =
        rw (p.final, e1) refl in
      let roomy : ltb s.alloc_size 2 ≡ false = ground (arith, p.size) in
      let outside = has-down s.fresh (suc k) f (inl (omega arith)) in
      (
        grown,
        rw (p.first, p.free_chain, roomy) refl,
        record {
          f = f;
          fs = down s.fresh (suc k);
          size = p.size;
          first = p.first;
          final = sym (last-down f s.fresh k);
          same_next = λ a i.
              ap (λ m. m a) same
              ∙ update-outside (looped k e) f (some (s.fresh + suc k)) q a
                  (Distinct-apart' q (f ∷ []) f p.distinct (ground arith)) i
              ∙ looped-old k e a (Below-has s.fresh a q (Below-left s.fresh q (f ∷ []) p.below) i);
          free_chain =
              subst (λ m. Linked m (f ∷ down s.fresh (suc k))) (sym same)
                (
                  ground arith,
                  Linked-update (looped k e) f (some (s.fresh + suc k)) (down s.fresh (suc k))
                      outside (looped-new k e),
                );
          blank = subst (λ m. m s.fresh ≡ none) (sym same) (ground (arith, looped-first k e));
          distinct = Distinct-grown k e f p;
          below =
              Below-append (s.fresh + s.alloc_size) q (s.fresh ∷ f ∷ down s.fresh (suc k))
                (Below-le s.fresh (s.fresh + s.alloc_size) q (omega arith)
                  (Below-left s.fresh q (f ∷ []) p.below))
                (
                  omega (arith, p.size),
                  (omega arith, Below-down s.fresh (suc k) (s.fresh + s.alloc_size) (omega arith)),
                );
          same_value = refl;
          same_head = refl;
          same_tail = refl;
        },
      )

  -- `alloc` returns a node that is neither one of `q` nor in the free list.
  pub alloc-Taken :
      (f : ℕ) (fs : List ℕ)
      → Pool s q f fs
      → (n : ℕ) × (t : ListNodeAllocator A) × (alloc s ≡ done (n, t)) × Taken s t q n
  alloc-Taken f [] p = let (t, e, h) = grow_free f p in (s.fresh, t, e, h)
  alloc-Taken f (g ∷ fs) p = let (t, e, h) = take_free f g fs p in (f, t, e, h)

  -- A node `n` outside `q` and the free list that is freed is the last one of the free list.
  pub free-Pool :
      (n f : ℕ) (fs : List ℕ)
      → 2 ≤ s.alloc_size
      → s.free_list_tail ≡ some f
      → s.free_list_head ≡ last f fs
      → Linked s.next (f ∷ fs)
      → Distinct (n ∷ q ++ f ∷ fs)
      → Below s.fresh (n ∷ q ++ f ∷ fs)
      → Pool (free s n) q f (fs ++ n ∷ [])
  unfolding free
  free-Pool n f fs size first final free_chain distinct below =
      let out_f : has n (f ∷ fs) ≡ false = ground (arith, has-append n q (f ∷ fs)) in
      record {
        size = size;
        first = first;
        final = sym (last-append f n fs);
        free_chain =
            subst (λ h. Linked (update (update s.next n none) h (some n)) (f ∷ fs ++ n ∷ []))
              (sym final)
              (Linked-append (update s.next n none) n f fs out_f
                (Distinct-right q (f ∷ fs) distinct.1) (ground arith)
                (Linked-update s.next n none (f ∷ fs) out_f free_chain));
        distinct =
            subst Distinct (append_assoc q (f ∷ fs) (n ∷ []))
              (Distinct-rotate n (q ++ f ∷ fs) distinct);
        below =
            subst (Below s.fresh) (append_assoc q (f ∷ fs) (n ∷ []))
              (Below-append s.fresh (q ++ f ∷ fs) (n ∷ []) below.1 (below.0, tt));
      }

  -- The nodes of `q` keep their pointers.
  pub free-next :
      (n f : ℕ) (fs : List ℕ)
      → s.free_list_head ≡ last f fs
      → Distinct (n ∷ q ++ f ∷ fs)
      → (a : ℕ) → has a q ≡ true
      → (free s n).next a ≡ s.next a
  unfolding free
  free-next n f fs final distinct a i =
      let out_q : has n q ≡ false = ground (arith, has-append n q (f ∷ fs)) in
      let out_h : has s.free_list_head q ≡ false =
        subst (λ h. has h q ≡ false) (sym final)
          (Distinct-apart' q (f ∷ fs) (last f fs) distinct.1 (has-last f fs)) in
      update-outside (update s.next n none) s.free_list_head (some n) q a out_h i
      ∙ update-outside s.next n none q a out_q i
