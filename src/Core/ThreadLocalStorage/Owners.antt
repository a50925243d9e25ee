-- ===== src/Core/ThreadLocalStorage/Owners.antt =====
-- The indices: no two objects that are alive share one, and the nodes of an index belong to its object.
use ustevent.Prelude.{
  ℕ, suc, ◌+◌, ◌<◌, ◌≡◌, ◌⊎◌, ◌∙◌, refl, sym, ap, subst, arith, Bool, true, false, ◌&&◌, Option,
  List, [], ◌∷◌, ◌++◌, ◌==◌, length, set, get_or, Bool-cases, inl, inr, length-append, length-set,
  All, map,
}
use ustevent.Core.ListNodeAllocator.Chains.{has, Distinct}
use ustevent.Core.ThreadLocalStorage.{
  Node, Owner, Storage, blank, empty_storage, index_of, construct, owned, get, enter_thread,
}
use ustevent.Core.ThreadLocalStorage.Slots.{
  slot, slot-get, get_or-set_self, get_or-set_ne, get_or-length, get_or-last, get_or-append,
}

abbrev pub indices : List Owner → List ℕ
indices = map (λ o. o.my_index)

module _ {A : Type 0} where
  -- The object that an index belongs to; 0 if none.
  abbrev pub owner_at : Storage A → ℕ → ℕ
  owner_at s i = get_or s.owners i 0

  -- A node has no owner, or that of its index, and then its thread is one of the set.
  abbrev pub Belongs : Node A → ℕ → ℕ → List ℕ → Type 0
  Belongs node owner u threads =
      (node.owner_id ≡ 0) ⊎ ((node.owner_id ≡ owner) × (has u threads ≡ true))

  -- The objects that are alive are `live`.
  pub record Valid (a : A) (s : Storage A) (live : List Owner) : Type 0 where
    pub id_pos : 0 < s.id
    pub count : length live + length s.available ≡ length s.owners
    pub alive : All (λ o. (owner_at s o.my_index ≡ o.my_id) × (0 < o.my_id)) live
    pub apart : Distinct (indices live)
    pub free : All (λ i. (owner_at s i ≡ 0) × (i < length s.owners)) s.available
    pub distinct : Distinct s.available
    pub covered : (i : ℕ) → (owner_at s i ≡ 0) ⊎ (has i (indices live) ≡ true)
    pub nodes : (u i : ℕ) → Belongs (slot a s u i) (owner_at s i) u s.thread_locals

  pub empty-Valid : (a : A) → Valid a empty_storage []
  empty-Valid a = record {
    id_pos = omega arith;
    count = omega arith;
    alive = tt;
    apart = tt;
    free = tt;
    distinct = tt;
    covered = λ i. inl refl;
    nodes = λ u i. inl refl;
  }

  -- A state in which an index that has no owner is given to the next object.
  module _ (a : A) (s : Storage A) (live : List Owner) (v : Valid a s live) where
    -- The index has no owner, so no living object has it.
    unused :
        (index : ℕ) (objects : List Owner)
        → All (λ o. (owner_at s o.my_index ≡ o.my_id) × (0 < o.my_id)) objects
        → owner_at s index ≡ 0
        → has index (indices objects) ≡ false
    unused index [] h e = refl
    unused index (o ∷ objects) h e = elim (Bool-cases (index == o.my_index)) [
      | inl f ↦
          let same : index ≡ o.my_index = ground arith in
          let z : owner_at s o.my_index ≡ 0 = subst (λ k. owner_at s k ≡ 0) same e in
          absurd (omega arith)
      | inr f ↦ simp f (unused index objects h.1 e)
    ]

    -- The objects keep their indices where the owners of other indices stay.
    kept :
        (index : ℕ) (t : Storage A) (objects : List Owner)
        → ((i : ℕ) → (index == i) ≡ false → owner_at t i ≡ owner_at s i)
        → has index (indices objects) ≡ false
        → All (λ o. (owner_at s o.my_index ≡ o.my_id) × (0 < o.my_id)) objects
        → All (λ o. (owner_at t o.my_index ≡ o.my_id) × (0 < o.my_id)) objects
    kept index t [] same out h = tt
    kept index t (o ∷ objects) same out h = (
      (same o.my_index (ground arith) ∙ h.0.0, h.0.1),
      kept index t objects same (ground arith) h.1,
    )

    given-Valid :
        (t : Storage A) (o : Owner)
        → o.my_id ≡ s.id
        → owner_at s o.my_index ≡ 0
        → owner_at t o.my_index ≡ s.id
        → ((i : ℕ) → (o.my_index == i) ≡ false → owner_at t i ≡ owner_at s i)
        → t.values ≡ s.values
        → t.thread_locals ≡ s.thread_locals
        → t.id ≡ s.id + 1
        → All (λ i. (owner_at t i ≡ 0) × (i < length t.owners)) t.available
        → Distinct t.available
        → suc (length live) + length t.available ≡ length t.owners
        → Valid a t (o ∷ live)
    given-Valid t o own before after same values threads id free distinct count = record {
      id_pos = omega (arith, v.id_pos);
      count = count;
      alive = (
        (after ∙ sym own, omega (arith, v.id_pos)),
        kept o.my_index t live same (unused o.my_index live v.alive before) v.alive,
      );
      apart = (unused o.my_index live v.alive before, v.apart);
      free = free;
      distinct = distinct;
      covered = λ i. elim (Bool-cases (o.my_index == i)) [
        | inl e ↦ inr (ground arith)
        | inr e ↦ elim (v.covered i) [ inl z ↦ inl (same i e ∙ z) | inr z ↦ inr (ground arith) ]
      ];
      nodes = λ u i.
          subst
            (λ w.
              ((get_or (w u) i (blank a)).owner_id ≡ 0)
              ⊎ (((get_or (w u) i (blank a)).owner_id ≡ owner_at t i)
                  × (has u t.thread_locals ≡ true)))
            (sym values)
            (elim (v.nodes u i) [
              | inl z ↦ inl z
              | inr z ↦ elim (Bool-cases (o.my_index == i)) [
                | inl e ↦
                    let at : o.my_index ≡ i = ground arith in
                    inl (z.0 ∙ subst (λ k. owner_at s k ≡ 0) at before)
                | inr e ↦ inr (z.0 ∙ sym (same i e), subst (λ l. has u l ≡ true) (sym threads) z.1)
              ]
            ]);
    }

    free-set :
        (index : ℕ) (rest : List ℕ)
        → has index rest ≡ false
        → All (λ i. (owner_at s i ≡ 0) × (i < length s.owners)) rest
        → All
            (λ i.
              (get_or (set s.owners index s.id) i 0 ≡ 0) × (i < length (set s.owners index s.id)))
            rest
    free-set index [] out h = tt
    free-set index (i ∷ rest) out h = (
      (
        get_or-set_ne s.owners index i s.id 0 (ground arith) ∙ h.0.0,
        rw (length-set s.owners index s.id) h.0.1,
      ),
      free-set index rest (ground arith) h.1,
    )

    index_of-Valid :
        (available : List ℕ)
        → s.available ≡ available
        → (d : Bool) (r : Option ℕ)
        → let (index, t) = index_of s available in
          Valid a t
            (record { has_default = d; return_function = r; my_id = s.id; my_index = index } ∷ live)
          × (owner_at s index ≡ 0)
    index_of-Valid [] e d r = (
      given-Valid (index_of s []).1
          (record {
            has_default = d;
            return_function = r;
            my_id = s.id;
            my_index = length s.owners;
          })
          refl (get_or-length s.owners 0) (get_or-last s.owners s.id 0)
          (λ i f. get_or-append s.owners i s.id 0 f) refl refl refl
          (subst
            (All (λ i.
              (get_or (s.owners ++ s.id ∷ []) i 0 ≡ 0) × (i < length (s.owners ++ s.id ∷ []))))
            (sym e) tt)
          v.distinct (omega (arith, v.count, length-append s.owners (s.id ∷ []))),
      get_or-length s.owners 0,
    )
    index_of-Valid (index ∷ rest) e d r =
        let free = subst (All (λ i. (owner_at s i ≡ 0) × (i < length s.owners))) e v.free in
        let distinct = subst Distinct e v.distinct in
        let n : length s.available ≡ suc (length rest) = ap length e in
        (
          given-Valid (index_of s (index ∷ rest)).1
              (record { has_default = d; return_function = r; my_id = s.id; my_index = index }) refl
              free.0.0 (get_or-set_self s.owners index s.id 0 free.0.1)
              (λ i f. get_or-set_ne s.owners index i s.id 0 f) refl refl refl
              (free-set index rest distinct.0 free.1) distinct.1
              (omega (arith, v.count, length-set s.owners index s.id)),
          free.0.0,
        )

    -- A new object: its index has had no owner.
    pub construct-Valid :
        (d : Bool) (r : Option ℕ)
        → Valid a (construct s d r).1 ((construct s d r).0 ∷ live)
          × (owner_at s (construct s d r).0.my_index ≡ 0)
    unfolding construct
    construct-Valid d r = index_of-Valid s.available refl d r

    pub has-enter_thread :
        (threads : List ℕ) (t u : ℕ) → t ≡ u → has u (enter_thread threads t) ≡ true
    has-enter_thread threads t u e = elim (Bool-cases (has t threads)) [
      | inl f ↦ simp f (subst (λ k. has k threads ≡ true) e f)
      | inr f ↦ simp f (ground arith)
    ]

    entered-Belongs :
        (t u : ℕ) (node : Node A) (owner : ℕ)
        → Belongs node owner u s.thread_locals
        → Belongs node owner u (enter_thread s.thread_locals t)
    entered-Belongs t u node owner (inl z) = inl z
    entered-Belongs t u node owner (inr (z, h)) = inr (
      z,
      elim (Bool-cases (has t s.thread_locals)) [
        | inl f ↦ simp f h
        | inr f ↦ simp f (ground arith)
      ],
    )

    -- `get` of an object that is alive.
    pub get-Valid :
        (o : Owner) (t : ℕ) (fresh : A)
        → owner_at s o.my_index ≡ o.my_id
        → Valid a (get a s o t fresh).1 live
    unfolding get
    get-Valid o t fresh at = record {
      id_pos = v.id_pos;
      count = v.count;
      alive = v.alive;
      apart = v.apart;
      free = v.free;
      distinct = v.distinct;
      covered = v.covered;
      nodes = λ u i.
          subst (λ node. Belongs node (owner_at s i) u (enter_thread s.thread_locals t))
            (sym (slot-get a s o t fresh u i))
            (elim (Bool-cases ((t == u) && (o.my_index == i))) [
              | inl e ↦ simp e (touched u i (ground arith) (ground arith))
              | inr e ↦ simp e (entered-Belongs t u (slot a s u i) (owner_at s i) (v.nodes u i))
            ]);
    }
      where
        touched :
            (u i : ℕ)
            → t ≡ u
            → o.my_index ≡ i
            → Belongs
                (owned o fresh (slot a s t o.my_index))
                (owner_at s i)
                u
                (enter_thread s.thread_locals t)
        touched u i e f = elim (Bool-cases ((slot a s t o.my_index).owner_id == 0)) [
          | inl z ↦
              simp z (inr (sym at ∙ ap (owner_at s) f, has-enter_thread s.thread_locals t u e))
          | inr z ↦ simp z (elim (v.nodes t o.my_index) [
            | inl zero_id ↦ absurd (ground arith)
            | inr y ↦ inr (y.0 ∙ ap (owner_at s) f, has-enter_thread s.thread_locals t u e)
          ])
        ]
