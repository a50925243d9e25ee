-- ===== src/Core/ThreadLocalStorage/Lives.antt =====
-- Objects and threads that come and go.
use ustevent.Prelude.{
  ℕ, suc, ◌+◌, ◌<◌, ◌≡◌, ◌⊎◌, ◌∙◌, refl, sym, ap, subst, arith, true, false, ◌||◌, List, [], ◌∷◌,
  ◌++◌, ◌==◌, length, set, get_or, Bool-cases, inl, inr, length-append, length-set, All,
}
use ustevent.Core.ListNodeAllocator.Chains.{has, has-append, Distinct, Distinct-extract}
use ustevent.Core.ThreadLocalStorage.{Owner, Storage, destruct, exit_thread, erase}
use ustevent.Core.ThreadLocalStorage.Slots.{
  slot, slot-destruct, slot-destruct_other, get_or-set_self, get_or-set_ne, get_or-in_range,
}
use ustevent.Core.ThreadLocalStorage.Owners.{indices, owner_at, Belongs, Valid}

-- An object is taken out of the middle.
indices-append : (xs ys : List Owner) → indices (xs ++ ys) ≡ indices xs ++ indices ys
indices-append [] ys = refl
indices-append (x ∷ xs) ys = ap (◌∷◌ x.my_index) (indices-append xs ys)

All-extract {ℓ κ} :
    {A : Type ℓ} (P : A → Type κ) (xs ys : List A) (x : A)
    → All P (xs ++ x ∷ ys)
    → P x × All P (xs ++ ys)
All-extract P [] ys x h = h
All-extract P (z ∷ xs) ys x h = let (p, rest) = All-extract P xs ys x h.1 in (p, (h.0, rest))

no_length {ℓ} : {A : Type ℓ} (P : List A → Type 0) (xs : List A) → length xs ≡ 0 → P [] → P xs
no_length P [] h p = p
no_length P (x ∷ xs) h p = absurd (omega arith)

module _ {A : Type 0} (a : A) (s : Storage A) (o : Owner) (xs ys : List Owner)
    (v : Valid a s (xs ++ o ∷ ys)) where
  rest : List Owner
  rest = xs ++ ys

  pub apart-rest : Distinct (o.my_index ∷ indices (xs ++ ys))
  apart-rest =
      subst (λ l. Distinct (o.my_index ∷ l)) (sym (indices-append xs ys))
        (Distinct-extract o.my_index (indices xs) (indices ys)
          (subst Distinct (indices-append xs (o ∷ ys)) v.apart))

  pub own : (owner_at s o.my_index ≡ o.my_id) × (0 < o.my_id)
  own = (All-extract (λ o. (owner_at s o.my_index ≡ o.my_id) × (0 < o.my_id)) xs ys o v.alive).0

  -- What is owned by another object.
  covered-rest :
      (i : ℕ) → (o.my_index == i) ≡ false → (owner_at s i ≡ 0) ⊎ (has i (indices (xs ++ ys)) ≡ true)
  covered-rest i e = elim (v.covered i) [
    | inl z ↦ inl z
    | inr z ↦ inr (
        rw (indices-append xs ys) (
          let w : has i (indices xs ++ o.my_index ∷ indices ys) ≡ true =
            subst (λ l. has i l ≡ true) (indices-append xs (o ∷ ys)) z in
          ground (
            arith,
            has-append i (indices xs) (o.my_index ∷ indices ys),
            has-append i (indices xs) (indices ys),
          )))
  ]

  -- The nodes after the destructor; `threads` is the set.
  nodes-other :
      (u i : ℕ)
      → (o.my_index == i) ≡ false
      → Belongs (slot a (destruct a s o).1 u i) (owner_at s i) u s.thread_locals
  nodes-other u i e = rw (slot-destruct_other a s o u i e) (v.nodes u i)

  nodes-own : (u : ℕ) → (slot a (destruct a s o).1 u o.my_index).owner_id ≡ 0
  nodes-own u =
      slot-destruct a s o u
        (elim (v.nodes u o.my_index) [ inl z ↦ inl z | inr z ↦ inr (z.0 ∙ own.0, z.1) ])

  count-rest : length (xs ++ ys) + suc (length s.available) ≡ length s.owners
  count-rest = omega (arith, v.count, length-append xs (o ∷ ys), length-append xs ys)

  abbrev released : List ℕ → List ℕ → Storage A
  unfolding destruct
  released available owners = record s {
    values = (destruct a s o).1.values;
    available = available;
    owners = owners;
  }

  in_range : o.my_index < length s.owners
  in_range =
      get_or-in_range s.owners o.my_index 0 (λ z. let (at, positive) = own in absurd (omega arith))

  free-rest :
      (available : List ℕ)
      → All (λ i. (owner_at s i ≡ 0) × (i < length s.owners)) available
      → (has o.my_index available ≡ false)
        × All
            (λ i.
              (get_or (set s.owners o.my_index 0) i 0 ≡ 0)
              × (i < length (set s.owners o.my_index 0)))
            available
  free-rest [] h = (refl, tt)
  free-rest (i ∷ available) h =
      let (out, all) = free-rest available h.1 in
      let ne : (o.my_index == i) ≡ false = elim (Bool-cases (o.my_index == i)) [
        | inr e ↦ e
        | inl e ↦
            let same : o.my_index ≡ i = ground arith in
            let z : owner_at s o.my_index ≡ 0 = subst (λ k. owner_at s k ≡ 0) (sym same) h.0.0 in
            let (at, positive) = own in absurd (omega arith)
      ] in
      (
        ground arith,
        (
          (
            get_or-set_ne s.owners o.my_index i 0 0 ne ∙ h.0.0,
            rw (length-set s.owners o.my_index 0) h.0.1,
          ),
          all,
        ),
      )

  cleared : get_or (set s.owners o.my_index 0) o.my_index 0 ≡ 0
  cleared = get_or-set_self s.owners o.my_index 0 0 in_range

  released-Valid :
      Valid a (released (o.my_index ∷ s.available) (set s.owners o.my_index 0)) (xs ++ ys)
  unfolding destruct
  released-Valid = record {
    id_pos = v.id_pos;
    count = omega (arith, count-rest, length-set s.owners o.my_index 0);
    alive =
        still (xs ++ ys) apart-rest.0
          (All-extract (λ o. (owner_at s o.my_index ≡ o.my_id) × (0 < o.my_id)) xs ys o v.alive).1;
    apart = apart-rest.1;
    free = (
      (cleared, rw (length-set s.owners o.my_index 0) in_range),
      (free-rest s.available v.free).1,
    );
    distinct = ((free-rest s.available v.free).0, v.distinct);
    covered = λ i. elim (Bool-cases (o.my_index == i)) [
      | inl e ↦
          let at : o.my_index ≡ i = ground arith in
          inl (subst (λ k. get_or (set s.owners o.my_index 0) k 0 ≡ 0) at cleared)
      | inr e ↦ elim (covered-rest i e) [
        | inl z ↦ inl (get_or-set_ne s.owners o.my_index i 0 0 e ∙ z)
        | inr z ↦ inr z
      ]
    ];
    nodes = λ u i. elim (Bool-cases (o.my_index == i)) [
      | inl e ↦
          let at : o.my_index ≡ i = ground arith in
          inl (subst (λ k. (slot a (destruct a s o).1 u k).owner_id ≡ 0) at (nodes-own u))
      | inr e ↦ elim (nodes-other u i e) [
        | inl z ↦ inl z
        | inr z ↦ inr (z.0 ∙ sym (get_or-set_ne s.owners o.my_index i 0 0 e), z.1)
      ]
    ];
  }
    where
      still :
          (objects : List Owner)
          → has o.my_index (indices objects) ≡ false
          → All (λ p. (owner_at s p.my_index ≡ p.my_id) × (0 < p.my_id)) objects
          → All
              (λ p. (get_or (set s.owners o.my_index 0) p.my_index 0 ≡ p.my_id) × (0 < p.my_id))
              objects
      still [] out h = tt
      still (p ∷ objects) out h = (
        (get_or-set_ne s.owners o.my_index p.my_index 0 0 (ground arith) ∙ h.0.0, h.0.1),
        still objects (ground arith) h.1,
      )

  -- No object is left, and the two vectors are emptied.
  emptied-Valid : length (xs ++ ys) ≡ 0 → Valid a (released [] []) (xs ++ ys)
  unfolding destruct
  emptied-Valid none_left = record {
    id_pos = v.id_pos;
    count = omega arith;
    alive = no_length (All (λ p. (0 ≡ p.my_id) × (0 < p.my_id))) (xs ++ ys) none_left tt;
    apart = apart-rest.1;
    free = tt;
    distinct = tt;
    covered = λ i. inl refl;
    nodes = λ u i. elim (Bool-cases (o.my_index == i)) [
      | inl e ↦
          let at : o.my_index ≡ i = ground arith in
          inl (subst (λ k. (slot a (destruct a s o).1 u k).owner_id ≡ 0) at (nodes-own u))
      | inr e ↦ inl (elim (nodes-other u i e) [
        | inl z ↦ z
        | inr z ↦ elim (covered-rest i e) [
          | inl w ↦ z.0 ∙ w
          | inr w ↦
              let no : has i (indices (xs ++ ys)) ≡ false =
                no_length (λ l. has i (indices l) ≡ false) (xs ++ ys) none_left refl in
              absurd (ground arith)
        ]
      ])
    ];
  }

  pub destruct-Valid : Valid a (destruct a s o).1 (xs ++ ys)
  unfolding destruct
  destruct-Valid =
      elim (Bool-cases (suc (length s.available) == length (set s.owners o.my_index 0))) [
        | inl e ↦ simp e (
            emptied-Valid (
              let full : suc (length s.available) ≡ length (set s.owners o.my_index 0) =
                ground arith in
              omega (arith, count-rest, length-set s.owners o.my_index 0)))
        | inr e ↦ simp e released-Valid
      ]

-- A thread that ends, with its vector.
has-erase :
    (t u : ℕ) (threads : List ℕ) → (t == u) ≡ false → has u (erase t threads) ≡ has u threads
has-erase t u [] h = refl
has-erase t u (w ∷ threads) h = elim (Bool-cases (w == t)) [
  | inl e ↦ simp e (has-erase t u threads h ∙ ground arith)
  | inr e ↦ simp e (ap (λ b. (u == w) || b) (has-erase t u threads h))
]

module _ {A : Type 0} (a : A) where
  pub exit_thread-Valid :
      (s : Storage A) (t : ℕ) (live : List Owner)
      → Valid a s live
      → Valid a (exit_thread s t).1 live
  unfolding exit_thread
  exit_thread-Valid s t live v = record {
    id_pos = v.id_pos;
    count = v.count;
    alive = v.alive;
    apart = v.apart;
    free = v.free;
    distinct = v.distinct;
    covered = v.covered;
    nodes = λ u i. elim (Bool-cases (t == u)) [
      | inl e ↦ simp e (inl refl)
      | inr e ↦ elim (v.nodes u i) [
        | inl z ↦ simp e (inl z)
        | inr z ↦ simp e (inr (z.0, has-erase t u s.thread_locals e ∙ z.1))
      ]
    ];
  }
