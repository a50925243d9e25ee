-- ===== src/Core/ThreadLocalStorage/Slots.antt =====
-- The nodes of the threads: what each call does to each of them.
use ustevent.Prelude.{
  ℕ, zero, suc, ◌+◌, ◌-◌, ◌<◌, ◌≡◌, ◌≢◌, ◌⊎◌, ◌∙◌, refl, sym, ap, subst, arith, true, false, ◌&&◌,
  List, [], ◌∷◌, ◌++◌, ◌==◌, ltb, if◌then◌else◌, length, set, get_or, replicate, Bool-cases, inl,
  inr, length-append, length-replicate,
}
use ustevent.Core.ListNodeAllocator.Chains.{has}
use ustevent.Core.ThreadLocalStorage.{
  Node, Owner, Storage, blank, room, owned, get, release_slot, destruct,
}

module _ {ℓ} {A : Type ℓ} where
  pub get_or-set_self :
      (xs : List A) (i : ℕ) (v d : A) → i < length xs → get_or (set xs i v) i d ≡ v
  get_or-set_self [] i v d h = absurd (omega arith)
  get_or-set_self (x ∷ xs) zero v d h = refl
  get_or-set_self (x ∷ xs) (suc i) v d h = get_or-set_self xs i v d (omega arith)

  pub get_or-set_ne :
      (xs : List A) (i j : ℕ) (v d : A) → (i == j) ≡ false → get_or (set xs i v) j d ≡ get_or xs j d
  get_or-set_ne [] i j v d h = refl
  get_or-set_ne (x ∷ xs) zero zero v d h = absurd (ground arith)
  get_or-set_ne (x ∷ xs) zero (suc j) v d h = refl
  get_or-set_ne (x ∷ xs) (suc i) zero v d h = refl
  get_or-set_ne (x ∷ xs) (suc i) (suc j) v d h = get_or-set_ne xs i j v d (ground arith)

  pub get_or-length : (xs : List A) (d : A) → get_or xs (length xs) d ≡ d
  get_or-length [] d = refl
  get_or-length (x ∷ xs) d = get_or-length xs d

  pub get_or-last : (xs : List A) (v d : A) → get_or (xs ++ v ∷ []) (length xs) d ≡ v
  get_or-last [] v d = refl
  get_or-last (x ∷ xs) v d = get_or-last xs v d

  pub get_or-append :
      (xs : List A) (i : ℕ) (v d : A)
      → (length xs == i) ≡ false
      → get_or (xs ++ v ∷ []) i d ≡ get_or xs i d
  get_or-append [] zero v d h = absurd (ground arith)
  get_or-append [] (suc i) v d h = refl
  get_or-append (x ∷ xs) zero v d h = refl
  get_or-append (x ∷ xs) (suc i) v d h = get_or-append xs i v d (ground arith)

  pub get_or-in_range : (xs : List A) (i : ℕ) (d : A) → get_or xs i d ≢ d → i < length xs
  get_or-in_range [] i d h = absurd (h refl)
  get_or-in_range (x ∷ xs) zero d h = omega arith
  get_or-in_range (x ∷ xs) (suc i) d h = omega (arith, get_or-in_range xs i d h)

  -- Elements that are appended and are the default change nothing.
  pub get_or-replicate : (n i : ℕ) (d : A) → get_or (replicate n d) i d ≡ d
  get_or-replicate zero i d = refl
  get_or-replicate (suc n) zero d = refl
  get_or-replicate (suc n) (suc i) d = get_or-replicate n i d

  pub get_or-resize :
      (xs : List A) (n i : ℕ) (d : A) → get_or (xs ++ replicate n d) i d ≡ get_or xs i d
  get_or-resize [] n i d = get_or-replicate n i d
  get_or-resize (x ∷ xs) n zero d = refl
  get_or-resize (x ∷ xs) n (suc i) d = get_or-resize xs n i d

module _ {A : Type 0} (a : A) where
  -- The node of a thread at an index; one that is not there yet is blank.
  abbrev pub slot : Storage A → ℕ → ℕ → Node A
  slot s t i = get_or (s.values t) i (blank a)

  get_or-room :
      (v : List (Node A)) (n i : ℕ) → get_or (room a v n) i (blank a) ≡ get_or v i (blank a)
  get_or-room v n i = elim (Bool-cases (ltb n (length v))) [
    | inl e ↦ simp e refl
    | inr e ↦ simp e (get_or-resize v (n + 1 - length v) i (blank a))
  ]

  length-room : (v : List (Node A)) (n : ℕ) → n < length (room a v n)
  length-room v n = elim (Bool-cases (ltb n (length v))) [
    | inl e ↦ simp e (ground arith)
    | inr e ↦ simp e (
        rw
          (
            length-append v (replicate (n + 1 - length v) (blank a)),
            length-replicate (n + 1 - length v) (blank a),
          )
          (ground arith))
  ]

  -- `get` writes the node of the object and the thread, and no other.
  pub slot-get :
      (s : Storage A) (o : Owner) (t : ℕ) (fresh : A) (u i : ℕ)
      → slot (get a s o t fresh).1 u i ≡ (
          if (t == u) && (o.my_index == i) then owned o fresh (slot s t o.my_index) else slot s u i)
  unfolding get
  slot-get s o t fresh u i =
      let v = room a (s.values t) o.my_index in
      let node = owned o fresh (get_or v o.my_index (blank a)) in
      elim (Bool-cases (t == u)) [
        | inr e ↦ simp e refl
        | inl e ↦ elim (Bool-cases (o.my_index == i)) [
          | inr f ↦
              let same : t ≡ u = ground arith in
              simp (e, f)
                (get_or-set_ne v o.my_index i node (blank a) f
                  ∙ get_or-room (s.values t) o.my_index i
                  ∙ ap (λ k. slot s k i) same)
          | inl f ↦
              let same : o.my_index ≡ i = ground arith in
              simp (e, f)
                (subst (λ k. get_or (set v o.my_index node) k (blank a) ≡ node) same
                    (get_or-set_self v o.my_index node (blank a)
                      (length-room (s.values t) o.my_index))
                  ∙ ap (owned o fresh) (get_or-room (s.values t) o.my_index o.my_index))
        ]
      ]

  pub value-get :
      (s : Storage A) (o : Owner) (t : ℕ) (fresh : A)
      → (get a s o t fresh).0 ≡ (owned o fresh (slot s t o.my_index)).value
  unfolding get
  value-get s o t fresh =
      ap (λ node. (owned o fresh node).value) (get_or-room (s.values t) o.my_index o.my_index)

  get_or-out :
      (v : List (Node A)) (i : ℕ) → ltb i (length v) ≡ false → get_or v i (blank a) ≡ blank a
  get_or-out [] i h = refl
  get_or-out (x ∷ v) zero h = absurd (ground arith)
  get_or-out (x ∷ v) (suc i) h = get_or-out v i (ground arith)

  -- The destructor leaves every node at another index.
  pub slot-destruct_other :
      (s : Storage A) (o : Owner) (u i : ℕ)
      → (o.my_index == i) ≡ false
      → slot (destruct a s o).1 u i ≡ slot s u i
  unfolding destruct
  slot-destruct_other s o u i h = elim (Bool-cases (has u s.thread_locals)) [
    | inr e ↦ simp e refl
    | inl e ↦
        simp e
          (elim (Bool-cases
            (ltb o.my_index (length (s.values u)) && ((slot s u o.my_index).owner_id == o.my_id))) [
              | inr f ↦ simp f refl
              | inl f ↦ simp f (get_or-set_ne (s.values u) o.my_index i _ (blank a) h)
            ])
  ]

  release_slot-owner_id :
      (o : Owner) (v : List (Node A))
      → ((get_or v o.my_index (blank a)).owner_id ≡ 0)
        ⊎ ((get_or v o.my_index (blank a)).owner_id ≡ o.my_id)
      → (get_or (release_slot a o v) o.my_index (blank a)).owner_id ≡ 0
  release_slot-owner_id o v h =
      let node = get_or v o.my_index (blank a) in
      elim (Bool-cases (ltb o.my_index (length v))) [
        | inr e ↦ simp e (ap (λ x. x.owner_id) (get_or-out v o.my_index e))
        | inl e ↦ elim (Bool-cases (node.owner_id == o.my_id)) [
          | inl f ↦
              simp (e, f)
                (ap (λ x. x.owner_id)
                  (get_or-set_self v o.my_index (record node { owner_id = 0 }) (blank a)
                    (ground arith)))
          | inr f ↦ simp (e, f) (elim h [ inl z ↦ z | inr z ↦ absurd (ground arith) ])
        ]
      ]

  -- A node of the object that is destroyed has no owner any more.
  pub slot-destruct :
      (s : Storage A) (o : Owner) (u : ℕ)
      → ((slot s u o.my_index).owner_id ≡ 0)
        ⊎ (((slot s u o.my_index).owner_id ≡ o.my_id) × (has u s.thread_locals ≡ true))
      → (slot (destruct a s o).1 u o.my_index).owner_id ≡ 0
  unfolding destruct
  slot-destruct s o u h = elim (Bool-cases (has u s.thread_locals)) [
    | inl e ↦
        simp e (release_slot-owner_id o (s.values u) (elim h [ inl z ↦ inl z | inr z ↦ inr z.0 ]))
    | inr e ↦
        simp e (elim h [ inl z ↦ z | inr z ↦ let no : true ≡ false = sym z.1 ∙ e in absurd cc ])
  ]
