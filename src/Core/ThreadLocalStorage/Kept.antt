-- ===== src/Core/ThreadLocalStorage/Kept.antt =====
-- Each pair of an object and a thread has its own value, from its first use to the end of one of the two.
use ustevent.Prelude.{
  ℕ, ◌<◌, ◌≡◌, ◌∙◌, refl, sym, ap, subst, arith, Bool, true, false, ◌&&◌, Option, List, [], ◌∷◌,
  ◌++◌, ◌==◌, get_or, Bool-cases, inl, inr,
}
use ustevent.Core.ListNodeAllocator.Chains.{has, Distinct}
use ustevent.Core.ThreadLocalStorage.{
  Node, Owner, Storage, blank, empty_storage, construct, index_of, owned, get, destruct,
  exit_thread,
}
use ustevent.Core.ThreadLocalStorage.Slots.{slot, slot-get, value-get, slot-destruct_other}
use ustevent.Core.ThreadLocalStorage.Owners.{
  indices, Valid, empty-Valid, construct-Valid, get-Valid,
}
use ustevent.Core.ThreadLocalStorage.Lives.{own, apart-rest, destruct-Valid, exit_thread-Valid}

module _ {A : Type 0} (a : A) where
  -- What can have been called, with the objects that are alive.
  pub data Reached : Storage A → List Owner → Type 0 where
    nothing_yet : Reached empty_storage []
    constructs :
        (s : Storage A) (live : List Owner) (d : Bool) (r : Option ℕ)
        → Reached s live
        → Reached (construct s d r).1 ((construct s d r).0 ∷ live)
    gets :
        (s : Storage A) (o : Owner) (xs ys : List Owner) (t : ℕ) (fresh : A)
        → Reached s (xs ++ o ∷ ys)
        → Reached (get a s o t fresh).1 (xs ++ o ∷ ys)
    destructs :
        (s : Storage A) (o : Owner) (xs ys : List Owner)
        → Reached s (xs ++ o ∷ ys)
        → Reached (destruct a s o).1 (xs ++ ys)
    exits :
        (s : Storage A) (live : List Owner) (t : ℕ)
        → Reached s live
        → Reached (exit_thread s t).1 live

  Reached-Valid : (s : Storage A) (live : List Owner) → Reached s live → Valid a s live
  Reached-Valid _ _ nothing_yet = empty-Valid a
  Reached-Valid _ _ (constructs s live d r h) =
      (construct-Valid a s live (Reached-Valid s live h) d r).0
  Reached-Valid _ _ (gets s o xs ys t fresh h) =
      let v = Reached-Valid s (xs ++ o ∷ ys) h in
      get-Valid a s (xs ++ o ∷ ys) v o t fresh (own a s o xs ys v).0
  Reached-Valid _ _ (destructs s o xs ys h) =
      destruct-Valid a s o xs ys (Reached-Valid s (xs ++ o ∷ ys) h)
  Reached-Valid _ _ (exits s live t h) = exit_thread-Valid a s t live (Reached-Valid s live h)

  -- In every state, no two objects that are alive have the same index.
  pub Reached-Distinct :
      (s : Storage A) (live : List Owner) → Reached s live → Distinct (indices live)
  Reached-Distinct s live h = (Reached-Valid s live h).apart

  owned-fresh :
      (o : Owner) (fresh : A) (node : Node A)
      → node.owner_id ≡ 0
      → o.has_default ≡ true
      → (owned o fresh node).value ≡ fresh
  owned-fresh o fresh node e d =
      let z : (node.owner_id == 0) ≡ true = ground arith in simp (z, d) refl

  owned-kept :
      (o : Owner) (fresh : A) (node : Node A) (id : ℕ)
      → node.owner_id ≡ id
      → 0 < id
      → owned o fresh node ≡ node
  owned-kept o fresh node id e h =
      let z : (node.owner_id == 0) ≡ false = ground arith in simp z refl

  values-index_of :
      (s : Storage A) (available : List ℕ) → (index_of s available).1.values ≡ s.values
  values-index_of s [] = refl
  values-index_of s (i ∷ rest) = refl

  values-construct :
      (s : Storage A) (d : Bool) (r : Option ℕ) → (construct s d r).1.values ≡ s.values
  unfolding construct
  values-construct s d r = values-index_of s s.available

  default-construct :
      (s : Storage A) (d : Bool) (r : Option ℕ) → (construct s d r).0.has_default ≡ d
  unfolding construct
  default-construct s d r = refl

  -- Whatever objects and threads have come and gone before, a new object with a function for the default value gives each
  -- thread what that function returns, also where it has the index of an object that has been destroyed.
  pub construct-get :
      (s : Storage A) (live : List Owner) (r : Option ℕ) (t : ℕ) (fresh : A)
      → Reached s live
      → (get a (construct s true r).1 (construct s true r).0 t fresh).0 ≡ fresh
  construct-get s live r t fresh h =
      let (o, u) = construct s true r in
      let v = Reached-Valid s live h in
      let (after, out) = construct-Valid a s live v true r in
      let node = slot a u t o.my_index in
      let same : slot a s t o.my_index ≡ node =
        ap (λ w. get_or (w t) o.my_index (blank a)) (sym (values-construct s true r)) in
      let free : node.owner_id ≡ 0 =
        subst (λ k. k.owner_id ≡ 0) same
          (elim (v.nodes t o.my_index) [ inl z ↦ z | inr z ↦ z.0 ∙ out ]) in
      value-get a u o t fresh ∙ owned-fresh o fresh node free (default-construct s true r)

  -- What can have been called since the object `o` gave the thread `t` the value `x`, while both are there.
  pub data Since (o : Owner) (t : ℕ) (x : A) : Storage A → List Owner → Type 0 where
    got :
        (s : Storage A) (xs ys : List Owner) (fresh : A)
        → Reached s (xs ++ o ∷ ys)
        → (get a s o t fresh).0 ≡ x
        → Since o t x (get a s o t fresh).1 (xs ++ o ∷ ys)
    constructed :
        (s : Storage A) (live : List Owner) (d : Bool) (r : Option ℕ)
        → Since o t x s live
        → Since o t x (construct s d r).1 ((construct s d r).0 ∷ live)
    used :
        (s : Storage A) (p : Owner) (xs ys : List Owner) (u : ℕ) (fresh : A)
        → Since o t x s (xs ++ p ∷ ys)
        → Since o t x (get a s p u fresh).1 (xs ++ p ∷ ys)
    destructed :
        (s : Storage A) (p : Owner) (xs ys : List Owner)
        → Since o t x s (xs ++ p ∷ ys)
        → has o.my_index (indices (xs ++ ys)) ≡ true
        → Since o t x (destruct a s p).1 (xs ++ ys)
    exited :
        (s : Storage A) (live : List Owner) (u : ℕ)
        → Since o t x s live
        → (u == t) ≡ false
        → Since o t x (exit_thread s u).1 live

  -- The node of the object and the thread has the object as its owner, and the value.
  record Holds (o : Owner) (t : ℕ) (x : A) (s : Storage A) (live : List Owner) : Type 0 where
    valid : Valid a s live
    positive : 0 < o.my_id
    owner : (slot a s t o.my_index).owner_id ≡ o.my_id
    value : (slot a s t o.my_index).value ≡ x

  -- The node stays as it is.
  Holds-same :
      (o : Owner) (t : ℕ) (x : A) (s s' : Storage A) (live live' : List Owner)
      → Holds o t x s live
      → Valid a s' live'
      → slot a s' t o.my_index ≡ slot a s t o.my_index
      → Holds o t x s' live'
  Holds-same o t x s s' live live' h v e = record {
    valid = v;
    positive = h.positive;
    owner = ap (λ k. k.owner_id) e ∙ h.owner;
    value = ap (λ k. k.value) e ∙ h.value;
  }

  get-Holds :
      (o : Owner) (t : ℕ) (x : A) (s : Storage A) (p : Owner) (xs ys : List Owner) (u : ℕ)
      (fresh : A)
      → Holds o t x s (xs ++ p ∷ ys)
      → Holds o t x (get a s p u fresh).1 (xs ++ p ∷ ys)
  get-Holds o t x s p xs ys u fresh h =
      Holds-same o t x s (get a s p u fresh).1 (xs ++ p ∷ ys) (xs ++ p ∷ ys) h
        (get-Valid a s (xs ++ p ∷ ys) h.valid p u fresh (own a s p xs ys h.valid).0)
        (slot-get a s p u fresh t o.my_index
          ∙ elim (Bool-cases ((u == t) && (p.my_index == o.my_index))) [
            | inr e ↦ simp e refl
            | inl e ↦
                let thread : u ≡ t = ground arith in
                let index : p.my_index ≡ o.my_index = ground arith in
                simp e (
                  ap (λ k. owned p fresh (slot a s k p.my_index)) thread
                  ∙ ap (λ k. owned p fresh (slot a s t k)) index
                  ∙ owned-kept p fresh (slot a s t o.my_index) o.my_id h.owner h.positive)
          ])

  got-Holds :
      (o : Owner) (t : ℕ) (s : Storage A) (xs ys : List Owner) (fresh : A)
      → Valid a s (xs ++ o ∷ ys)
      → Holds o t (get a s o t fresh).0 (get a s o t fresh).1 (xs ++ o ∷ ys)
  got-Holds o t s xs ys fresh v =
      let node = slot a s t o.my_index in
      let (at, positive) = own a s o xs ys v in
      let here : (t == t) ≡ true = ground arith in
      let there : (o.my_index == o.my_index) ≡ true = ground arith in
      let after : slot a (get a s o t fresh).1 t o.my_index ≡ owned o fresh node =
        slot-get a s o t fresh t o.my_index ∙ simp (here, there) refl in
      record {
        valid = get-Valid a s (xs ++ o ∷ ys) v o t fresh at;
        positive = positive;
        owner = ap (λ k. k.owner_id) after ∙ elim (Bool-cases (node.owner_id == 0)) [
          | inl e ↦ simp e refl
          | inr e ↦
              simp e
                (elim (v.nodes t o.my_index) [ inl z ↦ absurd (ground arith) | inr z ↦ z.0 ∙ at ])
        ];
        value = ap (λ k. k.value) after ∙ sym (value-get a s o t fresh);
      }

  has-apart : (i j : ℕ) (l : List ℕ) → has i l ≡ false → has j l ≡ true → (i == j) ≡ false
  has-apart i j [] e f = absurd (ground arith)
  has-apart i j (k ∷ l) e f = ground (arith, has-apart i j l)

  slot-exit_thread :
      (s : Storage A) (u t i : ℕ) → (u == t) ≡ false → slot a (exit_thread s u).1 t i ≡ slot a s t i
  unfolding exit_thread
  slot-exit_thread s u t i e = simp e refl

  Since-Holds :
      (o : Owner) (t : ℕ) (x : A) (s : Storage A) (live : List Owner)
      → Since o t x s live
      → Holds o t x s live
  Since-Holds o t x _ _ (got s xs ys fresh h e) =
      subst (λ y. Holds o t y (get a s o t fresh).1 (xs ++ o ∷ ys)) e
        (got-Holds o t s xs ys fresh (Reached-Valid s (xs ++ o ∷ ys) h))
  Since-Holds o t x _ _ (constructed s live d r h) =
      let g = Since-Holds o t x s live h in
      Holds-same o t x s (construct s d r).1 live ((construct s d r).0 ∷ live) g
        (construct-Valid a s live g.valid d r).0
        (ap (λ w. get_or (w t) o.my_index (blank a)) (values-construct s d r))
  Since-Holds o t x _ _ (used s p xs ys u fresh h) =
      get-Holds o t x s p xs ys u fresh (Since-Holds o t x s (xs ++ p ∷ ys) h)
  Since-Holds o t x _ _ (destructed s p xs ys h there) =
      let g = Since-Holds o t x s (xs ++ p ∷ ys) h in
      let out = (apart-rest a s p xs ys g.valid).0 in
      Holds-same o t x s (destruct a s p).1 (xs ++ p ∷ ys) (xs ++ ys) g
        (destruct-Valid a s p xs ys g.valid)
        (slot-destruct_other a s p t o.my_index
          (has-apart p.my_index o.my_index (indices (xs ++ ys)) out there))
  Since-Holds o t x _ _ (exited s live u h e) =
      let g = Since-Holds o t x s live h in
      Holds-same o t x s (exit_thread s u).1 live live g (exit_thread-Valid a s u live g.valid)
        (slot-exit_thread s u t o.my_index e)

  -- An object that has given a thread the value `x` gives it the same value again, whatever other objects have been made,
  -- used or destroyed since, whatever it has given to other threads, and whatever other threads have ended.
  pub get-Since :
      (o : Owner) (t : ℕ) (x : A) (s : Storage A) (live : List Owner) (fresh : A)
      → Since o t x s live
      → (get a s o t fresh).0 ≡ x
  get-Since o t x s live fresh h =
      let g = Since-Holds o t x s live h in
      value-get a s o t fresh
      ∙ ap (λ k. k.value) (owned-kept o fresh (slot a s t o.my_index) o.my_id g.owner g.positive)
      ∙ g.value
